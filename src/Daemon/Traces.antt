-- ===== src/Daemon/Traces.antt =====
-- What a handler adds to the history, and an environment whose clock goes forward.
use mx_loom.Common.{sym, ℕ, ◌+◌, ◌≤◌, ◌≡◌, refl, ap, ◌∙◌, List, [], ◌∷◌, ◌++◌, All, All-append}
use mathlib.Core.List.{append_assoc}
use mx_loom.Daemon.{Event, slept, History, Env}

-- `later` is `earlier` with more events, each as `P` says.
abbrev pub Extends : (Event → Type 0) → History → History → Type 0
Extends P earlier later = (es : List Event) × (later ≡ es ++ earlier) × All P es

module _ {P : Event → Type 0} where
  pub Extends-refl : (h : History) → Extends P h h
  Extends-refl h = ([], refl, tt)

  pub Extends-cons :
      (e : Event) {earlier later : History}
      → P e
      → Extends P earlier later
      → Extends P earlier (e ∷ later)
  Extends-cons e p (es, same, all) = (e ∷ es, ap (λ t. e ∷ t) same, (p, all))

  pub Extends-trans : {a b c : History} → Extends P a b → Extends P b c → Extends P a c
  Extends-trans {a} (es, first, p) (ds, second, q) = (
    ds ++ es,
    second ∙ ap (λ t. ds ++ t) first ∙ sym (append_assoc ds es a),
    All-append P ds es q p,
  )

-- The clock never goes back, and a sleep of `ms` takes at least `ms`.
pub record Progress (env : Env) : Type 0 where
  pub monotone : (h : History) (e : Event) → env.clock h ≤ env.clock (e ∷ h)
  pub sleeps : (h : History) (ms : ℕ) → env.clock h + ms ≤ env.clock (slept ms ∷ h)
