-- ===== src/AwaitResult/Loop.antt =====
-- The poll loop ends, what it does meanwhile, and what its result says.
use mx_loom.Common.{
  ℕ, zero, suc, ◌+◌, ◌-◌, ◌≤◌, ◌<◌, min, ◌≡◌, refl, ◌⊎◌, inl, inr, true, Option, none, some, ◌∷◌,
  arith, leb, Bool-cases,
}
use mx_loom.Text.{Text, codes}
use mx_loom.Json.{Value}
use mx_loom.Envelope.{ToolResult}
use mx_loom.Invocation.{is_terminal}
use mx_loom.Daemon.{Event, called, slept, clock_read, key_made, History, Env}
use mx_loom.Daemon.Traces.{Extends, Extends-refl, Extends-cons, Extends-trans, Progress}
use mx_loom.AwaitResult.{invocation_params, probe, poll_loop}

-- A read of the handle's invocation, a reading of the clock, or a sleep of at most `interval`.
abbrev pub Polls : Text → ℕ → Event → Type 0
Polls handle interval (called method params) =
    (method ≡ codes "invocation.get") × (params ≡ invocation_params handle)
Polls handle interval (slept ms) = ms ≤ interval
Polls handle interval clock_read = Unit
Polls handle interval key_made = ⊥

-- The clock was read last, at or after the deadline.
abbrev pub Expired : Env → ℕ → History → Type 0
Expired env deadline h =
    (before : History) × (h ≡ clock_read ∷ before) × (deadline ≤ env.clock before)

-- The loop's result: terminal, or pending at the deadline; and only polls were made.
abbrev pub Ends : Env → Text → ℕ → ℕ → History → Option (ToolResult Value × History) → Type 0
Ends env handle interval deadline h none = ⊥
Ends env handle interval deadline h (some (r, h')) =
    ((is_terminal r.status ≡ true) ⊎ Expired env deadline h') × Extends (Polls handle interval) h h'

module _ (env : Env) (progress : Progress env) (handle : Text) where
  pub probe-Extends :
      (interval : ℕ) (h : History) → Extends (Polls handle interval) h (probe env handle h).1
  unfolding probe
  probe-Extends interval h = Extends-cons _ (refl, refl) (Extends-refl h)

  -- One round takes the clock forward by the sleep.
  round-clock :
      (ms : ℕ) (h : History)
      → env.clock h + ms ≤ env.clock (probe env handle (slept ms ∷ clock_read ∷ h)).1
  unfolding probe
  round-clock ms h = omega (
    arith,
    progress.monotone h clock_read,
    progress.sleeps (clock_read ∷ h) ms,
    progress.monotone (slept ms ∷ clock_read ∷ h) _,
  )

  round-Extends :
      (interval ms : ℕ) (h : History)
      → ms ≤ interval
      → Extends (Polls handle interval) h (probe env handle (slept ms ∷ clock_read ∷ h)).1
  round-Extends interval ms h le =
      Extends-trans (Extends-cons (slept ms) le (Extends-cons clock_read tt (Extends-refl h)))
        (probe-Extends interval (slept ms ∷ clock_read ∷ h))

  Ends-extend :
      (interval deadline : ℕ) {a b : History}
      → Extends (Polls handle interval) a b
      → (o : Option (ToolResult Value × History)) → Ends env handle interval deadline b o
      → Ends env handle interval deadline a o
  Ends-extend interval deadline e none ends = absurd ends
  Ends-extend interval deadline e (some (r, h')) (why, more) = (why, Extends-trans e more)

  pub poll_loop-Ends :
      (interval deadline fuel : ℕ) (current : ToolResult Value) (h : History)
      → 0 < interval
      → deadline - env.clock h < fuel
      → Ends env handle interval deadline h (poll_loop env handle interval deadline fuel current h)
  unfolding poll_loop
  poll_loop-Ends interval deadline zero current h pos enough = absurd (omega arith)
  poll_loop-Ends interval deadline (suc fuel) current h pos enough =
      elim (Bool-cases (leb deadline (env.clock h))) [
        | inl due ↦
            rw due (inr (h, refl, ground arith), Extends-cons clock_read tt (Extends-refl h))
        | inr early ↦
            let ms = min interval (deadline - env.clock h) in
            let (next, h') = probe env handle (slept ms ∷ clock_read ∷ h) in
            let before : env.clock h < deadline = ground arith in
            let moved = round-Extends interval ms h (omega arith) in
            rw early (elim (Bool-cases (is_terminal next.status)) [
              | inl done ↦ rw done (inl done, moved)
              | inr pending ↦ rw pending (
                  Ends-extend interval deadline moved _ (
                    poll_loop-Ends interval deadline fuel next h' pos
                      (omega (arith, round-clock ms h))))
            ])
      ]
