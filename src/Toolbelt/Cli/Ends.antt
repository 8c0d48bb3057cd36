-- ===== src/Toolbelt/Cli/Ends.antt =====
-- How the call of a child ends, and what is kept of its output.
use mx_loom.Common.{
  bit, ℕ, ◌+◌, ◌≤◌, ◌≡◌, refl, sym, ap, ◌∙◌, arith, Bool, true, false, ◌||◌, any, List, [], ◌∷◌,
  ◌++◌, length, length-append, ltb, if◌then◌else◌, Bool-cases, inl, inr, subst,
}
use mx_loom.Json.{Value}
use mx_loom.Toolbelt.Transport.{timeout, transport_error, Outcome, rejected}
use mx_loom.Toolbelt.Framing.{Bytes, max_frame_bytes}
use mx_loom.Toolbelt.Cli.Child.{
  Reader, Capture, ChildState, ChildEvent, out_data, err_data, spawn_failed, timed_out, exited,
  ChildEffect, killed, call_settled, settle, is_over_limit, capture, kill_if, killed_before,
  exit_outcome, step, run, new_child,
}

abbrev pub settlements : List ChildEffect → ℕ
settlements [] = 0
settlements (killed ∷ es) = settlements es
settlements (call_settled o ∷ es) = 1 + settlements es

-- The events that end the call.
abbrev pub ends : ChildEvent → Bool
ends (out_data chunk) = false
ends (err_data chunk) = false
ends _ = true

settlements-append :
    (es fs : List ChildEffect) → settlements (es ++ fs) ≡ settlements es + settlements fs
settlements-append [] fs = omega arith
settlements-append (killed ∷ es) fs = settlements-append es fs
settlements-append (call_settled o ∷ es) fs = omega (arith, settlements-append es fs)

kill_if-settlements : (b : Bool) → settlements (kill_if b) ≡ 0
kill_if-settlements true = refl
kill_if-settlements false = refl

-- What is kept is no more than the limit, and than was counted.
Bounded : Capture → Type 0
Bounded c = (length c.chunks ≤ max_frame_bytes) × (length c.chunks ≤ c.len)

not_over : (n : ℕ) → ltb max_frame_bytes n ≡ false → n ≤ max_frame_bytes
not_over n e = ground arith

capture-Bounded : (c : Capture) (chunk : Bytes) → Bounded c → Bounded (capture c chunk)
unfolding Bounded capture is_over_limit
capture-Bounded c chunk (p, q) = elim (Bool-cases (ltb max_frame_bytes (c.len + length chunk))) [
  | inl e ↦ rw e (p, omega (arith, q))
  | inr e ↦ rw e (
    omega (arith, q, length-append c.chunks chunk, not_over (c.len + length chunk) e),
    omega (arith, q, length-append c.chunks chunk),
  )
]

-- A part of a step that ends the call, where it has not ended.
abbrev Settles : ChildState → ChildState × List ChildEffect → Type 0
Settles s r = (r.0.settled ≡ true) × (settlements r.1 + bit s.settled ≡ 1)

settle-Settles : (o : Outcome Value) (s : ChildState) → Settles s (settle o s)
unfolding settle
settle-Settles o s = by_flag s.settled refl
  where
    by_flag :
        (b : Bool)
        → s.settled ≡ b
        → Settles s (if b then (s, []) else (record s { settled = true }, call_settled o ∷ []))
    by_flag true e = (e, omega (arith, ap bit e))
    by_flag false e = (refl, omega (arith, ap bit e))

settle-kept :
    (o : Outcome Value) (s : ChildState)
    → ((settle o s).0.out ≡ s.out) × ((settle o s).0.err ≡ s.err)
unfolding settle
settle-kept o s = elim (Bool-cases s.settled) [
  | inl e ↦ rw e (refl, refl)
  | inr e ↦ rw e (refl, refl)
]

-- What a step does: it settles at most once, at an event that ends the call, and keeps the bounds.
abbrev Stepped : ChildState → Bool → ChildState × List ChildEffect → Type 0
Stepped s b r =
    (r.0.settled ≡ (s.settled || b))
    × (settlements r.1 + bit s.settled ≡ bit (s.settled || b))
    × Bounded r.0.out
    × Bounded r.0.err

killed_before-settlements :
    (b : Bool) (es : List ChildEffect) → settlements (killed_before b es) ≡ settlements es
killed_before-settlements true es = refl
killed_before-settlements false es = refl

or_assoc : (a b c : Bool) → ((a || b) || c) ≡ (a || (b || c))
or_assoc true b c = refl
or_assoc false b c = refl

or_true : (b : Bool) → (b || true) ≡ true
or_true true = refl
or_true false = refl

or_false : (b : Bool) → (b || false) ≡ b
or_false true = refl
or_false false = refl

settle-Stepped :
    (o : Outcome Value) (s : ChildState)
    → Bounded s.out
    → Bounded s.err
    → Stepped s true (settle o s)
settle-Stepped o s p q =
    let (a, b) = settle-Settles o s in
    let (c, d) = settle-kept o s in
    rw (or_true s.settled) (a, b, subst Bounded (sym c) p, subst Bounded (sym d) q)

module _ (r : Reader) where
  step-Stepped :
      (s : ChildState) (event : ChildEvent)
      → Bounded s.out
      → Bounded s.err
      → Stepped s (ends event) (step r s event)
  unfolding step
  step-Stepped s (out_data chunk) p q = rw (or_false s.settled) (
    refl,
    omega (arith, kill_if-settlements (is_over_limit s.out chunk)),
    capture-Bounded s.out chunk p,
    q,
  )
  step-Stepped s (err_data chunk) p q = rw (or_false s.settled) (
    refl,
    omega (arith, kill_if-settlements (is_over_limit s.err chunk)),
    p,
    capture-Bounded s.err chunk q,
  )
  step-Stepped s (spawn_failed absent) p q = settle-Stepped _ s p q
  step-Stepped s (exited code) p q = settle-Stepped (exit_outcome r code s) s p q
  step-Stepped s timed_out p q =
      let o = rejected (transport_error timeout) in
      let (a, b, c, d) = settle-Stepped o s p q in
      (a, omega (arith, b, killed_before-settlements s.settled (settle o s).1), c, d)

  run-Stepped :
      (s : ChildState) (events : List ChildEvent)
      → Bounded s.out
      → Bounded s.err
      → Stepped s (any ends events) (run r s events)
  unfolding run
  run-Stepped s [] p q = rw (or_false s.settled) (refl, omega arith, p, q)
  run-Stepped s (event ∷ events) p q =
      let t = step r s event in
      let (a, b, p', q') = step-Stepped s event p q in
      let (a2, b2, p2, q2) = run-Stepped t.0 events p' q' in
      (
        a2 ∙ ap (λ x. x || any ends events) a ∙ or_assoc s.settled (ends event) (any ends events),
        omega (
          arith,
          b,
          b2,
          settlements-append t.1 (run r t.0 events).1,
          ap bit a,
          ap (λ x. bit (x || any ends events)) a,
          ap bit (or_assoc s.settled (ends event) (any ends events)),
        ),
        p2,
        q2,
      )

-- Whatever happens to a child: its call settles once if the spawn failed, the time ran out or the child
-- exited, in any order and number, and never otherwise; and of neither stream more is kept than the
-- limit of a frame.
pub call_settles_bounded :
    (r : Reader) (events : List ChildEvent)
    → let (s, effects) = run r new_child events in
      (settlements effects ≡ bit (any ends events))
      × (length s.out.chunks ≤ max_frame_bytes)
      × (length s.err.chunks ≤ max_frame_bytes)
unfolding Bounded
call_settles_bounded r events =
    let (_, b, p, q) =
      run-Stepped r new_child events (omega arith, omega arith) (omega arith, omega arith) in
    (omega (arith, b), p.0, q.0)
