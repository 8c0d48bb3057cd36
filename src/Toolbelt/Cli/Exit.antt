-- ===== src/Toolbelt/Cli/Exit.antt =====
-- A child that writes and then exits, against the whole of what it wrote.
use mx_loom.Common.{
  ℕ, ◌+◌, ◌≡◌, refl, sym, ap, ◌∙◌, arith, Bool, true, false, ◌||◌, Option, List, [], ◌∷◌, ◌++◌,
  length, length-append, ltb, if◌then◌else◌,
}
use mathlib.Core.List.{append_assoc, append-nil}
use mx_loom.Json.{Value}
use mx_loom.Toolbelt.Transport.{protocol, transport_error, Outcome, rejected}
use mx_loom.Toolbelt.Framing.{Bytes, max_frame_bytes}
use mx_loom.Toolbelt.Cli.Child.{
  Reader, normalize_exit, Capture, ChildState, ChildEvent, out_data, err_data, spawn_failed,
  timed_out, exited, call_settled, settle, is_over_limit, capture, exit_outcome, step, run,
  new_child,
}

abbrev pub only_writes : List ChildEvent → Bool
only_writes [] = true
only_writes (out_data chunk ∷ es) = only_writes es
only_writes (err_data chunk ∷ es) = only_writes es
only_writes (_ ∷ es) = false

-- All that was written to the one stream, and to the other.
abbrev pub out_of : List ChildEvent → Bytes
out_of [] = []
out_of (out_data chunk ∷ es) = chunk ++ out_of es
out_of (_ ∷ es) = out_of es

abbrev pub err_of : List ChildEvent → Bytes
err_of [] = []
err_of (err_data chunk ∷ es) = chunk ++ err_of es
err_of (_ ∷ es) = err_of es

abbrev over : Bytes → Bool
over total = ltb max_frame_bytes (length total)

-- The call's outcome, by the exit code and the two streams.
abbrev pub outcome_of : Reader → Option ℕ → Bytes → Bytes → Outcome Value
outcome_of r code outs errs =
    if ltb max_frame_bytes (length outs) || ltb max_frame_bytes (length errs)
    then rejected (transport_error protocol)
    else normalize_exit r code (r.decode outs) (r.decode errs)

-- All is kept, up to the limit.
abbrev Kept : Capture → Bytes → Type 0
Kept c total = (c.len ≡ length total) × ((if over total then total else c.chunks) ≡ total)

over-append : (a b : Bytes) → over a ≡ true → over (a ++ b) ≡ true
over-append a b e = grind (arith, length-append a b)

kept_chunks : (b : Bool) (x y : Bytes) → b ≡ false → (if b then y else x) ≡ y → x ≡ y
kept_chunks true x y e h = absurd cc
kept_chunks false x y e h = h

contradiction : (b : Bool) → b ≡ true → b ≡ false → ⊥
contradiction b p q = cc

not_before : (a b : Bool) → (a ≡ true → b ≡ true) → b ≡ false → a ≡ false
not_before true b f e = absurd (contradiction b (f refl) e)
not_before false b f e = refl

same_over :
    (c : Capture) (total chunk : Bytes)
    → c.len ≡ length total
    → is_over_limit c chunk ≡ over (total ++ chunk)
unfolding is_over_limit
same_over c total chunk p =
    let n : c.len + length chunk ≡ length (total ++ chunk) =
      omega (arith, p, length-append total chunk) in
    ap (ltb max_frame_bytes) n

capture-Kept :
    (c : Capture) (total chunk : Bytes) → Kept c total → Kept (capture c chunk) (total ++ chunk)
unfolding capture
capture-Kept c total chunk (p, q) =
    (omega (arith, p, length-append total chunk), whole (over (total ++ chunk)) refl)
  where
    whole :
        (b : Bool)
        → over (total ++ chunk) ≡ b
        → (if b
            then total ++ chunk
            else if is_over_limit c chunk
            then c.chunks
            else c.chunks ++ chunk)
          ≡ total ++ chunk
    whole true e = refl
    whole false e = rw (same_over c total chunk p ∙ e) (
        ap (λ x. x ++ chunk)
          (kept_chunks (over total) c.chunks total
            (not_before (over total) (over (total ++ chunk)) (over-append total chunk) e) q))

abbrev Whole : ChildState → Bytes → Bytes → Type 0
Whole s outs errs =
    (s.settled ≡ false)
    × (s.overflow ≡ (over outs || over errs))
    × Kept s.out outs
    × Kept s.err errs

-- A test that gives way to a later one.
later_left : (a b c : Bool) → (a ≡ true → c ≡ true) → ((a || b) || c) ≡ (c || b)
later_left true b c f = rw (f refl) refl
later_left false true true f = refl
later_left false true false f = refl
later_left false false true f = refl
later_left false false false f = refl

later_right : (a b c : Bool) → (b ≡ true → c ≡ true) → ((a || b) || c) ≡ (a || c)
later_right true b c f = refl
later_right false true c f = sym (f refl)
later_right false false c f = refl

module _ (r : Reader) where
  run-Whole :
      (s : ChildState) (events : List ChildEvent) (outs errs : Bytes)
      → only_writes events ≡ true
      → Whole s outs errs
      → Whole (run r s events).0 (outs ++ out_of events) (errs ++ err_of events)
  unfolding run step
  run-Whole s [] outs errs e (n, o, p, q) = rw (append-nil, append-nil) (n, o, p, q)
  run-Whole s (out_data chunk ∷ es) outs errs e (n, o, p, q) =
      let s' = (step r s (out_data chunk)).0 in
      let o' : s'.overflow ≡ (over (outs ++ chunk) || over errs) =
        rw (o, same_over s.out outs chunk p.0)
          (later_left (over outs) (over errs) (over (outs ++ chunk)) (over-append outs chunk)) in
      rw⁻¹ (append_assoc outs chunk (out_of es))
        (run-Whole s' es (outs ++ chunk) errs e (n, o', capture-Kept s.out outs chunk p, q))
  run-Whole s (err_data chunk ∷ es) outs errs e (n, o, p, q) =
      let s' = (step r s (err_data chunk)).0 in
      let o' : s'.overflow ≡ (over outs || over (errs ++ chunk)) =
        rw (o, same_over s.err errs chunk q.0)
          (later_right (over outs) (over errs) (over (errs ++ chunk)) (over-append errs chunk)) in
      rw⁻¹ (append_assoc errs chunk (err_of es))
        (run-Whole s' es outs (errs ++ chunk) e (n, o', p, capture-Kept s.err errs chunk q))
  run-Whole s (spawn_failed a ∷ es) outs errs e w = absurd cc
  run-Whole s (timed_out ∷ es) outs errs e w = absurd cc
  run-Whole s (exited code ∷ es) outs errs e w = absurd cc

  exit-outcome_of :
      (code : Option ℕ) (s : ChildState) (outs errs : Bytes)
      → Whole s outs errs
      → exit_outcome r code s ≡ outcome_of r code outs errs
  exit-outcome_of code s outs errs (n, o, p, q) = by_size (over outs) (over errs) refl refl
    where
      by_size :
          (a b : Bool)
          → over outs ≡ a
          → over errs ≡ b
          → exit_outcome r code s ≡ outcome_of r code outs errs
      by_size true b e f = rw (o, e) refl
      by_size false true e f = rw (o, e, f) refl
      by_size false false e f =
          rw
            (
              o,
              e,
              f,
              kept_chunks (over outs) s.out.chunks outs e p.1,
              kept_chunks (over errs) s.err.chunks errs f q.1,
            )
            refl

  -- A child that only writes, to its two streams in any order and in any chunks, and then exits, settles
  -- its call by the exit code and all of what it wrote: as a protocol error if one of the streams is
  -- longer than the limit of a frame, and else as the two texts are read.
  pub exit_settles_whole :
      (events : List ChildEvent) (code : Option ℕ)
      → only_writes events ≡ true
      → (step r (run r new_child events).0 (exited code)).1
        ≡ call_settled (outcome_of r code (out_of events) (err_of events)) ∷ []
  unfolding step settle
  exit_settles_whole events code e =
      let w = run-Whole new_child events [] [] e (refl, refl, (refl, refl), (refl, refl)) in
      rw (w.0, exit-outcome_of code (run r new_child events).0 (out_of events) (err_of events) w)
        refl
