-- ===== src/AwaitResult/Resolve.antt =====
-- The whole resolver: when it returns, and what it did meanwhile.
use mx_loom.Common.{
  ℕ, ◌+◌, ◌<◌, ◌≡◌, ◌⊎◌, inl, inr, true, Option, none, some, ◌∷◌, arith, leb, Bool-cases,
}
use mx_loom.Json.{Value}
use mx_loom.Envelope.{ToolResult}
use mx_loom.Invocation.{is_terminal}
use mx_loom.Daemon.{clock_read, History, Deps, Number, whole}
use mx_loom.Daemon.Traces.{Extends, Extends-cons, Extends-trans, Progress}
use mx_loom.AwaitResult.{
  AwaitInput, normalise_wait_ms, resolve_poll_interval, probe, wait_pending, mx_await_result,
}
use mx_loom.AwaitResult.Loop.{Polls, Expired, Ends, probe-Extends, poll_loop-Ends}

-- The resolver's result: terminal, or pending with no budget, or pending at the deadline that the
-- clock had after the first read; and only polls were made.
abbrev pub Resolves : AwaitInput → Deps → History → Option (ToolResult Value × History) → Type 0
Resolves input deps h none = ⊥
Resolves input deps h (some (r, h')) =
    ((is_terminal r.status ≡ true)
      ⊎ (normalise_wait_ms input.wait_ms ≡ 0)
      ⊎ Expired deps.env
          (deps.env.clock (probe deps.env input.handle h).1 + normalise_wait_ms input.wait_ms) h')
    × Extends (Polls input.handle (resolve_poll_interval deps.poll_interval_ms)) h h'

resolve_poll_interval-pos : (ms : Option Number) → 0 < resolve_poll_interval ms
unfolding resolve_poll_interval
resolve_poll_interval-pos none = omega arith
resolve_poll_interval-pos (some (whole n)) = omega arith
resolve_poll_interval-pos (some n) = omega arith

module _ (input : AwaitInput) (deps : Deps) (progress : Progress deps.env) (h : History) where
  after_probe-Resolves :
      (o : Option (ToolResult Value × History))
      → Ends deps.env input.handle
          (resolve_poll_interval deps.poll_interval_ms)
          (deps.env.clock (probe deps.env input.handle h).1 + normalise_wait_ms input.wait_ms)
          (clock_read ∷ (probe deps.env input.handle h).1)
          o
      → Resolves input deps h o
  after_probe-Resolves none ends = absurd ends
  after_probe-Resolves (some (r, h')) (why, more) = (
    elim why [ inl t ↦ inl t | inr late ↦ inr (inr late) ],
    Extends-trans (Extends-cons clock_read tt (probe-Extends deps.env progress input.handle _ h))
        more,
  )

  wait_pending-Resolves :
      (fuel : ℕ)
      → normalise_wait_ms input.wait_ms < fuel
      → Resolves input deps h (
          wait_pending deps input.handle
            (normalise_wait_ms input.wait_ms)
            fuel
            (probe deps.env input.handle h).0
            (probe deps.env input.handle h).1)
  unfolding wait_pending
  wait_pending-Resolves fuel enough = after_probe-Resolves _ (
      poll_loop-Ends deps.env progress input.handle _ _ fuel _ _
        (resolve_poll_interval-pos deps.poll_interval_ms)
        (omega (arith, progress.monotone (probe deps.env input.handle h).1 clock_read)))

-- Where the clock goes forward, a resolver with more rounds than `wait_ms` returns. Its envelope is
-- terminal, or there was no positive budget, or the clock had been read at or after the deadline;
-- and meanwhile it only read this invocation, read the clock, and slept for at most the interval.
pub mx_await_result-Resolves :
    (input : AwaitInput) (deps : Deps) (fuel : ℕ) (h : History)
    → Progress deps.env
    → normalise_wait_ms input.wait_ms < fuel
    → Resolves input deps h (mx_await_result fuel input deps h)
unfolding mx_await_result
mx_await_result-Resolves input deps fuel h progress enough =
    let polled = probe-Extends deps.env progress input.handle _ h in
    elim (Bool-cases (is_terminal (probe deps.env input.handle h).0.status)) [
      | inl done ↦ rw done (inl done, polled)
      | inr pending ↦ elim (Bool-cases (leb (normalise_wait_ms input.wait_ms) 0)) [
        | inl no_budget ↦ rw (pending, no_budget) (inr (inl (ground arith)), polled)
        | inr budget ↦
            rw (pending, budget) (wait_pending-Resolves input deps progress h fuel enough)
      ]
    ]
