-- ===== src/RunCommand/Laws.antt =====
-- A command is started once, and then only its invocation is read.
use mx_loom.Common.{ℕ, ◌<◌, ◌≡◌, refl, Option, none, some, [], ◌∷◌, ◌&&◌, not, if_both}
use mx_loom.Text.{Text, codes}
use mx_loom.Json.{Value}
use mx_loom.Envelope.{ToolResult}
use mx_loom.Invocation.{is_terminal, call_response_to_result}
use mx_loom.Daemon.{Reply, resolved, rejected, called, History, Deps, Number}
use mx_loom.Daemon.Traces.{Extends, Extends-refl, Progress}
use mx_loom.AwaitResult.{AwaitInput, normalise_wait_ms, resolve_poll_interval}
use mx_loom.AwaitResult.Loop.{Polls}
use mx_loom.AwaitResult.Resolve.{Resolves, mx_await_result-Resolves}
use mx_loom.Tasks.Handlers.{usable_room, key_or_new}
use mx_loom.RunCommand.{
  RunCommandInput, run_params, no_exec_room, wait_for, wait_inline, is_positive_wait, after_start,
  start_in, mx_run_command,
}

-- A run returned, and since `h` only polls of one invocation were made.
abbrev pub Waited : Deps → History → Option (ToolResult Value × History) → Type 0
Waited deps h none = ⊥
Waited deps h (some (r, h')) =
    (handle : Text) × Extends (Polls handle (resolve_poll_interval deps.poll_interval_ms)) h h'

-- By the room: nothing happened, or the start, and then only the wait.
abbrev pub RunsIn :
    Option Text → RunCommandInput → Deps → History → Option (ToolResult Value × History) → Type 0
RunsIn none input deps h run = run ≡ some (no_exec_room, h)
RunsIn (some room) input deps h run =
    let (key, h') = key_or_new deps.env input.idempotency_key h in
    Waited deps (called (codes "exec.start") (run_params input room key) ∷ h') run

Resolves-Waited :
    (input : AwaitInput) (deps : Deps) (h : History) (run : Option (ToolResult Value × History))
    → Resolves input deps h run
    → Waited deps h run
Resolves-Waited input deps h none w = w
Resolves-Waited input deps h (some (r, h')) (_, polls) = (input.handle, polls)

module _ (wait_ms : Option Number) (deps : Deps) (fuel : ℕ) (progress : Progress deps.env)
    (enough : normalise_wait_ms wait_ms < fuel) where
  wait_for-Waited :
      (handle : Option Text) (r : ToolResult Value) (h : History)
      → Waited deps h (wait_for fuel handle wait_ms deps r h)
  wait_for-Waited none r h = ([], Extends-refl h)
  wait_for-Waited (some []) r h = ([], Extends-refl h)
  wait_for-Waited (some (c ∷ s)) r h =
      Resolves-Waited (record { handle = c ∷ s; wait_ms = wait_ms }) deps h _
        (mx_await_result-Resolves (record { handle = c ∷ s; wait_ms = wait_ms }) deps fuel h
          progress enough)

  pub wait_inline-Waited :
      (r : ToolResult Value) (h : History) → Waited deps h (wait_inline fuel wait_ms deps r h)
  unfolding wait_inline
  wait_inline-Waited r h =
      if_both (Waited deps h) (not (is_terminal r.status) && is_positive_wait wait_ms)
        (wait_for fuel r.handle wait_ms deps r h) (some (r, h)) (wait_for-Waited r.handle r h)
        ([], Extends-refl h)

module _ (input : RunCommandInput) (deps : Deps) (fuel : ℕ) where
  module _ (progress : Progress deps.env) (enough : normalise_wait_ms input.wait_ms < fuel) where
    after_start-Waited :
        (reply : Reply) (h : History) → Waited deps h (after_start fuel input deps reply h)
    after_start-Waited (rejected err) h = ([], Extends-refl h)
    after_start-Waited (resolved raw) h =
        wait_inline-Waited input.wait_ms deps fuel progress enough (call_response_to_result raw) h

    start_in-RunsIn :
        (room : Option Text) (h : History)
        → RunsIn room input deps h (start_in room fuel input deps h)
    start_in-RunsIn none h = refl
    start_in-RunsIn (some room) h = after_start-Waited _ _

pub mx_run_command-RunsIn :
    (input : RunCommandInput) (deps : Deps) (fuel : ℕ) (h : History)
    → Progress deps.env
    → normalise_wait_ms input.wait_ms < fuel
    → RunsIn (usable_room deps.room) input deps h (mx_run_command fuel input deps h)
unfolding mx_run_command
mx_run_command-RunsIn input deps fuel h progress enough =
    start_in-RunsIn input deps fuel progress enough (usable_room deps.room) h
