-- ===== src/Dispatch/Starts.antt =====
-- How many invocations a handler starts.
use mx_loom.Common.{
  ℕ, ◌+◌, ◌≤◌, ◌≡◌, refl, sym, ap, arith, bit, Bool, false, ◌||◌, Option, none, some, List, [], ◌∷◌,
  ◌++◌, All, subst,
}
use mx_loom.Text.{Text, codes, eq_text}
use mx_loom.Json.{Value}
use mx_loom.Envelope.{ToolResult}
use mx_loom.Daemon.{
  Reply, resolved, rejected, Event, called, slept, clock_read, key_made, History, Env, Deps,
}
use mx_loom.AwaitResult.Loop.{Polls}
use mx_loom.AwaitResult.{resolve_poll_interval}
use mx_loom.Tasks.Handlers.{key_or_new, list_params, mx_list_tasks, list_reply, list_view}
use mx_loom.RunCommand.{RunCommandInput, run_params}
use mx_loom.RunCommand.Laws.{Waited, RunsIn}
use mx_loom.Delegate.{DelegateToolInput, DelegateDeps, tools_params, start_params}
use mx_loom.Delegate.Laws.{Starts, DelegatesIn}
use mx_loom.Dispatch.{list_input}

-- A request that starts an invocation.
abbrev pub is_start : Event → Bool
is_start (called method params) =
    eq_text method (codes "call.start") || eq_text method (codes "exec.start")
is_start _ = false

abbrev pub starts : History → ℕ
starts [] = 0
starts (e ∷ h) = bit (is_start e) + starts h

-- A run returned, and started at most so many invocations since `h`.
abbrev pub StartsUpTo : ℕ → History → Option (ToolResult Value × History) → Type 0
StartsUpTo n h none = ⊥
StartsUpTo n h (some (r, h')) = starts h' ≤ n + starts h

poll_no_start :
    (handle : Text) (interval : ℕ) (e : Event) → Polls handle interval e → is_start e ≡ false
unfolding eq_text codes
poll_no_start handle interval (called method params) (m, _) =
    subst (λ x. is_start (called x params) ≡ false) (sym m) refl
poll_no_start handle interval (slept ms) p = refl
poll_no_start handle interval clock_read p = refl
poll_no_start handle interval key_made p = absurd p

poll_count :
    (handle : Text) (interval : ℕ) (es : List Event) (h : History)
    → All (Polls handle interval) es
    → starts (es ++ h) ≡ starts h
poll_count handle interval [] h p = refl
poll_count handle interval (e ∷ es) h (p, ps) =
    let none_here = poll_no_start handle interval e p in
    rw none_here (omega (arith, poll_count handle interval es h ps))

wait_count :
    (deps : Deps) (h : History) (n : ℕ) (start : History)
    (run : Option (ToolResult Value × History))
    → Waited deps h run
    → starts h ≤ n + starts start
    → StartsUpTo n start run
wait_count deps h n start none w le = w
wait_count deps h n start (some (r, h')) (handle, (es, same, polls)) le = omega (
  arith,
  ap starts same,
  poll_count handle (resolve_poll_interval deps.poll_interval_ms) es h polls,
  le,
)

key-starts :
    (env : Env) (key : Option Text) (h : History) → starts (key_or_new env key h).1 ≡ starts h
key-starts env none h = omega arith
key-starts env (some k) h = refl

returned-starts :
    (n : ℕ) (h : History) (r : ToolResult Value) (h' : History)
    (run : Option (ToolResult Value × History))
    → run ≡ some (r, h')
    → starts h' ≤ n + starts h
    → StartsUpTo n h run
returned-starts n h r h' run e le = subst (StartsUpTo n h) (sym e) le

module _ (h : History) (run : Option (ToolResult Value × History)) where
  refusal_count :
      (o : Option (ToolResult Value)) (room : Text) (input : DelegateToolInput) (d : DelegateDeps)
      → let before = called (codes "agent.tools") (tools_params input.agent) ∷ h in
        Starts o room input d before run → StartsUpTo 1 h run
  unfolding eq_text codes
  refusal_count (some r) room input d e = returned-starts 1 h r _ run e (omega arith)
  refusal_count none room input d w =
      let before : History = called (codes "agent.tools") (tools_params input.agent) ∷ h in
      let (key, h') = key_or_new d.deps.env input.idempotency_key before in
      wait_count d.deps (called (codes "call.start") (start_params input room key) ∷ h') 1 h run w
        (omega (arith, key-starts d.deps.env input.idempotency_key before))

  pub delegation_count :
      (room : Option Text) (input : DelegateToolInput) (d : DelegateDeps)
      → DelegatesIn room input d h run
      → StartsUpTo 1 h run
  delegation_count none input d e = returned-starts 1 h _ h run e (omega arith)
  delegation_count (some room) input d s = refusal_count _ room input d s

  pub command_count :
      (room : Option Text) (input : RunCommandInput) (deps : Deps)
      → RunsIn room input deps h run
      → StartsUpTo 1 h run
  unfolding eq_text codes
  command_count none input deps e = returned-starts 1 h _ h run e (omega arith)
  command_count (some room) input deps w =
      let (key, h') = key_or_new deps.env input.idempotency_key h in
      wait_count deps (called (codes "exec.start") (run_params input room key) ∷ h') 1 h run w
        (omega (arith, key-starts deps.env input.idempotency_key h))

pub list-starts :
    (deps : Deps) (h : History) → starts (mx_list_tasks list_input deps h).1 ≡ starts h
unfolding mx_list_tasks eq_text codes
list-starts deps h = by_reply _
  where
    by_reply :
        (reply : Reply)
        → starts
            (list_reply list_view deps.env
              (list_params list_input deps.room)
              reply
              (called (codes "task.list") (list_params list_input deps.room) ∷ h)).1
          ≡ starts h
    by_reply (resolved raw) = omega arith
    by_reply (rejected err) = omega arith
