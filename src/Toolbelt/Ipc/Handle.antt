-- ===== src/Toolbelt/Ipc/Handle.antt =====
-- packages/toolbelt/src/ipc/client.ts: connecting, a response, and the callbacks of a call.
use mx_loom.Common.{
  ℕ, suc, ◌==◌, Bool, true, false, not, Option, none, some, List, [], ◌∷◌, ◌++◌, if◌then◌else◌,
}
use mx_loom.Text.{Text, codes, is_empty}
use mx_loom.Json.{Value, undefined, null, bool, num, str, obj, Fields, end, field, get, has_own}
use mx_loom.Json.Number.{plus}
use mx_loom.Toolbelt.Transport.{
  TransportErrorCode, not_running, connect_failed, timeout, closed, frame, protocol, rpc,
  transport_error, Outcome, resolved, rejected,
}
use mx_loom.Toolbelt.Framing.{Bytes}
use mx_loom.Toolbelt.Ipc.Table.{
  Waiting, Ticket, IpcClient, IpcEffect, mem, drop_call, drop_key, call_at, key_of, reject, finish,
  then_do, fail_all, opening, sent, ending, tearing, uncaught,
}

-- `this.#socket && !this.#socket.destroyed`.
abbrev pub live_socket : Option ℕ → List ℕ → Option ℕ
live_socket none destroyed = none
live_socket (some c) destroyed = if mem c destroyed then none else some c

abbrev pub await : Text → Value → ℕ → IpcClient → IpcClient
await method params connection s = record s {
  next_call = suc s.next_call;
  open_calls = s.next_call ∷ s.open_calls;
  waiting =
      s.waiting
      ++ (record { call = s.next_call; connection = connection; method = method; params = params }
          ∷ []);
}

-- `#connect`: the live socket, the attempt under way, or a new one.
abbrev pub connect_for : Option ℕ → Option ℕ → Text → Value → IpcClient → IpcClient × List IpcEffect
connect_for (some c) connecting method params s = (await method params c s, [])
connect_for none (some c) method params s = (await method params c s, [])
connect_for none none method params s = (
  await method params s.next_connection
      (record s { connecting = some s.next_connection; next_connection = suc s.next_connection }),
  opening s.next_connection ∷ [],
)

unfoldable pub request : Text → Value → IpcClient → IpcClient × List IpcEffect
request method params s =
    connect_for (live_socket s.socket s.destroyed) s.connecting method params s

abbrev pub params_fields : Value → Fields
params_fields undefined = end
params_fields params = field (codes "params") params end

-- `{ jsonrpc, id, method, params }`.
unfoldable pub request_body : Text → Text → Value → Value
request_body id method params = obj (
    field (codes "jsonrpc") (str (codes "2.0"))
      (field (codes "id") (str id) (field (codes "method") (str method) (params_fields params))))

abbrev pub refusal : Bool → TransportErrorCode
refusal absent = if absent then not_running else connect_failed

-- The calls that awaited a connection that is not to be, in order.
unfoldable pub refuse_all :
    TransportErrorCode → ℕ → List Waiting → IpcClient → IpcClient × List IpcEffect
refuse_all code c [] s = (s, [])
refuse_all code c (w ∷ ws) s =
    then_do (if c == w.connection then reject w.call code s else (s, [])) (refuse_all code c ws)

abbrev pub still_waiting : ℕ → List Waiting → List Waiting
still_waiting c [] = []
still_waiting c (w ∷ ws) =
    let rest = still_waiting c ws in if c == w.connection then rest else w ∷ rest

abbrev pub on_refused : TransportErrorCode → Option ℕ → IpcClient → IpcClient × List IpcEffect
on_refused code none s = (s, [])
on_refused code (some c) s =
    refuse_all code c s.waiting
      (record s { connecting = none; waiting = still_waiting c s.waiting })

abbrev pub on_connected : Option ℕ → IpcClient → IpcClient × List IpcEffect
on_connected none s = (s, [])
on_connected (some c) s = (record s { socket = some c; connecting = none }, [])

abbrev pub is_connecting : Option ℕ → ℕ → Bool
is_connecting none c = false
is_connecting (some d) c = c == d

abbrev pub find_waiting : ℕ → List Waiting → Option Waiting
find_waiting n [] = none
find_waiting n (w ∷ ws) = let rest = find_waiting n ws in if n == w.call then some w else rest

abbrev pub drop_waiting : ℕ → List Waiting → List Waiting
drop_waiting n [] = []
drop_waiting n (w ∷ ws) = let rest = drop_waiting n ws in if n == w.call then rest else w ∷ rest

-- `'error' in msg && msg.error`: the value is true in a test.
unfoldable pub truthy : Value → Bool
truthy undefined = false
truthy null = false
truthy (bool b) = b
truthy (num (plus n)) = not (n == 0)
truthy (str s) = not (is_empty s)
truthy v = true

unfoldable pub response_outcome : Fields → Outcome Value
unfolding truthy
response_outcome fs =
    if truthy (get (codes "error") (obj fs))
    then rejected (transport_error rpc)
    else if has_own (codes "result") fs
    then resolved (get (codes "result") (obj fs))
    else rejected (transport_error protocol)

abbrev pub answer_entry : Option ℕ → ℕ → Fields → IpcClient → IpcClient × List IpcEffect
answer_entry none k fs s = (s, [])
answer_entry (some n) k fs s =
    finish n (response_outcome fs) (record s { pending = drop_key k s.pending })

abbrev pub answer_key : Option ℕ → Fields → IpcClient → IpcClient × List IpcEffect
answer_key none fs s = (s, [])
answer_key (some k) fs s = answer_entry (call_at k s.pending) k fs s

abbrev pub answer_id : Value → Fields → IpcClient → IpcClient × List IpcEffect
answer_id (str id) fs s = answer_key (key_of id s.pending) fs s
answer_id id fs s = (s, [])

abbrev pub returning : Bool → IpcClient × List IpcEffect → Bool × IpcClient × List IpcEffect
returning b (s, effects) = (b, s, effects)

-- `#dispatch` of a frame: whether it returned, or threw because `null` has no property.
abbrev pub dispatch_value : Option Value → IpcClient → Bool × IpcClient × List IpcEffect
dispatch_value none s = returning true (fail_all protocol s)
dispatch_value (some null) s = (false, s, uncaught ∷ [])
dispatch_value (some (obj fs)) s = returning true (answer_id (get (codes "id") (obj fs)) fs s)
dispatch_value (some v) s = (true, s, [])

abbrev pub write_frame : Waiting → Ticket → Option Bytes → IpcClient → IpcClient × List IpcEffect
write_frame w ticket none s = reject w.call frame s
write_frame w ticket (some bytes) s =
    (record s { writes = s.writes ++ (ticket ∷ []) }, sent w.connection bytes ∷ [])

abbrev pub tear : Option ℕ → IpcClient → IpcClient × List IpcEffect
tear none s = (s, [])
tear (some c) s = (record s { destroyed = c ∷ s.destroyed }, tearing c ∷ [])

-- The timer's callback deletes the entry of its id, and the callback of a failed write the entry and
-- its timer.
abbrev pub on_timed_out : ℕ → Option ℕ → IpcClient → IpcClient × List IpcEffect
on_timed_out n none s = (s, [])
on_timed_out n (some k) s =
    reject n timeout (record s { timers = drop_call n s.timers; pending = drop_key k s.pending })

abbrev pub fail_write : ℕ → Option ℕ → ℕ → IpcClient → IpcClient × List IpcEffect
fail_write n none k s = reject n connect_failed s
fail_write n (some m) k s =
    reject n connect_failed
      (record s { pending = drop_key k s.pending; timers = drop_call m s.timers })

abbrev pub on_write_failed : ℕ → Option ℕ → IpcClient → IpcClient × List IpcEffect
on_write_failed n none s = (s, [])
on_write_failed n (some k) s =
    fail_write n (call_at k s.pending) k (record s { writes = drop_call n s.writes })

abbrev pub end_socket : Option ℕ → IpcClient → IpcClient × List IpcEffect
end_socket none s = (s, [])
end_socket (some c) s =
    if mem c s.destroyed then (s, []) else (record s { destroyed = c ∷ s.destroyed }, ending c ∷ [])

-- `close`.
unfoldable pub close : IpcClient → IpcClient × List IpcEffect
unfolding fail_all
close s = then_do (fail_all closed s) (λ s'. end_socket s'.socket (record s' { socket = none }))
