-- ===== src/Toolbelt/Ipc/Table.antt =====
-- packages/toolbelt/src/ipc/client.ts: a client's state, what happens to it, and its table of pending
-- calls.
use mx_loom.Common.{
  ℕ, ◌==◌, Bool, false, ◌||◌, Option, none, some, List, [], ◌∷◌, ◌++◌, if◌then◌else◌,
}
use mx_loom.Text.{Text, eq_text}
use mx_loom.Json.{Value}
use mx_loom.Toolbelt.Transport.{TransportErrorCode, transport_error, Outcome, rejected}
use mx_loom.Toolbelt.Framing.{Bytes}
use mx_loom.Toolbelt.Ipc.Ids.{id_text}

-- A call that awaits its connection.
pub record Waiting : Type 0 where
  pub call : ℕ
  pub connection : ℕ
  pub method : Text
  pub params : Value

-- A call that was written: its number and the counter that its id was made from. Different counters
-- have different ids, so the map of pending calls, the timers and the callbacks of the writes go by
-- the counter.
pub record Ticket : Type 0 where
  pub call : ℕ
  pub key : ℕ

-- Calls and connections are numbered as they are made. `open_calls` are the calls whose promise has
-- not settled, and `destroyed` the connections that were torn down.
pub record IpcClient : Type 0 where
  pub counter : ℕ
  pub next_call : ℕ
  pub next_connection : ℕ
  pub socket : Option ℕ
  pub connecting : Option ℕ
  pub destroyed : List ℕ
  pub buffer : Bytes
  pub waiting : List Waiting
  pub pending : List Ticket
  pub timers : List Ticket
  pub writes : List Ticket
  pub open_calls : List ℕ

pub data IpcEffect : Type 0 where
  opening : ℕ → IpcEffect
  sent : ℕ → Bytes → IpcEffect
  ending : ℕ → IpcEffect
  tearing : ℕ → IpcEffect
  settled : ℕ → Outcome Value → IpcEffect
  uncaught : IpcEffect

-- `started` is the continuation of a call whose connection is there; the numbers are those of calls
-- or of connections. `elsewhere` is a call that another client writes: all clients of the process
-- share the counter.
pub data IpcEvent : Type 0 where
  requested : Text → Value → IpcEvent
  connected : IpcEvent
  refused : Bool → IpcEvent
  started : ℕ → IpcEvent
  received : Bytes → IpcEvent
  errored : IpcEvent
  torn_down : ℕ → IpcEvent
  hung_up : IpcEvent
  timed_out : ℕ → IpcEvent
  write_failed : ℕ → IpcEvent
  written : ℕ → IpcEvent
  closing : IpcEvent
  elsewhere : IpcEvent

abbrev pub mem : ℕ → List ℕ → Bool
mem n [] = false
mem n (m ∷ ms) = n == m || mem n ms

abbrev pub without : ℕ → List ℕ → List ℕ
without n [] = []
without n (m ∷ ms) = let rest = without n ms in if n == m then rest else m ∷ rest

abbrev pub calls_of : List Ticket → List ℕ
calls_of [] = []
calls_of (t ∷ ts) = t.call ∷ calls_of ts

abbrev pub waiting_calls : List Waiting → List ℕ
waiting_calls [] = []
waiting_calls (w ∷ ws) = w.call ∷ waiting_calls ws

abbrev pub drop_call : ℕ → List Ticket → List Ticket
drop_call n [] = []
drop_call n (t ∷ ts) = let rest = drop_call n ts in if n == t.call then rest else t ∷ rest

-- `pending.delete(id)`.
abbrev pub drop_key : ℕ → List Ticket → List Ticket
drop_key k [] = []
drop_key k (t ∷ ts) = let rest = drop_key k ts in if k == t.key then rest else t ∷ rest

-- `pending.get(id)`: the call of the entry.
abbrev pub call_at : ℕ → List Ticket → Option ℕ
call_at k [] = none
call_at k (t ∷ ts) = let rest = call_at k ts in if k == t.key then some t.call else rest

-- `pending.set(id, …)`, which keeps the place of a key that is there.
abbrev pub put : Ticket → List Ticket → List Ticket
put t [] = t ∷ []
put t (u ∷ us) = let rest = put t us in if t.key == u.key then t ∷ us else u ∷ rest

-- The key of the pending call whose id is the text.
unfoldable pub key_of : Text → List Ticket → Option ℕ
key_of id [] = none
key_of id (t ∷ ts) =
    let rest = key_of id ts in if eq_text id (id_text t.key) then some t.key else rest

-- The key of a call's ticket.
abbrev pub key_at : ℕ → List Ticket → Option ℕ
key_at n [] = none
key_at n (t ∷ ts) = let rest = key_at n ts in if n == t.call then some t.key else rest

-- A promise settles at most once.
unfoldable pub settle : ℕ → Outcome Value → IpcClient → IpcClient × List IpcEffect
settle n outcome s =
    if mem n s.open_calls
    then (record s { open_calls = without n s.open_calls }, settled n outcome ∷ [])
    else (s, [])

abbrev pub reject : ℕ → TransportErrorCode → IpcClient → IpcClient × List IpcEffect
reject n code s = settle n (rejected (transport_error code)) s

-- `clearTimeout`, and the settling of the entry's call.
abbrev pub finish : ℕ → Outcome Value → IpcClient → IpcClient × List IpcEffect
finish n outcome s = settle n outcome (record s { timers = drop_call n s.timers })

abbrev pub then_do :
    IpcClient × List IpcEffect
    → (IpcClient → IpcClient × List IpcEffect)
    → IpcClient × List IpcEffect
then_do (s, effects) next = let (s', later) = next s in (s', effects ++ later)

unfoldable pub fail_entries :
    TransportErrorCode → List Ticket → IpcClient → IpcClient × List IpcEffect
fail_entries code [] s = (s, [])
fail_entries code (t ∷ ts) s =
    then_do (finish t.call (rejected (transport_error code)) s) (fail_entries code ts)

-- `#failAll`.
unfoldable pub fail_all : TransportErrorCode → IpcClient → IpcClient × List IpcEffect
unfolding fail_entries settle
fail_all code s = then_do (fail_entries code s.pending s) (λ s'. (record s' { pending = [] }, []))
