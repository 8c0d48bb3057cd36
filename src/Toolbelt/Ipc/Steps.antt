-- ===== src/Toolbelt/Ipc/Steps.antt =====
-- packages/toolbelt/src/ipc/client.ts: one event is handled at a time.
use mx_loom.Common.{ℕ, Option, none, some, List, [], ◌∷◌, ◌++◌, if◌then◌else◌}
use mx_loom.Text.{Text}
use mx_loom.Toolbelt.Transport.{connect_failed, closed, frame}
use mx_loom.Toolbelt.Framing.{Utf8, Pushed, decoded, oversized, out_of_fuel, encode_frame, push}
use mx_loom.Toolbelt.Descriptor.{JsonCodec}
use mx_loom.Toolbelt.Ipc.Ids.{next_counter, id_text}
use mx_loom.Toolbelt.Ipc.Table.{
  Waiting, Ticket, IpcClient, IpcEffect, IpcEvent, drop_call, put, key_at, settle, then_do,
  fail_all, requested, connected, refused, started, received, errored, torn_down, hung_up,
  timed_out, write_failed, written, closing, elsewhere,
}
use mx_loom.Toolbelt.Ipc.Handle.{
  request, request_body, refusal, on_refused, on_connected, is_connecting, find_waiting,
  drop_waiting, dispatch_value, write_frame, tear, on_timed_out, on_write_failed, close,
}

module _ (utf8 : Utf8) (codec : JsonCodec) where
  -- A call whose connection is there is given an id, a timer and an entry, and is written. A frame
  -- that cannot be encoded throws out of the promise's executor, which rejects, and the entry stays.
  unfoldable pub start : Waiting → IpcClient → IpcClient × List IpcEffect
  unfolding settle
  start w s =
      let key = next_counter s.counter in
      let ticket : Ticket = record { call = w.call; key = key } in
      let s' : IpcClient = record s {
        counter = key;
        waiting = drop_waiting w.call s.waiting;
        timers = s.timers ++ (ticket ∷ []);
        pending = put ticket s.pending;
      } in
      write_frame w ticket
        (encode_frame utf8 (codec.stringify (request_body (id_text key) w.method w.params))) s'

  abbrev pub start_found : Option Waiting → IpcClient → IpcClient × List IpcEffect
  start_found none s = (s, [])
  start_found (some w) s = if is_connecting s.connecting w.connection then (s, []) else start w s

  unfoldable pub dispatch_all : List Text → IpcClient → IpcClient × List IpcEffect
  dispatch_all [] s = (s, [])
  dispatch_all (text ∷ texts) s =
      let (returned, s', effects) = dispatch_value (codec.parse text) s in
      let rest = then_do (s', effects) (dispatch_all texts) in
      if returned then rest else (s', effects)

  -- `#onData`.
  abbrev pub on_pushed : Pushed → IpcClient → IpcClient × List IpcEffect
  on_pushed (decoded texts buffer) s = dispatch_all texts (record s { buffer = buffer })
  on_pushed (oversized length buffer) s =
      then_do (fail_all frame (record s { buffer = buffer })) (λ s'. tear s'.socket s')
  on_pushed out_of_fuel s = (s, [])

  unfoldable pub step : IpcClient → IpcEvent → IpcClient × List IpcEffect
  unfolding request start fail_all close push
  step s (requested method params) = request method params s
  step s connected = on_connected s.connecting s
  step s (refused absent) = on_refused (refusal absent) s.connecting s
  step s (started n) = start_found (find_waiting n s.waiting) s
  step s (received chunk) = on_pushed (push utf8 s.buffer chunk) s
  step s errored = fail_all connect_failed s
  step s (torn_down c) = (record s { destroyed = c ∷ s.destroyed }, [])
  step s hung_up = fail_all closed (record s { socket = none })
  step s (timed_out n) = on_timed_out n (key_at n s.timers) s
  step s (write_failed n) = on_write_failed n (key_at n s.writes) s
  step s (written n) = (record s { writes = drop_call n s.writes }, [])
  step s closing = close s
  step s elsewhere = (record s { counter = next_counter s.counter }, [])

  unfoldable pub run : IpcClient → List IpcEvent → IpcClient × List IpcEffect
  run s [] = (s, [])
  run s (event ∷ events) = then_do (step s event) (λ s'. run s' events)

unfoldable pub new_client : ℕ → IpcClient
new_client counter = record {
  counter = counter;
  next_call = 0;
  next_connection = 0;
  socket = none;
  connecting = none;
  destroyed = [];
  buffer = [];
  waiting = [];
  pending = [];
  timers = [];
  writes = [];
  open_calls = [];
}
