-- ===== src/Tests/Calls.antt =====
-- Runs of packages/toolbelt/src/ipc/client.ts at single inputs, and the theorems applied.
use mx_loom.Common.{◌≡◌, refl, arith, ◌&&◌, not, some, List, [], ◌∷◌, ℕ}
use mx_loom.Text.{codes, eq_text}
use mx_loom.Json.{undefined, null, str, Fields, field, end, get}
use mx_loom.Toolbelt.Transport.{closed}
use mx_loom.Toolbelt.Framing.{Utf8, encode_frame, write_uint32_be, push, decode_loop}
use mx_loom.Toolbelt.Descriptor.{JsonCodec}
use mx_loom.Toolbelt.Ipc.Table.{
  IpcClient, IpcEvent, requested, connected, started, received, hung_up, uncaught, mem, calls_of,
  settle,
}
use mx_loom.Toolbelt.Ipc.Handle.{request, request_body}
use mx_loom.Toolbelt.Ipc.Steps.{run, step, new_client, start, dispatch_all}
use mx_loom.Toolbelt.Ipc.Ids.{next_counter, base36, id_text, counter_after, ids_differ}
use mx_loom.Toolbelt.Ipc.Outage.{rejections, settlements, outage_settles}

abbrev ascii : Utf8
ascii = record { encode = λ s. s; decode = λ s. s }

-- A codec that writes `{}` and reads `null`.
abbrev codec : JsonCodec
codec = record { stringify = λ v. codes "{}"; parse = λ t. some null }

abbrev one_call : List IpcEvent
one_call =
    requested (codes "task.list") undefined
    ∷ connected
    ∷ started 0
    ∷ requested (codes "daemon.ping") undefined
    ∷ []

abbrev in_flight : IpcClient
in_flight = (run ascii codec (new_client 7) one_call).0

-- The frame `null` makes the listener throw, and the call stays open.
null_frame_uncaught :
    (step ascii codec in_flight (received (0 ∷ 0 ∷ 0 ∷ 1 ∷ b'n' ∷ []))).1 ≡ uncaught ∷ []
unfolding run step new_client request start settle encode_frame write_uint32_be push decode_loop
    dispatch_all id_text base36 next_counter codes request_body get eq_text
null_frame_uncaught = refl

-- { id: "mxl-8", result: null }
abbrev answer_fields : Fields
answer_fields = field (codes "id") (str (id_text 8)) (field (codes "result") null end)

outage_settles_example :
    let (s', effects) = step ascii codec in_flight hung_up in
    (s'.pending ≡ [])
    × (mem 1 s'.open_calls
        ≡ (mem 1 in_flight.open_calls && not (mem 1 (calls_of in_flight.pending))))
    × (settlements effects ≡ rejections closed (calls_of in_flight.pending) in_flight.open_calls)
outage_settles_example = outage_settles ascii codec in_flight hung_up closed 1 refl

ids_wrap : id_text (counter_after 2 4294967294) ≡ codes "mxl-0"
unfolding id_text base36 next_counter codes
ids_wrap = refl

abbrev two : ℕ
two = 2

ids_differ_example : two ≡ 2
ids_differ_example = ids_differ 4294967294 2 2 (omega arith) (omega arith) (omega arith) refl
