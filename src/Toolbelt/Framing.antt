-- ===== src/Toolbelt/Framing.antt =====
-- packages/toolbelt/src/ipc/framing.ts: frames of a 4-byte big-endian length and a UTF-8 payload,
-- and the incremental decoder.
pub mod Laws
pub mod RoundTrip
use mx_loom.Common.{
  ℕ, zero, suc, ◌+◌, ◌*◌, ◌/◌, ◌%◌, Option, none, some, List, [], ◌∷◌, ◌++◌, length, take, drop,
  ltb, if◌then◌else◌,
}
use mx_loom.Text.{Text}

abbrev pub Bytes : Type 0
Bytes = List ℕ

abbrev pub header_bytes : ℕ
header_bytes = 4

abbrev pub max_frame_bytes : ℕ
max_frame_bytes = 16 * 1024 * 1024

-- `Buffer.from(s, 'utf8')` and `buf.toString('utf8')`, which the runtime provides.
pub record Utf8 : Type 0 where
  pub encode : Text → Bytes
  pub decode : Bytes → Text

unfoldable pub write_uint32_be : ℕ → Bytes
write_uint32_be n = (n / 16777216 % 256) ∷ (n / 65536 % 256) ∷ (n / 256 % 256) ∷ (n % 256) ∷ []

abbrev pub uint32_be : ℕ → ℕ → ℕ → ℕ → ℕ
uint32_be a b c d = a * 16777216 + b * 65536 + c * 256 + d

-- What `push` leaves: the payloads and the bytes that wait, or the throw with the bytes that wait
-- then; `out_of_fuel` is no outcome of the code.
pub data Pushed : Type 0 where
  decoded : List Text → Bytes → Pushed
  oversized : ℕ → Bytes → Pushed
  out_of_fuel : Pushed

abbrev pub prepend : Text → Pushed → Pushed
prepend p (decoded ps buf) = decoded (p ∷ ps) buf
prepend p (oversized len buf) = oversized len buf
prepend p out_of_fuel = out_of_fuel

abbrev pub prepend_all : List Text → Pushed → Pushed
prepend_all qs (decoded ps buf) = decoded (qs ++ ps) buf
prepend_all qs (oversized len buf) = oversized len buf
prepend_all qs out_of_fuel = out_of_fuel

-- What a push returns goes to its caller; after one that throws there is no next.
abbrev pub and_then : Pushed → (Bytes → List Text × Pushed) → List Text × Pushed
and_then (decoded ps buf) next = let (qs, last) = next buf in (ps ++ qs, last)
and_then (oversized len buf) next = ([], oversized len buf)
and_then out_of_fuel next = ([], out_of_fuel)

abbrev pub joined : Option Bytes → Option Bytes → Option Bytes
joined (some frame) (some stream) = some (frame ++ stream)
joined frame stream = none

module _ (utf8 : Utf8) where
  -- `none` is the throw of `IpcError('frame')`.
  unfoldable pub encode_frame : Text → Option Bytes
  encode_frame payload =
      let body = utf8.encode payload in
      if ltb max_frame_bytes (length body)
      then none
      else some (write_uint32_be (length body) ++ body)

  -- The stream that a run of `encodeFrame` calls writes, where none of them throws.
  unfoldable pub encode_all : List Text → Option Bytes
  encode_all [] = some []
  encode_all (p ∷ ps) = joined (encode_frame p) (encode_all ps)

  -- One round of the loop on a buffer with a whole header, before `body`; `rest` is what the rounds
  -- after it leave.
  abbrev pub frame_step : Bytes → ℕ → Bytes → Pushed → Pushed
  frame_step buf len body rest =
      if ltb max_frame_bytes len
      then oversized len buf
      else if ltb (length body) len
      then decoded [] buf
      else prepend (utf8.decode (take len body)) rest

  -- The `for (;;)` of `push`, on fuel.
  unfoldable pub decode_loop : ℕ → Bytes → Pushed
  decode_loop zero buf = out_of_fuel
  decode_loop (suc fuel) (a ∷ b ∷ c ∷ d ∷ body) =
      let len = uint32_be a b c d in
      let rest = decode_loop fuel (drop len body) in frame_step (a ∷ b ∷ c ∷ d ∷ body) len body rest
  decode_loop (suc fuel) buf = decoded [] buf

  -- `push(chunk)` on a decoder that holds `buf`. Each round takes a header off, so the length of the
  -- buffer bounds the rounds.
  unfoldable pub push : Bytes → Bytes → Pushed
  push buf chunk = decode_loop (suc (length (buf ++ chunk))) (buf ++ chunk)

  -- A run of chunks through one decoder, up to the first throw: the payloads that the pushes
  -- returned, in order, and the throw, or the bytes that wait.
  unfoldable pub push_chunks : Bytes → List Bytes → List Text × Pushed
  push_chunks buf [] = ([], decoded [] buf)
  push_chunks buf (chunk ∷ chunks) = and_then (push buf chunk) (λ buf'. push_chunks buf' chunks)
