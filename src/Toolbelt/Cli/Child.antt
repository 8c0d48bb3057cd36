-- ===== src/Toolbelt/Cli/Child.antt =====
-- packages/toolbelt/src/cli/client.ts: the child process and what its end is read as. What happens to
-- the child is an event, and one event is handled at a time.
use mx_loom.Common.{
  ℕ, ◌+◌, ◌==◌, Bool, true, false, ◌||◌, Option, none, some, List, [], ◌∷◌, ◌++◌, length, ltb,
  if◌then◌else◌,
}
use mx_loom.Text.{Text, codes, is_empty}
use mx_loom.Json.{Value, num, str, obj, get, has_own}
use mx_loom.Toolbelt.Transport.{
  not_running, connect_failed, timeout, protocol, rpc, transport_error, Outcome, resolved, rejected,
}
use mx_loom.Toolbelt.Framing.{Bytes, max_frame_bytes}

-- `String.prototype.trim`, `JSON.parse` and the decoding of UTF-8, which the runtime provides.
pub record Reader : Type 0 where
  pub trim : Text → Text
  pub parse : Text → Option Value
  pub decode : Bytes → Text

-- `none` is `undefined`.
unfoldable pub try_parse_json : Reader → Text → Option Value
try_parse_json r text = if is_empty (r.trim text) then none else r.parse (r.trim text)

abbrev pub is_error_body : Value → Value → Bool
is_error_body (num code) (str message) = true
is_error_body code message = false

-- An object with an `error` that has a numeric `code` and a `message`.
unfoldable pub is_rpc_error : Option Value → Bool
is_rpc_error none = false
is_rpc_error (some v) =
    is_error_body (get (codes "code") (get (codes "error") v))
      (get (codes "message") (get (codes "error") v))

unfoldable pub unwrap_result : Value → Value
unwrap_result (obj fs) =
    if has_own (codes "result") fs then get (codes "result") (obj fs) else obj fs
unwrap_result v = v

abbrev pub result_of : Option Value → Outcome Value
result_of none = rejected (transport_error protocol)
result_of (some v) = resolved (unwrap_result v)

abbrev pub is_zero : Option ℕ → Bool
is_zero none = false
is_zero (some code) = code == 0

-- The exit code is `none` where a signal ended the child.
unfoldable pub normalize_exit : Reader → Option ℕ → Text → Text → Outcome Value
unfolding try_parse_json is_rpc_error
normalize_exit r code stdout stderr =
    if is_rpc_error (try_parse_json r stdout) || is_rpc_error (try_parse_json r stderr)
    then rejected (transport_error rpc)
    else if is_zero code
    then result_of (try_parse_json r stdout)
    else rejected (transport_error protocol)

-- `len` counts also what was not kept.
pub record Capture : Type 0 where
  pub chunks : Bytes
  pub len : ℕ

pub record ChildState : Type 0 where
  pub settled : Bool
  pub overflow : Bool
  pub out : Capture
  pub err : Capture

pub data ChildEvent : Type 0 where
  out_data : Bytes → ChildEvent
  err_data : Bytes → ChildEvent
  spawn_failed : Bool → ChildEvent
  timed_out : ChildEvent
  exited : Option ℕ → ChildEvent

pub data ChildEffect : Type 0 where
  killed : ChildEffect
  call_settled : Outcome Value → ChildEffect

-- `settle`.
unfoldable pub settle : Outcome Value → ChildState → ChildState × List ChildEffect
settle outcome s =
    if s.settled then (s, []) else (record s { settled = true }, call_settled outcome ∷ [])

unfoldable pub is_over_limit : Capture → Bytes → Bool
is_over_limit c chunk = ltb max_frame_bytes (c.len + length chunk)

-- `capture`, which adds to the length even where it drops the chunk.
unfoldable pub capture : Capture → Bytes → Capture
unfolding is_over_limit
capture c chunk = record {
  chunks = if is_over_limit c chunk then c.chunks else c.chunks ++ chunk;
  len = c.len + length chunk;
}

abbrev pub kill_if : Bool → List ChildEffect
kill_if true = killed ∷ []
kill_if false = []

-- The timer is cleared once the call has settled; before, its callback kills the child first.
abbrev pub killed_before : Bool → List ChildEffect → List ChildEffect
killed_before true effects = effects
killed_before false effects = killed ∷ effects

abbrev pub exit_outcome : Reader → Option ℕ → ChildState → Outcome Value
exit_outcome r code s =
    if s.overflow
    then rejected (transport_error protocol)
    else normalize_exit r code (r.decode s.out.chunks) (r.decode s.err.chunks)

-- A `close` comes once the streams are read.
unfoldable pub step : Reader → ChildState → ChildEvent → ChildState × List ChildEffect
unfolding capture is_over_limit
step r s (out_data chunk) = (
  record s { overflow = s.overflow || is_over_limit s.out chunk; out = capture s.out chunk },
  kill_if (is_over_limit s.out chunk),
)
step r s (err_data chunk) = (
  record s { overflow = s.overflow || is_over_limit s.err chunk; err = capture s.err chunk },
  kill_if (is_over_limit s.err chunk),
)
step r s (spawn_failed absent) =
    settle (rejected (transport_error (if absent then not_running else connect_failed))) s
step r s timed_out =
    let (s', effects) = settle (rejected (transport_error timeout)) s in
    (s', killed_before s.settled effects)
step r s (exited code) = settle (exit_outcome r code s) s

unfoldable pub run : Reader → ChildState → List ChildEvent → ChildState × List ChildEffect
run r s [] = (s, [])
run r s (event ∷ events) =
    let (s1, effects) = step r s event in
    let (s2, later) = run r s1 events in (s2, effects ++ later)

abbrev pub no_capture : Capture
no_capture = record { chunks = []; len = 0 }

abbrev pub new_child : ChildState
new_child = record { settled = false; overflow = false; out = no_capture; err = no_capture }
