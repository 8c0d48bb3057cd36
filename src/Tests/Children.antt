-- ===== src/Tests/Children.antt =====
-- Runs of packages/toolbelt/src/cli at single inputs, and the theorems applied.
use mx_loom.Common.{
  bit, ◌≡◌, ◌≤◌, refl, any, Option, none, some, List, [], ◌∷◌, length, if◌then◌else◌,
}
use mx_loom.Text.{Text, codes, eq_text}
use mx_loom.Json.{str, obj, end}
use mx_loom.Toolbelt.Guards.{no_credential, starts_with}
use mx_loom.Toolbelt.Framing.{max_frame_bytes}
use mx_loom.Toolbelt.Cli.Request.{
  is_denied_env_key, ends_with, safe_subprocess_env, copy_env, method_to_argv, split_dots,
  SpawnRequest, CliClient, spawn_request,
}
use mx_loom.Toolbelt.Cli.Clean.{CleanSpawn, spawn_request-CleanSpawn}
use mx_loom.Toolbelt.Cli.Child.{
  Reader, ChildEvent, out_data, err_data, timed_out, exited, call_settled, step, run, new_child,
}
use mx_loom.Toolbelt.Cli.Ends.{settlements, ends, call_settles_bounded}
use mx_loom.Toolbelt.Cli.Exit.{out_of, err_of, outcome_of, exit_settles_whole}

-- Upper case on ASCII letters, which the tests' names consist of, is not needed: they have it.
abbrev parent : Text → Option Text
parent key =
    if eq_text key (codes "GH_TOKEN")
    then some (codes "s")
    else if eq_text key (codes "HOME")
    then some (codes "/root")
    else none

abbrev client : CliClient
client = record {
  upper = λ s. s;
  codec = record { stringify = λ v. codes "{}"; parse = λ t. none };
  env = parent;
  extra_env_allow = codes "GH_TOKEN" ∷ [];
}

abbrev request : SpawnRequest
request = record {
  plan = record {
    argv = codes "agent" ∷ codes "list" ∷ codes "--json" ∷ codes "--input-json" ∷ codes "-" ∷ [];
    stdin = some (codes "{}");
  };
  env = (codes "HOME", codes "/root") ∷ [];
}

is_requested : spawn_request client (codes "agent.list") (obj end) ≡ some request
unfolding spawn_request method_to_argv split_dots safe_subprocess_env copy_env is_denied_env_key
    ends_with starts_with eq_text codes no_credential
is_requested = refl

spawn_request-CleanSpawn_example :
    CleanSpawn client
      (codes "agent.list")
      (obj end)
      (str (codes "other"))
      (codes "GH_TOKEN")
      request
spawn_request-CleanSpawn_example =
    spawn_request-CleanSpawn client (codes "agent.list") (obj end) (str (codes "other"))
      (codes "GH_TOKEN") request is_requested refl

abbrev reader : Reader
reader = record { trim = λ s. s; parse = λ t. some (str t); decode = λ s. s }

abbrev life : List ChildEvent
life = out_data (b'4' ∷ []) ∷ exited (some 0) ∷ timed_out ∷ []

call_settles_bounded_example :
    let (s, effects) = run reader new_child life in
    (settlements effects ≡ bit (any ends life))
    × (length s.out.chunks ≤ max_frame_bytes)
    × (length s.err.chunks ≤ max_frame_bytes)
call_settles_bounded_example = call_settles_bounded reader life

abbrev writes : List ChildEvent
writes = out_data (b'4' ∷ []) ∷ err_data (b'w' ∷ []) ∷ out_data (b'2' ∷ []) ∷ []

exit_settles_whole_example :
    (step reader (run reader new_child writes).0 (exited (some 0))).1
    ≡ call_settled (outcome_of reader (some 0) (out_of writes) (err_of writes)) ∷ []
exit_settles_whole_example = exit_settles_whole reader writes (some 0) refl
