-- ===== src/Tests/Contexts.antt =====
-- A run of packages/registry/src/handlers/share-context.ts and get-context.ts at one input, and the
-- theorem applied.
use mx_loom.Common.{none, some, []}
use mx_loom.Text.{codes}
use mx_loom.Json.{Value, str, obj, field, end}
use mx_loom.Daemon.{resolved, Deps}
use mx_loom.Tasks.Handlers.{usable_room}
use mx_loom.Context.{ShareContextInput, mx_share_context, GetContextInput, mx_get_context}
use mx_loom.Context.Laws.{SharesIn, GetsIn, Told, contexts-Pass}
use mx_loom.Tests.Handlers.{slept_for}

-- { context_id: "c1", sha256: "ab" }
abbrev stored : Value
stored =
    obj (
      field (codes "context_id") (str (codes "c1")) (field (codes "sha256") (str (codes "ab")) end))

abbrev deps : Deps
deps = record {
  env = record {
    answer = λ h method params. resolved stored;
    clock = slept_for;
    fresh_key = λ h. codes "k";
  };
  room = some (codes "!r");
  poll_interval_ms = none;
}

-- A kind that is no kind of the type, and that the lookup finds all the same.
abbrev patch : ShareContextInput
patch = record {
  kind = codes "toString";
  path = some (codes "a.patch");
  content = some (codes "+x");
  encoding = none;
}

abbrev stored_id : GetContextInput
stored_id = record { context_id = codes "c1" }

contexts-Pass_example :
    SharesIn
      (usable_room deps.room)
      (λ name. name)
      patch
      deps.env
      []
      (mx_share_context (λ name. name) patch deps [])
    × GetsIn (usable_room deps.room) stored_id deps.env [] (mx_get_context stored_id deps [])
    × ((o : Value) → Told o)
contexts-Pass_example = contexts-Pass (λ name. name) deps [] patch stored_id
