-- ===== src/Tasks/Edges.antt =====
-- The edges of the plan: `projectTaskEdge`, `deriveEdges` and `mergeEdges` of
-- packages/registry/src/handlers/task-projection.ts.
pub mod Laws
pub mod Exact
pub mod Merge
use mx_loom.Common.{
  ℕ, Bool, true, false, ◌||◌, Option, none, some, List, [], ◌∷◌, ◌++◌, map, any, ◌or_else◌,
  if◌then◌else◌,
}
use mx_loom.Text.{Text, codes, eq_text, is_empty}
use mx_loom.Json.{Value, get, as_record, as_array, read_string}
use mx_loom.Tasks.Node.{TaskNode}

pub data EdgeKind : Type 0 where
  depends_on blocks : EdgeKind

pub record TaskEdge : Type 0 where
  pub from : Text
  pub to : Text
  pub kind : EdgeKind

abbrev pub edge_kind : Option Text → EdgeKind
edge_kind none = depends_on
edge_kind (some k) = if eq_text k (codes "blocks") then blocks else depends_on

abbrev edge_between : Option Text → Option Text → EdgeKind → Option TaskEdge
edge_between (some from) (some to) kind =
    if is_empty from || is_empty to
    then none
    else some (record { from = from; to = to; kind = kind })
edge_between from to kind = none

abbrev edge_of_record : Option Value → Option TaskEdge
edge_of_record none = none
edge_of_record (some e) =
    edge_between
      (read_string (get (codes "from") e)
        or_else read_string (get (codes "source") e)
        or_else read_string (get (codes "task_id") e))
      (read_string (get (codes "to") e)
        or_else read_string (get (codes "target") e)
        or_else read_string (get (codes "depends_on") e))
      (edge_kind (read_string (get (codes "kind") e)))

unfoldable pub project_task_edge : Value → Option TaskEdge
project_task_edge raw = edge_of_record (as_record raw)

unfoldable pub kind_text : EdgeKind → Text
kind_text depends_on = codes "depends_on"
kind_text blocks = codes "blocks"

-- `out` and `seen` of the loops.
pub record Edges : Type 0 where
  pub out : List TaskEdge
  pub seen : List Text

abbrev pub no_edges : Edges
no_edges = record { out = []; seen = [] }

abbrev pub has_key : Text → List Text → Bool
has_key key seen = any (eq_text key) seen

-- The loops, over the character that separates the parts of a key: NUL here, and a space in
-- packages/toolbelt/src/plan-snapshot.ts.
module _ (sep : ℕ) where
  unfoldable pub edge_key : TaskEdge → Text
  edge_key e = kind_text e.kind ++ (sep ∷ (e.from ++ (sep ∷ e.to)))

  -- `if (seen.has(key)) …; seen.add(key); out.push(edge)`.
  unfoldable pub add_edge : Edges → TaskEdge → Edges
  add_edge s e =
      if has_key (edge_key e) s.seen
      then s
      else record { out = s.out ++ (e ∷ []); seen = edge_key e ∷ s.seen }

  -- `push` of `deriveEdges`.
  unfoldable pub push_edge : Edges → TaskEdge → Edges
  unfolding add_edge
  push_edge s e = if is_empty e.from || is_empty e.to then s else add_edge s e

  unfoldable pub push_all : Edges → List TaskEdge → Edges
  push_all s [] = s
  push_all s (e ∷ es) = push_all (push_edge s e) es

  -- One round for each node, over the edges that the node names.
  unfoldable pub derive_from : Edges → List (List TaskEdge) → Edges
  derive_from s [] = s
  derive_from s (es ∷ rounds) = derive_from (push_all s es) rounds

abbrev pub dependency_edge : Text → Text → TaskEdge
dependency_edge id dep = record { from = id; to = dep; kind = depends_on }

abbrev pub blocking_edge : Text → Text → TaskEdge
blocking_edge id blocked = record { from = id; to = blocked; kind = blocks }

-- The edges that a node's two lists name, in order.
abbrev pub edges_of : Text → List Text → List Text → List TaskEdge
edges_of id deps blocked = map (dependency_edge id) deps ++ map (blocking_edge id) blocked

abbrev pub node_edges : TaskNode → List TaskEdge
node_edges node = edges_of node.task_id node.depends_on node.blocks

unfoldable pub derive_edges : List TaskNode → List TaskEdge
derive_edges nodes = (derive_from 0 no_edges (map node_edges nodes)).out

abbrev pub merge_one : Edges → Option TaskEdge → Edges
merge_one s none = s
merge_one s (some e) = add_edge 0 s e

unfoldable pub merge_all : Edges → List Value → Edges
merge_all s [] = s
merge_all s (raw ∷ raws) = merge_all (merge_one s (project_task_edge raw)) raws

abbrev pub merge_rows : List TaskEdge → Option (List Value) → List TaskEdge
merge_rows derived none = derived
merge_rows derived (some raws) =
    (merge_all (record { out = derived; seen = map (edge_key 0) derived }) raws).out

unfoldable pub merge_edges : List TaskEdge → Value → List TaskEdge
merge_edges derived raw_edges = merge_rows derived (as_array raw_edges)
