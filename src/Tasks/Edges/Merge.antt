-- ===== src/Tasks/Edges/Merge.antt =====
-- Merging the explicit edges keeps the derived ones and repeats no key.
use mx_loom.Common.{
  ◌≡◌, refl, sym, ap, ◌∙◌, true, Option, none, some, List, [], ◌∷◌, ◌++◌, Bool-cases, inl, inr,
}
use mathlib.Core.List.{append-nil, append_assoc}
use mx_loom.Json.{Value, as_array}
use mx_loom.Tasks.Edges.{
  TaskEdge, Edges, edge_key, has_key, add_edge, project_task_edge, merge_one, merge_all, merge_rows,
  merge_edges,
}
use mx_loom.Tasks.Edges.Laws.{keys, distinct, IsTracked, add_edge-IsTracked}

-- More edges behind those that are there.
abbrev pub Adds : List TaskEdge → List TaskEdge → Type 0
Adds before after = (more : List TaskEdge) × (after ≡ before ++ more)

Adds-refl : (es : List TaskEdge) → Adds es es
Adds-refl es = ([], sym (append-nil es))

Adds-trans : (a : List TaskEdge) {b c : List TaskEdge} → Adds a b → Adds b c → Adds a c
Adds-trans a (xs, p) (ys, q) = (xs ++ ys, q ∙ ap (λ t. t ++ ys) p ∙ append_assoc a xs ys)

add_edge-Adds : (s : Edges) (e : TaskEdge) → Adds s.out (add_edge 0 s e).out
unfolding add_edge
add_edge-Adds s e = elim (Bool-cases (has_key (edge_key 0 e) s.seen)) [
  | inl old ↦ rw old (Adds-refl s.out)
  | inr new ↦ rw new (e ∷ [], refl)
]

merge_one-Adds : (s : Edges) (o : Option TaskEdge) → Adds s.out (merge_one s o).out
merge_one-Adds s none = Adds-refl s.out
merge_one-Adds s (some e) = add_edge-Adds s e

merge_one-IsTracked :
    (s : Edges) (o : Option TaskEdge) → IsTracked 0 s → IsTracked 0 (merge_one s o)
merge_one-IsTracked s none tracked = tracked
merge_one-IsTracked s (some e) tracked = add_edge-IsTracked 0 tracked e

merge_all-Adds : (raws : List Value) (s : Edges) → Adds s.out (merge_all s raws).out
unfolding merge_all
merge_all-Adds [] s = Adds-refl s.out
merge_all-Adds (raw ∷ raws) s =
    Adds-trans s.out (merge_one-Adds s (project_task_edge raw)) (merge_all-Adds raws _)

merge_all-IsTracked :
    (raws : List Value) (s : Edges) → IsTracked 0 s → IsTracked 0 (merge_all s raws)
unfolding merge_all
merge_all-IsTracked [] s tracked = tracked
merge_all-IsTracked (raw ∷ raws) s tracked =
    merge_all-IsTracked raws _ (merge_one-IsTracked s (project_task_edge raw) tracked)

merge_rows-keeps :
    (derived : List TaskEdge) (rows : Option (List Value))
    → distinct (keys 0 derived) ≡ true
    → Adds derived (merge_rows derived rows) × (distinct (keys 0 (merge_rows derived rows)) ≡ true)
merge_rows-keeps derived none once = (Adds-refl derived, once)
merge_rows-keeps derived (some raws) once = (
  merge_all-Adds raws _,
  (merge_all-IsTracked raws _ (record { same = λ k. refl; once = once })).once,
)

pub merge_edges-keeps :
    (derived : List TaskEdge) (raw : Value)
    → distinct (keys 0 derived) ≡ true
    → Adds derived (merge_edges derived raw) × (distinct (keys 0 (merge_edges derived raw)) ≡ true)
unfolding merge_edges
merge_edges-keeps derived raw once = merge_rows-keeps derived (as_array raw) once
