-- ===== src/Tasks/Edges/Exact.antt =====
-- Where a key stands for one edge: ids without the separating character. Then the derived edges
-- are exactly those that the nodes name.
use mx_loom.Common.{
  ℕ, ◌≡◌, refl, sym, ◌∙◌, Bool, true, false, ◌||◌, ◌&&◌, List, [], ◌∷◌, ◌++◌, map, any, All,
  All-append, ◌==◌, arith, if_both,
}
use mx_loom.Text.{Text, codes, eq_text, is_empty}
use mx_loom.Tasks.Node.{TaskNode}
use mx_loom.Tasks.Edges.{
  derive_edges, node_edges, edges_of, EdgeKind, depends_on, blocks, TaskEdge, kind_text, edge_key,
  Edges, no_edges, has_key, push_edge, push_all, derive_from,
}
use mx_loom.Tasks.Edges.Laws.{keys, with_ends, named_edges, derived-keys, distinct}

abbrev pub Without : ℕ → Text → Type 0
Without sep s = All (λ c. (c == sep) ≡ false) s

abbrev pub StartsWithout : ℕ → TaskEdge → Type 0
StartsWithout sep e = Without sep e.from

abbrev eq_kind : EdgeKind → EdgeKind → Bool
eq_kind depends_on depends_on = true
eq_kind blocks blocks = true
eq_kind k l = false

unfoldable pub eq_edge : TaskEdge → TaskEdge → Bool
eq_edge e f = eq_kind e.kind f.kind && (eq_text e.from f.from && eq_text e.to f.to)

abbrev pub has_edge : TaskEdge → List TaskEdge → Bool
has_edge e es = any (eq_edge e) es

-- Two texts that the separator ends are the same exactly if their parts are.
split_at_sep :
    (sep : ℕ) (s t s' t' : Text)
    → Without sep s
    → Without sep s'
    → eq_text (s ++ (sep ∷ t)) (s' ++ (sep ∷ t')) ≡ (eq_text s s' && eq_text t t')
unfolding eq_text
split_at_sep sep [] t [] t' p q = ground arith
split_at_sep sep [] t (d ∷ s') t' p (q, qs) = ground arith
split_at_sep sep (c ∷ s) t [] t' (p, ps) q = ground arith
split_at_sep sep (c ∷ s) t (d ∷ s') t' (p, ps) (q, qs) =
    ground (arith, split_at_sep sep s t s' t' ps qs)

eq_kind_text : (k l : EdgeKind) → eq_text (kind_text k) (kind_text l) ≡ eq_kind k l
unfolding eq_text kind_text codes
eq_kind_text depends_on depends_on = refl
eq_kind_text depends_on blocks = refl
eq_kind_text blocks depends_on = refl
eq_kind_text blocks blocks = refl

-- Neither kind's name contains the two separators that are in use.
abbrev pub SeparatesKinds : ℕ → Type 0
SeparatesKinds sep = (k : EdgeKind) → Without sep (kind_text k)

pub nul-SeparatesKinds : SeparatesKinds 0
unfolding kind_text codes
nul-SeparatesKinds depends_on = ground arith
nul-SeparatesKinds blocks = ground arith

pub space-SeparatesKinds : SeparatesKinds b' '
unfolding kind_text codes
space-SeparatesKinds depends_on = ground arith
space-SeparatesKinds blocks = ground arith

push_all-All :
    (sep : ℕ) (P : TaskEdge → Type 0) (es : List TaskEdge) (s : Edges)
    → All P s.out
    → All P es
    → All P (push_all sep s es).out
unfolding push_all push_edge
push_all-All sep P [] s h k = h
push_all-All sep P (e ∷ es) s h (p, ps) =
    push_all-All sep P es _
      (if_both (λ (t : Edges). All P t.out) (is_empty e.from || is_empty e.to) _ _ h
        (if_both (λ (t : Edges). All P t.out) (has_key (edge_key sep e) s.seen) _ _ h
          (All-append P s.out (e ∷ []) h (p, tt))))
      ps

derive_from-All :
    (sep : ℕ) (P : TaskEdge → Type 0) (rounds : List (List TaskEdge)) (s : Edges)
    → All P s.out
    → All (All P) rounds
    → All P (derive_from sep s rounds).out
unfolding derive_from
derive_from-All sep P [] s h k = h
derive_from-All sep P (es ∷ rounds) s h (p, ps) =
    derive_from-All sep P rounds _ (push_all-All sep P es s h p) ps

with_ends-All : (P : TaskEdge → Type 0) (es : List TaskEdge) → All P es → All P (with_ends es)
with_ends-All P [] h = tt
with_ends-All P (e ∷ es) (p, ps) =
    if_both (All P) (is_empty e.from || is_empty e.to) _ _ (with_ends-All P es ps)
      (p, with_ends-All P es ps)

named_edges-All :
    (P : TaskEdge → Type 0) (rounds : List (List TaskEdge))
    → All (All P) rounds
    → All P (named_edges rounds)
named_edges-All P [] h = tt
named_edges-All P (es ∷ rounds) (p, ps) =
    All-append P (with_ends es) (named_edges rounds) (with_ends-All P es p)
      (named_edges-All P rounds ps)

module _ (sep : ℕ) (separates : SeparatesKinds sep) where
  eq_edge_key :
      (e f : TaskEdge)
      → StartsWithout sep e
      → StartsWithout sep f
      → eq_text (edge_key sep e) (edge_key sep f) ≡ eq_edge e f
  unfolding edge_key eq_edge
  eq_edge_key e f p q =
      split_at_sep sep (kind_text e.kind) _ (kind_text f.kind) _ (separates e.kind)
        (separates f.kind)
      ∙ ground (arith, eq_kind_text e.kind f.kind, split_at_sep sep e.from e.to f.from f.to p q)

  has_key-has_edge :
      (e : TaskEdge) (es : List TaskEdge)
      → StartsWithout sep e
      → All (StartsWithout sep) es
      → has_key (edge_key sep e) (keys sep es) ≡ has_edge e es
  has_key-has_edge e [] p q = refl
  has_key-has_edge e (f ∷ es) p (q, qs) =
      ground (arith, eq_edge_key e f p q, has_key-has_edge e es p qs)

  -- Where no source id holds the separator, an edge is derived exactly if a round names it with two
  -- ends.
  pub derived-exact :
      (rounds : List (List TaskEdge)) (e : TaskEdge)
      → All (All (StartsWithout sep)) rounds
      → StartsWithout sep e
      → has_edge e (derive_from sep no_edges rounds).out ≡ has_edge e (named_edges rounds)
  derived-exact rounds e clean p =
      sym
        (has_key-has_edge e _ p (derive_from-All sep (StartsWithout sep) rounds no_edges tt clean))
      ∙ (derived-keys sep rounds).0 (edge_key sep e)
      ∙ has_key-has_edge e _ p (named_edges-All (StartsWithout sep) rounds clean)

pub edges_of-StartsWithout :
    (sep : ℕ) (id : Text) (deps blocked : List Text)
    → Without sep id
    → All (StartsWithout sep) (edges_of id deps blocked)
edges_of-StartsWithout sep id [] [] h = tt
edges_of-StartsWithout sep id [] (b ∷ bs) h = (h, edges_of-StartsWithout sep id [] bs h)
edges_of-StartsWithout sep id (d ∷ ds) bs h = (h, edges_of-StartsWithout sep id ds bs h)

registry_rounds :
    (nodes : List TaskNode)
    → All (λ n. Without 0 n.task_id) nodes
    → All (All (StartsWithout 0)) (map node_edges nodes)
registry_rounds [] h = tt
registry_rounds (n ∷ ns) (p, ps) =
    (edges_of-StartsWithout 0 n.task_id n.depends_on n.blocks p, registry_rounds ns ps)

-- Where no task id holds a NUL, an edge that starts at an id without one is among the registry's
-- exactly if a node names it with two ends; and no key occurs twice.
pub registry_edges-exact :
    (nodes : List TaskNode)
    → All (λ n. Without 0 n.task_id) nodes
    → (e : TaskEdge) → StartsWithout 0 e
    → (has_edge e (derive_edges nodes) ≡ has_edge e (named_edges (map node_edges nodes)))
      × (distinct (keys 0 (derive_edges nodes)) ≡ true)
unfolding derive_edges
registry_edges-exact nodes clean e p = (
  derived-exact 0 nul-SeparatesKinds (map node_edges nodes) e (registry_rounds nodes clean) p,
  (derived-keys 0 (map node_edges nodes)).1,
)
