-- ===== src/Tasks/Edges/Laws.antt =====
-- The keys of the derived edges: exactly those that the nodes name, each once.
use mx_loom.Common.{
  ℕ, if_both, subst, ◌≡◌, refl, sym, ap, ◌∙◌, Bool, true, false, ◌||◌, ◌&&◌, not, List, [], ◌∷◌,
  ◌++◌, map, any, arith, Bool-cases, inl, inr, if◌then◌else◌,
}
use mx_loom.Text.{Text, eq_text, eq_text_iff, is_empty}
use mx_loom.Tasks.Edges.{
  TaskEdge, edge_key, Edges, has_key, add_edge, push_edge, push_all, no_edges, derive_from,
}

-- The edges that have two ends.
abbrev pub with_ends : List TaskEdge → List TaskEdge
with_ends [] = []
with_ends (e ∷ es) = if is_empty e.from || is_empty e.to then with_ends es else e ∷ with_ends es

-- The edges that the rounds name, in order and as often as they name them.
abbrev pub named_edges : List (List TaskEdge) → List TaskEdge
named_edges [] = []
named_edges (es ∷ rounds) = with_ends es ++ named_edges rounds

-- No key occurs twice.
abbrev pub distinct : List Text → Bool
distinct [] = true
distinct (k ∷ ks) = not (has_key k ks) && distinct ks

any-append {ℓ} :
    {A : Type ℓ} (p : A → Bool) (xs ys : List A) → any p (xs ++ ys) ≡ (any p xs || any p ys)
any-append p [] ys = refl
any-append p (x ∷ xs) ys = ground (arith, any-append p xs ys)

map-append' {ℓ κ} :
    {A : Type ℓ} {B : Type κ} (f : A → B) (xs ys : List A) → map f (xs ++ ys) ≡ map f xs ++ map f ys
map-append' f [] ys = refl
map-append' f (x ∷ xs) ys = ap (λ t. f x ∷ t) (map-append' f xs ys)

distinct-snoc :
    (ks : List Text) (k : Text) → distinct (ks ++ (k ∷ [])) ≡ (distinct ks && not (has_key k ks))
distinct-snoc [] k = refl
distinct-snoc (j ∷ ks) k = ground (
  arith,
  any-append (eq_text j) ks (k ∷ []),
  distinct-snoc ks k,
  eq_text_iff j k,
  eq_text_iff k j,
)

pub or-false : (b : Bool) → (b || false) ≡ b
or-false b = ground arith

pub or_assoc : (a b c : Bool) → ((a || b) || c) ≡ (a || (b || c))
or_assoc a b c = ground arith

with_ends-cons :
    (e : TaskEdge) (es : List TaskEdge) → with_ends (e ∷ es) ≡ with_ends (e ∷ []) ++ with_ends es
with_ends-cons e es = elim (Bool-cases (is_empty e.from || is_empty e.to)) [
  | inl lacking ↦ rw lacking
  | inr whole ↦ rw whole
]

module _ (sep : ℕ) where
  abbrev pub keys : List TaskEdge → List Text
  keys es = map (edge_key sep) es

  pub has_key-keys-append :
      (k : Text) (xs ys : List TaskEdge)
      → has_key k (keys (xs ++ ys)) ≡ (has_key k (keys xs) || has_key k (keys ys))
  has_key-keys-append k xs ys = rw map-append' (any-append (eq_text k) (keys xs) (keys ys))

  -- `seen` holds the keys of `out`, and these are distinct.
  pub record IsTracked (s : Edges) : Type 0 where
    pub same : (k : Text) → has_key k s.seen ≡ has_key k (keys s.out)
    pub once : distinct (keys s.out) ≡ true

  module _ {s : Edges} (tracked : IsTracked s) (e : TaskEdge) where
    present :
        (k : Text)
        → has_key (edge_key sep e) s.seen ≡ true
        → has_key k (keys s.out) ≡ (has_key k (keys s.out) || eq_text k (edge_key sep e))
    present k old = elim (Bool-cases (eq_text k (edge_key sep e))) [
      | inl same ↦
          let k_is : edge_key sep e ≡ k = sym ((eq_text_iff k (edge_key sep e)).0 same) in
          let here : has_key k (keys s.out) ≡ true =
            subst (λ t. has_key t (keys s.out) ≡ true) k_is
              (sym (tracked.same (edge_key sep e)) ∙ old) in
          rw (same, here) refl
      | inr other ↦ rw other (sym (or-false _))
    ]

    pub add_edge-keys :
        (k : Text)
        → has_key k (keys (add_edge sep s e).out)
          ≡ (has_key k (keys s.out) || eq_text k (edge_key sep e))
    unfolding add_edge
    add_edge-keys k = elim (Bool-cases (has_key (edge_key sep e) s.seen)) [
      | inl old ↦ rw old (present k old)
      | inr new ↦ rw new (
          has_key-keys-append k s.out (e ∷ []) ∙ ap (λ b. has_key k (keys s.out) || b) (or-false _))
    ]

    add_edge-seen :
        has_key (edge_key sep e) s.seen ≡ false
        → IsTracked (record { out = s.out ++ (e ∷ []); seen = edge_key sep e ∷ s.seen })
    add_edge-seen new = record {
      same = λ k. ground (arith, has_key-keys-append k s.out (e ∷ []), tracked.same k);
      once =
          ap distinct (map-append' (edge_key sep) s.out (e ∷ []))
          ∙ ground (
            arith,
            distinct-snoc (keys s.out) (edge_key sep e),
            tracked.same (edge_key sep e),
            tracked.once,
          );
    }

    pub add_edge-IsTracked : IsTracked (add_edge sep s e)
    unfolding add_edge
    add_edge-IsTracked = elim (Bool-cases (has_key (edge_key sep e) s.seen)) [
      | inl old ↦ rw old tracked
      | inr new ↦ rw new (add_edge-seen new)
    ]

  module _ {s : Edges} (tracked : IsTracked s) where
    push_edge-IsTracked : (e : TaskEdge) → IsTracked (push_edge sep s e)
    unfolding push_edge
    push_edge-IsTracked e =
        if_both IsTracked (is_empty e.from || is_empty e.to) s (add_edge sep s e) tracked
          (add_edge-IsTracked tracked e)

    push_edge-keys :
        (e : TaskEdge) (k : Text)
        → has_key k (keys (push_edge sep s e).out)
          ≡ (has_key k (keys s.out) || has_key k (keys (with_ends (e ∷ []))))
    unfolding push_edge
    push_edge-keys e k = elim (Bool-cases (is_empty e.from || is_empty e.to)) [
      | inl lacking ↦ rw lacking (sym (or-false _))
      | inr whole ↦
          rw whole
            (add_edge-keys tracked e k ∙ ap (λ b. has_key k (keys s.out) || b) (sym (or-false _)))
    ]

  push_all-IsTracked :
      (es : List TaskEdge) {s : Edges} → IsTracked s → IsTracked (push_all sep s es)
  unfolding push_all
  push_all-IsTracked [] tracked = tracked
  push_all-IsTracked (e ∷ es) tracked = push_all-IsTracked es (push_edge-IsTracked tracked e)

  push_all-keys :
      (es : List TaskEdge) {s : Edges}
      → IsTracked s
      → (k : Text)
      → has_key k (keys (push_all sep s es).out)
        ≡ (has_key k (keys s.out) || has_key k (keys (with_ends es)))
  unfolding push_all
  push_all-keys [] tracked k = sym (or-false _)
  push_all-keys (e ∷ es) {s} tracked k =
      push_all-keys es (push_edge-IsTracked tracked e) k
      ∙ ap (λ b. b || has_key k (keys (with_ends es))) (push_edge-keys tracked e k)
      ∙ or_assoc (has_key k (keys s.out)) _ _
      ∙ ap (λ b. has_key k (keys s.out) || b)
          (sym (has_key-keys-append k (with_ends (e ∷ [])) (with_ends es)))
      ∙ ap (λ t. has_key k (keys s.out) || has_key k (keys t)) (sym (with_ends-cons e es))

  derive_from-IsTracked :
      (rounds : List (List TaskEdge)) {s : Edges}
      → IsTracked s
      → IsTracked (derive_from sep s rounds)
  unfolding derive_from
  derive_from-IsTracked [] tracked = tracked
  derive_from-IsTracked (es ∷ rounds) tracked =
      derive_from-IsTracked rounds (push_all-IsTracked (es) tracked)

  derive_from-keys :
      (rounds : List (List TaskEdge)) {s : Edges}
      → IsTracked s
      → (k : Text)
      → has_key k (keys (derive_from sep s rounds).out)
        ≡ (has_key k (keys s.out) || has_key k (keys (named_edges rounds)))
  unfolding derive_from
  derive_from-keys [] tracked k = sym (or-false _)
  derive_from-keys (es ∷ rounds) {s} tracked k =
      derive_from-keys rounds (push_all-IsTracked (es) tracked) k
      ∙ ap (λ b. b || has_key k (keys (named_edges rounds))) (push_all-keys (es) tracked k)
      ∙ or_assoc (has_key k (keys s.out)) _ _
      ∙ ap (λ b. has_key k (keys s.out) || b)
          (sym (has_key-keys-append k (with_ends (es)) (named_edges rounds)))

  empty-IsTracked : IsTracked no_edges
  empty-IsTracked = record { same = λ k. refl; once = refl }

  -- The keys of what the loop leaves are exactly the keys of the edges with two ends that it is
  -- given, and no key occurs twice.
  pub derived-keys :
      (rounds : List (List TaskEdge))
      → ((k : Text)
          → has_key k (keys (derive_from sep no_edges rounds).out)
            ≡ has_key k (keys (named_edges rounds)))
        × (distinct (keys (derive_from sep no_edges rounds).out) ≡ true)
  derived-keys rounds =
      (derive_from-keys rounds empty-IsTracked, (derive_from-IsTracked rounds empty-IsTracked).once)
