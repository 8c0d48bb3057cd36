-- ===== src/Toolbelt/Plan/Cursor.antt =====
-- The resumption cursor: the greatest revision seen, which never falls.
use mx_loom.Common.{
  ◌≡◌, refl, ap, ◌∙◌, ◌⊎◌, inl, inr, Bool, true, false, Option, none, some, List, [], ◌∷◌, All,
  arith,
}
use mx_loom.Json.{Value}
use mx_loom.Json.Number.{WireNumber, lt_number, lt_number_irrefl, lt_number_trans, lt_number_asym}
use mx_loom.Toolbelt.Plan.{TaskCursor, read_task_rev, raise, max_rev, advance_cursor}

abbrev pub Revision : Type 0
Revision = Option WireNumber

-- `a > b`, where an absent revision is below all others.
abbrev pub exceeds : Revision → Revision → Bool
exceeds none b = false
exceeds (some a) none = true
exceeds (some a) (some b) = lt_number b a

exceeds_trans : (a b c : Revision) → exceeds a b ≡ false → exceeds b c ≡ false → exceeds a c ≡ false
exceeds_trans none b c p q = refl
exceeds_trans (some a) none c p q = cc
exceeds_trans (some a) (some b) none p q = cc
exceeds_trans (some a) (some b) (some c) p q = lt_number_trans c b a q p

exceeds_refl : (a : Revision) → exceeds a a ≡ false
exceeds_refl none = refl
exceeds_refl (some a) = lt_number_irrefl a

raise-left : (a b : Revision) → exceeds a (raise a b) ≡ false
unfolding raise
raise-left none none = refl
raise-left (some a) none = lt_number_irrefl a
raise-left none (some b) = refl
raise-left (some a) (some b) = ground (arith, lt_number_asym a b, lt_number_irrefl a)

raise-right : (a b : Revision) → exceeds b (raise a b) ≡ false
unfolding raise
raise-right a none = refl
raise-right none (some b) = lt_number_irrefl b
raise-right (some a) (some b) = ground (arith, lt_number_irrefl b)

raise-one : (a b : Revision) → (raise a b ≡ a) ⊎ (raise a b ≡ b)
unfolding raise
raise-one none none = inl refl
raise-one (some a) none = inl refl
raise-one none (some b) = inr refl
raise-one (some a) (some b) = ground arith

-- A revision that does not exceed the mark leaves it.
raise-absorbs : (a b : Revision) → exceeds b a ≡ false → raise a b ≡ a
unfolding raise
raise-absorbs none none h = refl
raise-absorbs (some a) none h = refl
raise-absorbs none (some b) h = cc
raise-absorbs (some a) (some b) h = ground arith

abbrev pub Below : Revision → Value → Type 0
Below mark row = exceeds (read_task_rev row) mark ≡ false

-- One of the rows has the revision.
abbrev pub SeenIn : Revision → List Value → Type 0
SeenIn mark [] = ⊥
SeenIn mark (row ∷ rows) = (mark ≡ read_task_rev row) ⊎ SeenIn mark rows

max_rev-grows : (max : Revision) (rows : List Value) → exceeds max (max_rev max rows) ≡ false
unfolding max_rev
max_rev-grows max [] = exceeds_refl max
max_rev-grows max (row ∷ rows) =
    exceeds_trans max (raise max (read_task_rev row)) _ (raise-left max (read_task_rev row))
      (max_rev-grows (raise max (read_task_rev row)) rows)

max_rev-Below : (max : Revision) (rows : List Value) → All (Below (max_rev max rows)) rows
unfolding max_rev
max_rev-Below max [] = tt
max_rev-Below max (row ∷ rows) =
    let raised = raise max (read_task_rev row) in
    (
      exceeds_trans (read_task_rev row) raised _ (raise-right max (read_task_rev row))
          (max_rev-grows raised rows),
      max_rev-Below raised rows,
    )

max_rev-one :
    (max : Revision) (rows : List Value) → (max_rev max rows ≡ max) ⊎ SeenIn (max_rev max rows) rows
unfolding max_rev
max_rev-one max [] = inl refl
max_rev-one max (row ∷ rows) = elim (max_rev-one (raise max (read_task_rev row)) rows) [
  | inl kept ↦ elim (raise-one max (read_task_rev row)) [
    | inl e ↦ inl (kept ∙ e)
    | inr e ↦ inr (inl (kept ∙ e))
  ]
  | inr later ↦ inr (inr later)
]

max_rev-absorbs :
    (max : Revision) (rows : List Value) → All (Below max) rows → max_rev max rows ≡ max
unfolding max_rev
max_rev-absorbs max [] h = refl
max_rev-absorbs max (row ∷ rows) (p, ps) =
    ap (λ m. max_rev m rows) (raise-absorbs max (read_task_rev row) p) ∙ max_rev-absorbs max rows ps

-- The cursor advances to the greatest of its own revision and those of the rows: it never falls, no
-- row exceeds it, it is one of these, and its token stays. The same rows again leave it.
pub advance_cursor-max :
    (c : TaskCursor) (rows : List Value)
    → (exceeds c.state_rev (advance_cursor (some c) rows).state_rev ≡ false)
      × All (Below (advance_cursor (some c) rows).state_rev) rows
      × (((advance_cursor (some c) rows).state_rev ≡ c.state_rev)
          ⊎ SeenIn (advance_cursor (some c) rows).state_rev rows)
      × ((advance_cursor (some c) rows).token ≡ c.token)
      × (advance_cursor (some (advance_cursor (some c) rows)) rows ≡ advance_cursor (some c) rows)
unfolding advance_cursor
advance_cursor-max c rows = (
  max_rev-grows c.state_rev rows,
  max_rev-Below c.state_rev rows,
  max_rev-one c.state_rev rows,
  refl,
  λ i. record {
    state_rev = max_rev-absorbs (max_rev c.state_rev rows) rows (max_rev-Below c.state_rev rows) i;
    token = c.token;
  },
)
