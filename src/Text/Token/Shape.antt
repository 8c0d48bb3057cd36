-- ===== src/Text/Token/Shape.antt =====
-- The shape of a normalised token, and that a token is its own normal form.
use mx_loom.Common.{
  ℕ, ◌≡◌, refl, ◌⊎◌, inl, inr, ◌↔◌, Bool, true, false, [], ◌∷◌, arith, ◌==◌, Bool-cases, ap, subst,
}
use mx_loom.Text.{Text}
use mx_loom.Text.Token.{
  lower_unit, to_lower_case, is_alnum, collapse, strip_start, cons_unless_edge, strip_end,
  normalise_token,
}

-- The rest of words of a-z0-9 that single underscores join; `under` says that the code unit before
-- was an underscore, so that a word has to begin.
abbrev pub Follows : Bool → Text → Type 0
Follows false [] = Unit
Follows true [] = ⊥
Follows under (c ∷ s) =
    ((is_alnum c ≡ true) × Follows false s) ⊎ ((c ≡ b'_') × (under ≡ false) × Follows true s)

-- Words of a-z0-9, joined by single underscores.
abbrev pub IsToken : Text → Type 0
IsToken [] = Unit
IsToken (c ∷ s) = (is_alnum c ≡ true) × Follows false s

-- The same, but a trailing underscore is allowed.
abbrev IsCollapsed : Bool → Text → Type 0
IsCollapsed under [] = Unit
IsCollapsed under (c ∷ s) =
    ((is_alnum c ≡ true) × IsCollapsed false s)
    ⊎ ((c ≡ b'_') × (under ≡ false) × IsCollapsed true s)

collapse-IsCollapsed : (run : Bool) (s : Text) → IsCollapsed run (collapse run s)
unfolding collapse
collapse-IsCollapsed run [] = tt
collapse-IsCollapsed true (c ∷ s) = elim (Bool-cases (is_alnum c)) [
  | inl kept ↦ rw kept (inl (kept, collapse-IsCollapsed false s))
  | inr dropped ↦ rw dropped (collapse-IsCollapsed true s)
]
collapse-IsCollapsed false (c ∷ s) = elim (Bool-cases (is_alnum c)) [
  | inl kept ↦ rw kept (inl (kept, collapse-IsCollapsed false s))
  | inr dropped ↦ rw dropped (inr (refl, refl, collapse-IsCollapsed true s))
]

alnum-ne-underscore : (c : ℕ) → is_alnum c ≡ true → (c == b'_') ≡ false
unfolding is_alnum
alnum-ne-underscore c h = ground arith

underscore_not_alnum : is_alnum b'_' ≡ false
unfolding is_alnum
underscore_not_alnum = refl

strip_start-IsCollapsed :
    (under : Bool) (s : Text) → IsCollapsed under s → IsCollapsed true (strip_start s)
unfolding strip_start
strip_start-IsCollapsed under [] h = tt
strip_start-IsCollapsed under (c ∷ s) (inl (p, h)) = rw (alnum-ne-underscore c p) (inl (p, h))
strip_start-IsCollapsed under (c ∷ s) (inr (p, q, h)) = rw p (strip_start-IsCollapsed true s h)

cons_unless_edge-Follows :
    (under : Bool) (c : ℕ) (s : Text)
    → is_alnum c ≡ true
    → Follows false s
    → Follows under (cons_unless_edge c s)
unfolding cons_unless_edge
cons_unless_edge-Follows under c [] p h = rw (alnum-ne-underscore c p) (inl (p, tt))
cons_unless_edge-Follows under c (d ∷ s) p h = inl (p, h)

underscore-Follows :
    (s : Text)
    → Follows true s ⊎ (s ≡ [])
    → Follows false (cons_unless_edge b'_' s) ⊎ (cons_unless_edge b'_' s ≡ [])
unfolding cons_unless_edge
underscore-Follows [] h = inr refl
underscore-Follows (d ∷ s) (inl h) = inl (inr (refl, refl, h))
underscore-Follows (d ∷ s) (inr e) = cc

Follows-weaken : (under : Bool) (s : Text) → Follows under s ⊎ (s ≡ []) → Follows false s
Follows-weaken under [] h = tt
Follows-weaken under (c ∷ s) (inl (inl h)) = inl h
Follows-weaken under (c ∷ s) (inl (inr (p, q, h))) = inr (p, refl, h)
Follows-weaken under (c ∷ s) (inr e) = cc

strip_end-Follows :
    (under : Bool) (s : Text)
    → IsCollapsed under s
    → Follows under (strip_end s) ⊎ (strip_end s ≡ [])
unfolding strip_end
strip_end-Follows under [] h = inr refl
strip_end-Follows under (c ∷ s) (inl (p, h)) = inl (
    cons_unless_edge-Follows under c (strip_end s) p
      (Follows-weaken false (strip_end s) (strip_end-Follows false s h)))
strip_end-Follows under (c ∷ s) (inr (p, q, h)) =
    rw (p, q) (underscore-Follows (strip_end s) (strip_end-Follows true s h))

Follows-IsToken : (s : Text) → Follows true s ⊎ (s ≡ []) → IsToken s
Follows-IsToken [] h = tt
Follows-IsToken (c ∷ s) (inl (inl h)) = h
Follows-IsToken (c ∷ s) (inl (inr (p, q, h))) = cc
Follows-IsToken (c ∷ s) (inr e) = cc

-- Whatever the spelling, its normal form is words of a-z0-9 joined by single underscores: no other
-- character, no underscore at an edge, and no two in a row.
pub normalise_token-IsToken : (raw : Text) → IsToken (normalise_token raw)
unfolding normalise_token
normalise_token-IsToken raw =
    let s = collapse false (to_lower_case raw) in
    let start = strip_start-IsCollapsed false s (collapse-IsCollapsed false (to_lower_case raw)) in
    Follows-IsToken (strip_end (strip_start s)) (strip_end-Follows true (strip_start s) start)

Follows-lower : (under : Bool) (s : Text) → Follows under s → to_lower_case s ≡ s
unfolding to_lower_case lower_unit is_alnum
Follows-lower under [] h = refl
Follows-lower under (c ∷ s) (inl (p, h)) = ground (arith, Follows-lower false s h)
Follows-lower under (c ∷ s) (inr (p, q, h)) = ground (arith, Follows-lower true s h)

Follows-collapse : (under : Bool) (s : Text) → Follows under s → collapse under s ≡ s
unfolding collapse
Follows-collapse under [] h = refl
Follows-collapse under (c ∷ s) (inl (p, h)) = rw (p, Follows-collapse false s h)
Follows-collapse under (c ∷ s) (inr (p, q, h)) =
    rw (p, q, underscore_not_alnum) (ap (λ t. b'_' ∷ t) (Follows-collapse true s h))

Follows-strip_end : (under : Bool) (s : Text) → Follows under s → strip_end s ≡ s
unfolding strip_end cons_unless_edge
Follows-strip_end under [] h = refl
Follows-strip_end under (c ∷ []) (inl (p, h)) = rw (alnum-ne-underscore c p)
Follows-strip_end under (c ∷ []) (inr (p, q, h)) = absurd h
Follows-strip_end under (c ∷ d ∷ s) (inl (p, h)) = rw (Follows-strip_end false (d ∷ s) h)
Follows-strip_end under (c ∷ d ∷ s) (inr (p, q, h)) = rw (Follows-strip_end true (d ∷ s) h)

-- A text that is already words of a-z0-9 joined by single underscores is left as it is.
pub normalise_token_of_IsToken : (t : Text) → IsToken t → normalise_token t ≡ t
unfolding normalise_token
normalise_token_of_IsToken [] h = refl
normalise_token_of_IsToken (c ∷ s) (p, h) =
    let whole : Follows false (c ∷ s) = inl (p, h) in
    rw (Follows-lower false (c ∷ s) whole) (
      rw (Follows-collapse false (c ∷ s) whole)
        (rw (alnum-ne-underscore c p) (Follows-strip_end false (c ∷ s) whole)))

-- Exactly the words of a-z0-9 joined by single underscores are normal forms, and to normalise a
-- second time changes nothing.
pub normalise_token_canonical :
    (t : Text)
    → ((normalise_token t ≡ t) ↔ IsToken t)
      × (normalise_token (normalise_token t) ≡ normalise_token t)
normalise_token_canonical t = (
  (λ e. subst IsToken e (normalise_token-IsToken t), normalise_token_of_IsToken t),
  normalise_token_of_IsToken (normalise_token t) (normalise_token-IsToken t),
)
