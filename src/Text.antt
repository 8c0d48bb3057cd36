-- ===== src/Text.antt =====
-- JavaScript strings, as the lists of their UTF-16 code units, and `===` on them.
pub mod Token
use Prim.Native.Char.{code}
use Prim.Native.String.{String}
use mx_loom.Common.{
  ℕ, ◌≡◌, refl, ◌↔◌, Bool, true, false, ◌&&◌, List, [], ◌∷◌, ◌==◌, ==_iff, arith, subst,
}

abbrev pub Text : Type 0
Text = List ℕ

-- The literal "…" of the source; every literal there is ASCII, so a code point is a code unit.
unfoldable pub codes : String → Text
codes String.[] = []
codes (String.◌∷◌ c s) = code c ∷ codes s

-- `s === ''`.
abbrev pub is_empty : Text → Bool
is_empty [] = true
is_empty (c ∷ s) = false

-- `a === b` on strings.
unfoldable pub eq_text : Text → Text → Bool
eq_text [] [] = true
eq_text (a ∷ s) (b ∷ t) = a == b && eq_text s t
eq_text _ _ = false

pub eq_text_sound : (s t : Text) → eq_text s t ≡ true → s ≡ t
unfolding eq_text
eq_text_sound [] [] h = refl
eq_text_sound (a ∷ s) (b ∷ t) h = ground (arith, eq_text_sound s t)
eq_text_sound [] (b ∷ t) h = ground arith
eq_text_sound (a ∷ s) [] h = ground arith

pub eq_text_refl : (s : Text) → eq_text s s ≡ true
unfolding eq_text
eq_text_refl [] = refl
eq_text_refl (a ∷ s) = ground (arith, eq_text_refl s)

pub eq_text_iff : (s t : Text) → (eq_text s t ≡ true) ↔ (s ≡ t)
eq_text_iff s t = (eq_text_sound s t, λ e. subst (λ u. eq_text s u ≡ true) e (eq_text_refl s))
