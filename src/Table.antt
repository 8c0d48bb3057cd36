-- ===== src/Table.antt =====
-- `TABLE[key]` on an object literal that is used as a dictionary. A key that the literal lacks is
-- looked up on `Object.prototype` too, so a read can find something that is no entry.
use Prim.Native.String.{String}
use mx_loom.Common.{
  ◌≡◌, refl, sym, ◌∙◌, inl, inr, Bool, true, false, ◌&&◌, ◌||◌, Option, none, some, List, [], ◌∷◌,
  ◌==◌, any, arith, Bool-cases, if◌then◌else◌, All, subst,
}
use mx_loom.Text.{Text, codes, eq_text, eq_text_sound}
use mx_loom.Text.Token.{is_alnum, normalise_token}
use mx_loom.Text.Token.Shape.{Follows, IsToken, normalise_token-IsToken}

-- What a read finds: an entry, a property of `Object.prototype`, or `undefined`.
pub data Slot (A : Type 0) : Type 0 where
  own : A → Slot A
  inherited : Slot A
  missing : Slot A

abbrev pub Table : Type 0 → Type 0
Table A = List (String × A)

-- The properties that every object literal inherits.
abbrev pub prototype_names : List String
prototype_names =
    "constructor" ∷ "__defineGetter__" ∷ "__defineSetter__" ∷ "hasOwnProperty" ∷ "__lookupGetter__"
    ∷ "__lookupSetter__" ∷ "isPrototypeOf" ∷ "propertyIsEnumerable" ∷ "toString" ∷ "valueOf"
    ∷ "__proto__" ∷ "toLocaleString" ∷ []

unfoldable pub is_prototype_name : Text → Bool
is_prototype_name key = any (λ name. eq_text (codes name) key) prototype_names

unfoldable pub entry : {A : Type 0} → Table A → Text → Option A
entry [] key = none
entry ((name, a) ∷ table) key = if eq_text (codes name) key then some a else entry table key

abbrev pub slot : {A : Type 0} → Option A → Bool → Slot A
slot (some a) b = own a
slot none true = inherited
slot none false = missing

unfoldable pub read : {A : Type 0} → Table A → Text → Slot A
unfolding entry
read table key = slot (entry table key) (is_prototype_name key)

-- A necessary test on tokens that computes: a letter or digit first, and no other character but `_`.
abbrev word_chars : Text → Bool
word_chars [] = true
word_chars (c ∷ s) = (is_alnum c || c == b'_') && word_chars s

abbrev may_be_token : Text → Bool
may_be_token [] = true
may_be_token (c ∷ s) = is_alnum c && word_chars s

Follows-word_chars : (under : Bool) (s : Text) → Follows under s → word_chars s ≡ true
Follows-word_chars under [] h = refl
Follows-word_chars under (c ∷ s) (inl (p, h)) = ground (arith, Follows-word_chars false s h)
Follows-word_chars under (c ∷ s) (inr (p, q, h)) = ground (arith, Follows-word_chars true s h)

IsToken-may_be : (s : Text) → IsToken s → may_be_token s ≡ true
IsToken-may_be [] h = refl
IsToken-may_be (c ∷ s) (p, h) = ground (arith, Follows-word_chars false s h)

abbrev OnlyConstructor : String → Type 0
OnlyConstructor name = may_be_token (codes name) ≡ true → codes name ≡ codes "constructor"

only_constructor : All OnlyConstructor prototype_names
unfolding codes is_alnum
only_constructor = (
  λ _. refl,
  (
    λ h. cc,
    (
      λ h. cc,
      (
        λ h. cc,
        (λ h. cc, (λ h. cc, (λ h. cc, (λ h. cc, (λ h. cc, (λ h. cc, (λ h. cc, (λ h. cc, tt)))))))),
      ),
    ),
  ),
)

named-IsToken :
    (names : List String) (key : Text)
    → All OnlyConstructor names
    → IsToken key
    → any (λ name. eq_text (codes name) key) names ≡ true
    → key ≡ codes "constructor"
named-IsToken [] key only token h = cc
named-IsToken (name ∷ names) key (here, later) token h =
    elim (Bool-cases (eq_text (codes name) key)) [
      | inl same ↦
          let e = eq_text_sound (codes name) key same in
          sym e ∙ here (subst (λ t. may_be_token t ≡ true) (sym e) (IsToken-may_be key token))
      | inr other ↦ named-IsToken names key later token (rw other at h)
    ]

-- A normalised key has no capital and no leading underscore, so of the inherited properties it can
-- only be `constructor`.
pub prototype_name_of_token :
    (raw : Text)
    → is_prototype_name (normalise_token raw) ≡ true
    → normalise_token raw ≡ codes "constructor"
unfolding is_prototype_name
prototype_name_of_token raw h =
    named-IsToken prototype_names (normalise_token raw) only_constructor
      (normalise_token-IsToken raw) h
