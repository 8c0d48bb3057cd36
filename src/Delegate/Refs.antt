-- ===== src/Delegate/Refs.antt =====
-- A reference `name@version` is read back, and what it finds was published under it.
use mx_loom.Common.{
  if_found, ◌≡◌, refl, sym, ap, arith, Bool, true, false, ◌==◌, any, Option, none, some, List, [],
  ◌∷◌, ◌++◌, inl, inr, and_split, ◌⊎◌, subst,
}
use mx_loom.Text.{Text, is_empty, eq_text, eq_text_sound}
use mx_loom.Delegate.Tools.{
  PublishedTool, ToolRef, split_last_at, parse_tool_ref, has_version, matches, find_tool,
}

abbrev pub has_at : Text → Bool
has_at s = any (λ c. c == b'@') s

no_at-unsplit : (s : Text) → has_at s ≡ false → split_last_at s ≡ none
unfolding split_last_at
no_at-unsplit [] h = refl
no_at-unsplit (c ∷ s) h = grind (arith, no_at-unsplit s)

split_last_at-joined :
    (name version : Text)
    → has_at version ≡ false
    → split_last_at (name ++ (b'@' ∷ version)) ≡ some (name, version)
unfolding split_last_at
split_last_at-joined [] version h = rw (no_at-unsplit version h) refl
split_last_at-joined (c ∷ name) version h = rw (split_last_at-joined name version h) refl

-- A name with a version behind an `@` is read as the two, whatever the name holds, if neither is empty
-- and the version has no `@`.
parse_joined :
    (name version : Text)
    → is_empty name ≡ false
    → is_empty version ≡ false
    → has_at version ≡ false
    → parse_tool_ref (name ++ (b'@' ∷ version)) ≡ record { name = name; version = some version }
unfolding parse_tool_ref
parse_joined (c ∷ s) (d ∷ t) e f h = rw (split_last_at-joined (c ∷ s) (d ∷ t) h) refl
parse_joined [] version e f h = absurd cc
parse_joined (c ∷ s) [] e f h = absurd cc

-- A bare name is read as itself.
parse_bare :
    (name : Text)
    → has_at name ≡ false
    → parse_tool_ref name ≡ record { name = name; version = none }
unfolding parse_tool_ref
parse_bare name h = rw (no_at-unsplit name h) refl

abbrev pub Listed : PublishedTool → List PublishedTool → Type 0
Listed t [] = true ≡ false
Listed t (u ∷ us) = (t ≡ u) ⊎ Listed t us

find_tool-Listed :
    (ref : ToolRef) (ts : List PublishedTool) (t : PublishedTool)
    → find_tool ref ts ≡ some t
    → (matches ref t ≡ true) × Listed t ts
unfolding find_tool
find_tool-Listed ref [] t e = absurd cc
find_tool-Listed ref (u ∷ ts) t e = elim (if_found (matches ref u) (find_tool ref ts) u t e) [
  | inl (m, p) ↦ (subst (λ x. matches ref x ≡ true) p m, inl (sym p))
  | inr q ↦ let (m, l) = find_tool-Listed ref ts t q in (m, inr l)
]

same_version : (w : Text) (v : Option Text) → has_version (some w) v ≡ true → v ≡ some w
same_version w none e = absurd cc
same_version w (some v) e = ap (λ x. some x) (eq_text_sound v w e)

-- The tool that a reference `name@version` finds is one of those that are published, under exactly
-- that name and that version, if neither part is empty and the version has no `@`.
pub found_as_named :
    (name version : Text) (ts : List PublishedTool) (t : PublishedTool)
    → is_empty name ≡ false
    → is_empty version ≡ false
    → has_at version ≡ false
    → find_tool (parse_tool_ref (name ++ (b'@' ∷ version))) ts ≡ some t
    → (t.name ≡ name) × (t.version ≡ some version) × Listed t ts
found_as_named name version ts t e f h found =
    let ref : ToolRef = record { name = name; version = some version } in
    let (m, l) =
      find_tool-Listed ref ts t
        (subst (λ r. find_tool r ts ≡ some t) (parse_joined name version e f h) found) in
    let (p, q) = and_split (eq_text t.name name) (has_version (some version) t.version) m in
    (eq_text_sound t.name name p, same_version version t.version q, l)
