-- ===== src/Toolbelt/Ipc/Ids.antt =====
-- The ids of the requests: `mxl-` and a counter of 32 bits in base 36.
use mx_loom.Common.{
  ℕ, zero, suc, ◌+◌, ◌*◌, ◌/◌, ◌%◌, ◌^◌, ◌<◌, ◌≡◌, refl, sym, ap, ◌∙◌, arith, drop, [], ◌∷◌, ◌++◌,
  ◌-◌, ltb, if◌then◌else◌, Bool-cases, inl, inr,
}
use mx_loom.Text.{Text, codes}

-- `(idCounter + 1) >>> 0`.
unfoldable pub next_counter : ℕ → ℕ
next_counter counter = (counter + 1) % 2 ^ 32

abbrev pub digit36 : ℕ → ℕ
digit36 d = if ltb d 10 then b'0' + d else b'a' + d - 10

-- `n.toString(36)`, on fuel; seven digits hold every number of 32 bits.
unfoldable pub base36 : ℕ → ℕ → Text
base36 zero n = digit36 (n % 36) ∷ []
base36 (suc fuel) n =
    let rest = base36 fuel (n / 36) ++ (digit36 (n % 36) ∷ []) in
    if ltb n 36 then digit36 n ∷ [] else rest

unfoldable pub id_text : ℕ → Text
unfolding base36
id_text counter = codes "mxl-" ++ base36 6 counter

-- The number that digits in base 36 spell, read after one that was read before.
abbrev digit_value : ℕ → ℕ
digit_value c = if ltb c 97 then c - 48 else c - 87

abbrev value36 : ℕ → Text → ℕ
value36 acc [] = acc
value36 acc (c ∷ cs) = value36 (acc * 36 + digit_value c) cs

digit_value-digit36 : (d : ℕ) → d < 36 → digit_value (digit36 d) ≡ d
digit_value-digit36 d h = ground arith

value36-snoc :
    (acc c : ℕ) (cs : Text) → value36 acc (cs ++ (c ∷ [])) ≡ value36 acc cs * 36 + digit_value c
value36-snoc acc c [] = refl
value36-snoc acc c (d ∷ cs) = value36-snoc (acc * 36 + digit_value d) c cs

-- What the digits of a length can spell.
abbrev limit : ℕ → ℕ
limit zero = 36
limit (suc fuel) = 36 * limit fuel

value36-base36 : (fuel n : ℕ) → n < limit fuel → value36 0 (base36 fuel n) ≡ n
unfolding base36
value36-base36 zero n h = omega (arith, digit_value-digit36 (n % 36) (omega arith))
value36-base36 (suc fuel) n h = elim (Bool-cases (ltb n 36)) [
  | inl e ↦ rw e (omega (arith, digit_value-digit36 n (ground arith)))
  | inr e ↦ rw e (
      omega (
        arith,
        value36-snoc 0 (digit36 (n % 36)) (base36 fuel (n / 36)),
        value36-base36 fuel (n / 36) (omega arith),
        digit_value-digit36 (n % 36) (omega arith),
      ))
]

id_value : Text → ℕ
id_value id = value36 0 (drop 4 id)

-- The counter after some more calls.
abbrev pub counter_after : ℕ → ℕ → ℕ
counter_after zero counter = counter
counter_after (suc calls) counter = next_counter (counter_after calls counter)

counter_after_lem :
    (calls counter : ℕ)
    → counter < 2 ^ 32
    → counter_after calls counter ≡ (counter + calls) % 2 ^ 32
unfolding next_counter
counter_after_lem zero counter h = omega arith
counter_after_lem (suc calls) counter h = omega (arith, counter_after_lem calls counter h)

pub id_text_injective : (m n : ℕ) → m < 2 ^ 32 → n < 2 ^ 32 → id_text m ≡ id_text n → m ≡ n
unfolding id_text id_value codes
id_text_injective m n h k e =
    sym (value36-base36 6 m (omega arith)) ∙ ap id_value e ∙ value36-base36 6 n (omega arith)

-- Among any 2 ^ 32 consecutive calls, two have the same id only if they are the same call, whatever the
-- counter of 32 bits was at the start.
pub ids_differ :
    (counter m n : ℕ)
    → counter < 2 ^ 32
    → m < 2 ^ 32
    → n < 2 ^ 32
    → id_text (counter_after m counter) ≡ id_text (counter_after n counter)
    → m ≡ n
ids_differ counter m n h i j e = omega (
  arith,
  counter_after_lem m counter h,
  counter_after_lem n counter h,
  id_text_injective (counter_after m counter) (counter_after n counter)
      (omega (arith, counter_after_lem m counter h)) (omega (arith, counter_after_lem n counter h))
      e,
)
