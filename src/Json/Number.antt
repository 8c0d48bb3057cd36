-- ===== src/Json/Number.antt =====
-- The numbers that JSON text can stand for. A finite double is a whole multiple of 2^-1074, and is
-- given by that multiple, so that the comparison is exact; a literal out of range is infinite.
use mx_loom.Common.{ℕ, ◌*◌, ◌^◌, ◌≡◌, Bool, true, false, not, ◌&&◌, ltb, arith}

pub data WireNumber : Type 0 where
  plus : ℕ → WireNumber
  below : ℕ → WireNumber
  infinite : Bool → WireNumber

-- The natural number `n`; `below n` is -(n + 1) units.
abbrev pub natural : ℕ → WireNumber
natural n = plus (n * 2 ^ 1074)

unfoldable pub is_finite : WireNumber → Bool
is_finite (infinite sign) = false
is_finite n = true

-- `a < b`.
unfoldable pub lt_number : WireNumber → WireNumber → Bool
lt_number (plus a) (plus b) = ltb a b
lt_number (plus a) (below b) = false
lt_number (plus a) (infinite s) = s
lt_number (below a) (plus b) = true
lt_number (below a) (below b) = ltb b a
lt_number (below a) (infinite s) = s
lt_number (infinite r) (infinite s) = not r && s
lt_number (infinite r) b = not r

pub lt_number_irrefl : (a : WireNumber) → lt_number a a ≡ false
unfolding lt_number
lt_number_irrefl (plus a) = ground arith
lt_number_irrefl (below a) = ground arith
lt_number_irrefl (infinite s) = ground arith

pub lt_number_trans :
    (a b c : WireNumber) → lt_number a b ≡ false → lt_number b c ≡ false → lt_number a c ≡ false
unfolding lt_number
lt_number_trans (plus a) (plus b) (plus c) p q = ground arith
lt_number_trans (plus a) (plus b) (below c) p q = ground arith
lt_number_trans (plus a) (plus b) (infinite c) p q = ground arith
lt_number_trans (plus a) (below b) (plus c) p q = ground arith
lt_number_trans (plus a) (below b) (below c) p q = ground arith
lt_number_trans (plus a) (below b) (infinite c) p q = ground arith
lt_number_trans (plus a) (infinite b) (plus c) p q = ground arith
lt_number_trans (plus a) (infinite b) (below c) p q = ground arith
lt_number_trans (plus a) (infinite b) (infinite c) p q = ground arith
lt_number_trans (below a) (plus b) (plus c) p q = ground arith
lt_number_trans (below a) (plus b) (below c) p q = ground arith
lt_number_trans (below a) (plus b) (infinite c) p q = ground arith
lt_number_trans (below a) (below b) (plus c) p q = ground arith
lt_number_trans (below a) (below b) (below c) p q = ground arith
lt_number_trans (below a) (below b) (infinite c) p q = ground arith
lt_number_trans (below a) (infinite b) (plus c) p q = ground arith
lt_number_trans (below a) (infinite b) (below c) p q = ground arith
lt_number_trans (below a) (infinite b) (infinite c) p q = ground arith
lt_number_trans (infinite a) (plus b) (plus c) p q = ground arith
lt_number_trans (infinite a) (plus b) (below c) p q = ground arith
lt_number_trans (infinite a) (plus b) (infinite c) p q = ground arith
lt_number_trans (infinite a) (below b) (plus c) p q = ground arith
lt_number_trans (infinite a) (below b) (below c) p q = ground arith
lt_number_trans (infinite a) (below b) (infinite c) p q = ground arith
lt_number_trans (infinite a) (infinite b) (plus c) p q = ground arith
lt_number_trans (infinite a) (infinite b) (below c) p q = ground arith
lt_number_trans (infinite a) (infinite b) (infinite c) p q = ground arith

pub lt_number_asym : (a b : WireNumber) → lt_number a b ≡ true → lt_number b a ≡ false
unfolding lt_number
lt_number_asym (plus a) (plus b) p = ground arith
lt_number_asym (plus a) (below b) p = ground arith
lt_number_asym (plus a) (infinite b) p = ground arith
lt_number_asym (below a) (plus b) p = ground arith
lt_number_asym (below a) (below b) p = ground arith
lt_number_asym (below a) (infinite b) p = ground arith
lt_number_asym (infinite a) (plus b) p = ground arith
lt_number_asym (infinite a) (below b) p = ground arith
lt_number_asym (infinite a) (infinite b) p = ground arith
