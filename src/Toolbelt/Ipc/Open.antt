-- ===== src/Toolbelt/Ipc/Open.antt =====
-- The calls that are open after one settles.
use mx_loom.Common.{ℕ, ◌≡◌, refl, arith, false, ◌==◌, List, [], ◌∷◌, Bool-cases, inl, inr}
use mx_loom.Toolbelt.Ipc.Table.{mem, without}

pub mem-without_same : (n : ℕ) (ms : List ℕ) → mem n (without n ms) ≡ false
mem-without_same n [] = refl
mem-without_same n (m ∷ ms) = elim (Bool-cases (n == m)) [
  | inl e ↦ rw (e, mem-without_same n ms)
  | inr e ↦ rw (e, mem-without_same n ms, e)
]

pub mem-without_other : (n m : ℕ) (ms : List ℕ) → (n == m) ≡ false → mem n (without m ms) ≡ mem n ms
mem-without_other n m [] e = refl
mem-without_other n m (k ∷ ms) e = grind (arith, mem-without_other n m ms e)
