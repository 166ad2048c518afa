-- ===== src/Common/Ints.antt =====
-- The type `int` of C, and its decimal text.
use Prim.Native.Nat.{ℕ, zero, suc, ◌<◌, ◌^◌}
use mathlib.Core.List.{List, ◌∷◌}
use pico_drone.Common.Text.{print_d}

-- An `int`.
pub data ℤ : Type 0 where
  pos negsuc : ℕ → ℤ

abbrev pub neg : ℕ → ℤ
neg zero = pos 0
neg (suc n) = negsuc n

-- `%d` of an `int`, and the numbers that one holds.
abbrev pub print_int : ℤ → List ℕ
print_int (pos n) = print_d n
print_int (negsuc n) = b'-' ∷ print_d (suc n)

abbrev pub IsInt : ℤ → Type 0
IsInt (pos n) = n < 2 ^ 31
IsInt (negsuc n) = n < 2 ^ 31
