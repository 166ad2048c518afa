-- ===== src/Common/Bits.antt =====
-- `|` of a shifted field with a low field as a sum, at every width.
use Prim.Native.Nat.{
  ℕ, zero, suc, ◌+◌, ◌*◌, ◌/◌, ◌^◌, ◌≤◌, ◌<◌, max, bit_or, digits, bit_or-bitwise,
}
use mathlib.Core.Path.{◌≡◌, refl, ap, ◌∙◌}
use native.Mathlib.Omega.{arith}
use native.Mathlib.Nat.{pow-suc}

-- The recursion that `|` stands for, with `n` rounds.
abbrev joined : ℕ → ℕ → ℕ → ℕ
joined n a b = digits (λ y. y) max n a b

joined_zero : (n a : ℕ) → a ≤ n → joined n a 0 ≡ a
joined_zero zero zero h = refl
joined_zero (suc n) zero h = refl
joined_zero zero (suc a) h = absurd (omega arith)
joined_zero (suc n) (suc a) h = omega (arith, joined_zero n (suc a / 2) (omega arith))

joined_sum : (k n a q r : ℕ) → a ≡ q * 2 ^ k → r < 2 ^ k → a ≤ n → joined n a r ≡ q * 2 ^ k + r
joined_sum zero n a q r e fits h =
    ap (joined n a) {y = 0} (omega arith) ∙ joined_zero n a h ∙ omega arith
joined_sum (suc k) zero zero q r e fits h = omega arith
joined_sum (suc k) (suc n) zero q r e fits h = omega arith
joined_sum (suc k) zero (suc a) q r e fits h = absurd (omega arith)
joined_sum (suc k) (suc n) (suc a) q r e fits h = ground (
  arith,
  pow-suc 2 k,
  ap (λ (t : ℕ). q * t) (pow-suc 2 k),
  joined_sum k n (suc a / 2) q (r / 2) (ground (arith, ap (λ (t : ℕ). q * t) (pow-suc 2 k)))
      (omega (arith, pow-suc 2 k)) (omega arith),
)

-- A field above `k` bits joined with one of `k` bits is their sum.
pub bit_or_join : (k q r : ℕ) → r < 2 ^ k → bit_or (q * 2 ^ k) r ≡ q * 2 ^ k + r
bit_or_join k q r fits =
    bit_or-bitwise (q * 2 ^ k) r ∙ joined_sum k (q * 2 ^ k) (q * 2 ^ k) q r refl fits (omega arith)
