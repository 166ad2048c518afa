-- ===== src/Common/Xor.antt =====
-- `^` at variables: its width, and that it undoes itself.
use Prim.Native.Nat.{
  ℕ, zero, suc, ◌+◌, ◌*◌, ◌/◌, ◌%◌, ◌^◌, ◌≤◌, ◌<◌, bit_xor, digits, differ, bit_xor-bitwise,
}
use mathlib.Core.Path.{◌≡◌, refl, sym, ap, ◌∙◌}
use native.Mathlib.Decide.{ℕ_discrete}
use native.Mathlib.Omega.{arith}
use native.Mathlib.Nat.{pow-suc}

-- The recursion that `^` stands for, with `n` rounds.
abbrev xored : ℕ → ℕ → ℕ → ℕ
xored n a b = digits (λ y. y) differ n a b

digit_cases : (a b : ℕ) → a < 2 → b < 2 → differ a b ≡ (a + b) % 2
digit_cases zero b p q = omega arith
digit_cases (suc zero) zero p q = refl
digit_cases (suc zero) (suc zero) p q = refl
digit_cases (suc zero) (suc (suc b)) p q = absurd (omega arith)
digit_cases (suc (suc a)) b p q = absurd (omega arith)

xored_width : (k n a b : ℕ) → a < 2 ^ k → b < 2 ^ k → a ≤ n → xored n a b < 2 ^ k
xored_width zero zero zero b p q h = omega arith
xored_width zero (suc n) zero b p q h = omega arith
xored_width zero n (suc a) b p q h = absurd (omega arith)
xored_width (suc k) zero zero b p q h = omega arith
xored_width (suc k) (suc n) zero b p q h = omega arith
xored_width (suc k) zero (suc a) b p q h = absurd (omega arith)
xored_width (suc k) (suc n) (suc a) b p q h = omega (
  arith,
  pow-suc 2 k,
  digit_cases (suc a % 2) (b % 2) (omega arith) (omega arith),
  xored_width k n (suc a / 2) (b / 2) (omega (arith, pow-suc 2 k)) (omega (arith, pow-suc 2 k))
      (omega arith),
)

pub bit_xor-lt : (k a b : ℕ) → a < 2 ^ k → b < 2 ^ k → bit_xor a b < 2 ^ k
bit_xor-lt k a b p q = omega (arith, bit_xor-bitwise a b, xored_width k a a b p q (omega arith))

xored_zero : (n b : ℕ) → xored n 0 b ≡ b
xored_zero zero b = refl
xored_zero (suc n) b = refl

xored_more : (n a b : ℕ) → a ≤ n → xored (suc n) a b ≡ xored n a b
xored_more n zero b h = sym (xored_zero n b)
xored_more zero (suc a) b h = absurd (omega arith)
xored_more (suc n) (suc a) b h = omega (arith, xored_more n (suc a / 2) (b / 2) (omega arith))

xored_any : (n a b : ℕ) → a ≤ n → xored n a b ≡ bit_xor a b
xored_any n zero b h = xored_zero n b ∙ sym (bit_xor-bitwise 0 b)
xored_any zero (suc a) b h = absurd (omega arith)
xored_any (suc n) (suc a) b h = elim (ℕ_discrete n a) [
  | yes same ↦ ap (λ m. xored (suc m) (suc a) b) same ∙ sym (bit_xor-bitwise (suc a) b)
  | no other ↦ xored_more n (suc a) b (omega arith) ∙ xored_any n (suc a) b (omega arith)
]

-- The equation for the lowest digit.
pub bit_xor_halves : (a b : ℕ) → bit_xor a b ≡ bit_xor (a / 2) (b / 2) * 2 + (a % 2 + b % 2) % 2
bit_xor_halves zero b = omega (arith, bit_xor-bitwise 0 b, bit_xor-bitwise 0 (b / 2))
bit_xor_halves (suc a) b = omega (
  arith,
  bit_xor-bitwise (suc a) b,
  xored_any a (suc a / 2) (b / 2) (omega arith),
  digit_cases (suc a % 2) (b % 2) (omega arith) (omega arith),
)

pub bit_xor_undo : (k a b : ℕ) → a < 2 ^ k → b < 2 ^ k → bit_xor (bit_xor a b) b ≡ a
bit_xor_undo zero zero zero p q = refl
bit_xor_undo zero (suc a) b p q = absurd (omega arith)
bit_xor_undo zero zero (suc b) p q = absurd (omega arith)
bit_xor_undo (suc k) a b p q =
    let v = bit_xor (a / 2) (b / 2) in
    let half : bit_xor a b / 2 ≡ v = omega (arith, bit_xor_halves a b) in
    bit_xor_halves (bit_xor a b) b
    ∙ ap (λ x. bit_xor x (b / 2) * 2 + (bit_xor a b % 2 + b % 2) % 2) half
    ∙ omega (
      arith,
      bit_xor_halves a b,
      bit_xor_undo k (a / 2) (b / 2) (omega (arith, pow-suc 2 k)) (omega (arith, pow-suc 2 k)),
    )

pub bit_xor_comm : (k a b : ℕ) → a < 2 ^ k → b < 2 ^ k → bit_xor a b ≡ bit_xor b a
bit_xor_comm zero zero zero p q = refl
bit_xor_comm zero (suc a) b p q = absurd (omega arith)
bit_xor_comm zero zero (suc b) p q = absurd (omega arith)
bit_xor_comm (suc k) a b p q = omega (
  arith,
  bit_xor_halves a b,
  bit_xor_halves b a,
  bit_xor_comm k (a / 2) (b / 2) (omega (arith, pow-suc 2 k)) (omega (arith, pow-suc 2 k)),
)

-- A top bit in one of the two numbers alone stays.
pub bit_xor_top : (k a c : ℕ) → a < 2 ^ k → c < 2 ^ k → bit_xor a (2 ^ k + c) ≡ 2 ^ k + bit_xor a c
bit_xor_top zero zero zero p q = refl
bit_xor_top zero (suc a) c p q = absurd (omega arith)
bit_xor_top zero zero (suc c) p q = absurd (omega arith)
bit_xor_top (suc k) a c p q =
    let half : (2 ^ suc k + c) / 2 ≡ 2 ^ k + c / 2 = omega (arith, pow-suc 2 k) in
    bit_xor_halves a (2 ^ suc k + c)
    ∙ ap (λ x. bit_xor (a / 2) x * 2 + (a % 2 + (2 ^ suc k + c) % 2) % 2) half
    ∙ omega (
      arith,
      pow-suc 2 k,
      bit_xor_halves a c,
      bit_xor_top k (a / 2) (c / 2) (omega (arith, pow-suc 2 k)) (omega (arith, pow-suc 2 k)),
    )
