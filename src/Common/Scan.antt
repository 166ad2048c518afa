-- ===== src/Common/Scan.antt =====
-- Numbers and keys in texts: what is printed is read back, and a key is found at its first place.
use native.Mathlib.Numerals.{unary_clauses}
use Prim.Native.Nat.{ℕ, zero, suc, ◌+◌, ◌-◌, ◌*◌, ◌/◌, ◌%◌, ◌^◌, ◌≤◌, ◌<◌}
use mathlib.Core.Path.{◌≡◌, refl, ap, ◌∙◌}
use mathlib.Core.Logic.{inl, inr, ◌⊎◌}
use mathlib.Core.Bool.{false}
use mathlib.Core.List.{List, [], ◌∷◌, ◌++◌}
use native.Mathlib.Omega.{arith}
use pico_drone.Common.Lists.{length}
use pico_drone.Common.Tests.{ltb, Bool-cases}
use pico_drone.Common.Text.{
  c_string, strncmp, strstr, isspace, skip_space, skip_sign, is_minus, scan_digits, digits,
  HasNoNul,
}

abbrev pub AreDigits : List ℕ → Type 0
AreDigits [] = Unit
AreDigits (c ∷ cs) = (48 ≤ c) × (c ≤ 57) × AreDigits cs

pub append-AreDigits : (xs ys : List ℕ) → AreDigits xs → AreDigits ys → AreDigits (xs ++ ys)
append-AreDigits [] ys hx hy = hy
append-AreDigits (x ∷ xs) ys (a, b, hx) hy = (a, b, append-AreDigits xs ys hx hy)

pub digits-AreDigits : (fuel n : ℕ) → AreDigits (digits fuel n)
unfolding digits
digits-AreDigits zero n = tt
digits-AreDigits (suc fuel) n = elim (Bool-cases (ltb n 10)) [
  | inl small ↦ rw (small, digits) (ground arith, ground arith, tt)
  | inr large ↦
      rw (large, digits)
        (append-AreDigits (digits fuel (n / 10)) _ (digits-AreDigits fuel (n / 10))
          (omega arith, omega arith, tt))
]

pub scan_digits-append :
    (a : ℕ) (xs ys : List ℕ)
    → AreDigits xs
    → scan_digits a (xs ++ ys) ≡ scan_digits (scan_digits a xs) ys
unfolding scan_digits
scan_digits-append a [] ys h = refl
scan_digits-append a (x ∷ xs) ys (lo, hi, h) =
    ground (arith, scan_digits-append (a * 10 + (x - 48)) xs ys h)

tenth : (f n : ℕ) → n < 10 ^ suc f → n / 10 < 10 ^ f
tenth f n h = let e : 10 ^ suc f ≡ 10 * 10 ^ f = simp unary_clauses (omega arith) in omega arith

-- Printed digits are read back.
pub scan_digits-digits : (fuel n : ℕ) → n < 10 ^ fuel → scan_digits 0 (digits fuel n) ≡ n
unfolding digits scan_digits
scan_digits-digits zero n h = omega arith
scan_digits-digits (suc fuel) n h = elim (Bool-cases (ltb n 10)) [
  | inl small ↦ rw (small, digits) (ground arith)
  | inr large ↦
      let ih = scan_digits-digits fuel (n / 10) (tenth fuel n h) in
      let split =
        scan_digits-append 0 (digits fuel (n / 10)) ((48 + n % 10) ∷ [])
          (digits-AreDigits fuel (n / 10)) in
      rw (large, digits) (split ∙ ap (λ v. scan_digits v ((48 + n % 10) ∷ [])) ih ∙ ground arith)
]

pub c_string-digits : (t : List ℕ) → AreDigits t → c_string t ≡ t
unfolding c_string
c_string-digits [] h = refl
c_string-digits (c ∷ cs) (lo, hi, h) = ground (arith, c_string-digits cs h)

pub skip-digits :
    (t : List ℕ) → AreDigits t → (skip_space t ≡ t) × (skip_sign t ≡ t) × (is_minus t ≡ false)
unfolding skip_space isspace skip_sign
skip-digits [] h = (refl, refl, refl)
skip-digits (c ∷ cs) (lo, hi, h) = (ground arith, ground arith, ground arith)

-- A text begins at no place in the first list, which the second one follows.
abbrev pub NotIn : List ℕ → List ℕ → List ℕ → Type 0
NotIn key [] tail = Unit
NotIn key (c ∷ cs) tail = (strncmp key (c ∷ (cs ++ tail)) ≡ false) × NotIn key cs tail

pub strstr-append :
    (key before tail : List ℕ)
    → NotIn key before tail
    → strstr (before ++ tail) key ≡ strstr tail key
unfolding strstr
strstr-append key [] tail h = refl
strstr-append key (c ∷ cs) tail (not_here, h) = rw (not_here, strstr) (strstr-append key cs tail h)

pub c_string-all : (t : List ℕ) → HasNoNul t → c_string t ≡ t
unfolding c_string
c_string-all [] h = refl
c_string-all (c ∷ cs) (pos, h) = ground (arith, c_string-all cs h)

list-cases : (l : List ℕ) → (l ≡ []) ⊎ ((b : ℕ) × (bs : List ℕ) × (l ≡ b ∷ bs))
list-cases [] = inl refl
list-cases (b ∷ bs) = inr (b, bs, refl)

-- The digits of a number are not empty.
pub digits_cons : (fuel n : ℕ) → (c : ℕ) × (cs : List ℕ) × (digits (suc fuel) n ≡ c ∷ cs)
unfolding digits
digits_cons fuel n = elim (Bool-cases (ltb n 10)) [
  | inl small ↦ ((48 + n), [], rw (small, digits) refl)
  | inr large ↦ elim (list-cases (digits fuel (n / 10))) [
    | inl e ↦ ((48 + n % 10), [], rw (large, e, digits) refl)
    | inr (c, cs, e) ↦ (c, cs ++ (48 + n % 10) ∷ [], rw (large, e, digits) refl)
  ]
]

pub head_lem :
    (t rest : List ℕ)
    → AreDigits t
    → 0 < length t
    → (skip_space (t ++ rest) ≡ t ++ rest)
      × (skip_sign (t ++ rest) ≡ t ++ rest)
      × (is_minus (t ++ rest) ≡ false)
unfolding skip_space isspace skip_sign
head_lem [] rest h some_ = absurd (omega arith)
head_lem (c ∷ cs) rest (lo, hi, h) some_ = (ground arith, ground arith, ground arith)
