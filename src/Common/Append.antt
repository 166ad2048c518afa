-- ===== src/Common/Append.antt =====
-- `memcpy` and `take` on lists that are given in parts.
use Prim.Native.Nat.{ℕ, zero, suc, ◌+◌, ◌≤◌, min}
use mathlib.Core.Path.{◌≡◌, refl, ap, ◌∙◌}
use mathlib.Core.List.{List, [], ◌∷◌, ◌++◌}
use native.Mathlib.Omega.{arith}
use pico_drone.Common.Lists.{length, get_or, take, drop, blit}
use pico_drone.Common.Blit.{Holds, get_elem?-append_left, get_elem?-append_right}

module _ {ℓ} {A : Type ℓ} where
  pub take-drop : (n : ℕ) (xs : List A) → take n xs ++ drop n xs ≡ xs
  take-drop zero xs = refl
  take-drop (suc n) [] = refl
  take-drop (suc n) (x ∷ xs) = ap (λ l. x ∷ l) (take-drop n xs)

  pub take-append : (n : ℕ) (xs ys : List A) → n ≡ length xs → take n (xs ++ ys) ≡ xs
  take-append zero [] ys e = refl
  take-append (suc n) [] ys e = absurd (omega arith)
  take-append zero (x ∷ xs) ys e = absurd (omega arith)
  take-append (suc n) (x ∷ xs) ys e = ap (λ l. x ∷ l) (take-append n xs ys (omega arith))

  pub drop-append : (n : ℕ) (xs ys : List A) → n ≡ length xs → drop n (xs ++ ys) ≡ ys
  drop-append zero [] ys e = refl
  drop-append (suc n) [] ys e = absurd (omega arith)
  drop-append zero (x ∷ xs) ys e = absurd (omega arith)
  drop-append (suc n) (x ∷ xs) ys e = drop-append n xs ys (omega arith)

  pub get_or-append :
      (xs ys : List A) (i j : ℕ) (d : A) → i ≡ length xs + j → get_or (xs ++ ys) i d ≡ get_or ys j d
  get_or-append [] ys i j d e = ap (λ k. get_or ys k d) {x = i} {y = j} (omega arith)
  get_or-append (x ∷ xs) ys zero j d e = absurd (omega arith)
  get_or-append (x ∷ xs) ys (suc i) j d e = get_or-append xs ys i j d (omega arith)

  pub take-take : (k n : ℕ) (xs : List A) → k ≤ n → take k (take n xs) ≡ take k xs
  take-take zero n xs h = refl
  take-take (suc k) zero xs h = absurd (omega arith)
  take-take (suc k) (suc n) [] h = refl
  take-take (suc k) (suc n) (x ∷ xs) h = ap (λ l. x ∷ l) (take-take k n xs (omega arith))

  pub drop-take : (k m n : ℕ) (xs : List A) → n ≡ k + m → drop k (take n xs) ≡ take m (drop k xs)
  drop-take zero m n xs e = ap (λ i. take i xs) {x = n} {y = m} (omega arith)
  drop-take (suc k) m zero xs e = absurd (omega arith)
  drop-take (suc k) zero (suc n) [] e = refl
  drop-take (suc k) (suc m) (suc n) [] e = refl
  drop-take (suc k) m (suc n) (x ∷ xs) e = drop-take k m n xs (omega arith)

  pub take-min : (n m : ℕ) (xs : List A) → n ≡ min (length xs) m → take n xs ≡ take m xs
  take-min zero zero xs e = refl
  take-min zero (suc m) [] e = refl
  take-min zero (suc m) (x ∷ xs) e = absurd (omega arith)
  take-min (suc n) zero xs e = absurd (omega arith)
  take-min (suc n) (suc m) [] e = refl
  take-min (suc n) (suc m) (x ∷ xs) e = ap (λ l. x ∷ l) (take-min n m xs (omega arith))

  pub drop-min : (n m : ℕ) (xs : List A) → n ≡ min (length xs) m → drop n xs ≡ drop m xs
  drop-min zero zero xs e = refl
  drop-min zero (suc m) [] e = refl
  drop-min zero (suc m) (x ∷ xs) e = absurd (omega arith)
  drop-min (suc n) zero xs e = absurd (omega arith)
  drop-min (suc n) (suc m) [] e = refl
  drop-min (suc n) (suc m) (x ∷ xs) e = drop-min n m xs (omega arith)

  -- A copy to the start.
  pub blit_start :
      (xs ys : List A) → length ys ≤ length xs → blit xs 0 ys ≡ ys ++ drop (length ys) xs
  blit_start [] [] h = refl
  blit_start [] (y ∷ ys) h = absurd (omega arith)
  blit_start (x ∷ xs) [] h = refl
  blit_start (x ∷ xs) (y ∷ ys) h = ap (λ l. y ∷ l) (blit_start xs ys (omega arith))

  -- A copy behind the first part.
  pub blit-append :
      (n : ℕ) (xs ys zs : List A)
      → n ≡ length xs
      → length zs ≤ length ys
      → blit (xs ++ ys) n zs ≡ xs ++ (zs ++ drop (length zs) ys)
  blit-append zero [] ys zs e h = blit_start ys zs h
  blit-append (suc n) [] ys zs e h = absurd (omega arith)
  blit-append zero (x ∷ xs) ys zs e h = absurd (omega arith)
  blit-append (suc n) (x ∷ xs) ys zs e h = ap (λ l. x ∷ l) (blit-append n xs ys zs (omega arith) h)

  pub Holds-append : (n : ℕ) (xs ys zs : List A) → n ≡ length xs → Holds (xs ++ (ys ++ zs)) n ys
  Holds-append n xs ys zs e j lt =
      get_elem?-append_right xs (ys ++ zs) j (n + j) (omega arith)
      ∙ get_elem?-append_left ys zs j lt
