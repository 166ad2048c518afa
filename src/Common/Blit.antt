-- ===== src/Common/Blit.antt =====
-- `memcpy` into an array: what is read back from the written range, and from outside it.
use Prim.Native.Nat.{ℕ, zero, suc, ◌+◌, ◌≤◌, ◌<◌}
use mathlib.Core.Path.{◌≡◌, refl, ap, ◌∙◌}
use mathlib.Core.List.{List, [], ◌∷◌, ◌++◌}
use native.Mathlib.Omega.{arith}
use pico_drone.Common.Lists.{length, get_elem?, set, take, drop, blit, length-append}

module _ {ℓ} {A : Type ℓ} where
  -- Below the written range nothing changes.
  pub get_elem?-blit_before :
      (xs : List A) (i : ℕ) (ys : List A) (j : ℕ)
      → j < i
      → get_elem? (blit xs i ys) j ≡ get_elem? xs j
  get_elem?-blit_before [] i ys j h = refl
  get_elem?-blit_before (x ∷ xs) zero ys j h = elim h [ ]
  get_elem?-blit_before (x ∷ xs) (suc i) ys zero h = refl
  get_elem?-blit_before (x ∷ xs) (suc i) ys (suc j) h =
      get_elem?-blit_before xs i ys j (omega arith)

  -- Behind the written range nothing changes.
  pub get_elem?-blit_after :
      (xs : List A) (i : ℕ) (ys : List A) (j : ℕ)
      → i + length ys ≤ j
      → get_elem? (blit xs i ys) j ≡ get_elem? xs j
  get_elem?-blit_after [] i ys j h = refl
  get_elem?-blit_after (x ∷ xs) zero [] j h = refl
  get_elem?-blit_after (x ∷ xs) zero (y ∷ ys) zero h = absurd (omega arith)
  get_elem?-blit_after (x ∷ xs) zero (y ∷ ys) (suc j) h =
      get_elem?-blit_after xs zero ys j (omega arith)
  get_elem?-blit_after (x ∷ xs) (suc i) ys zero h = absurd (omega arith)
  get_elem?-blit_after (x ∷ xs) (suc i) ys (suc j) h = get_elem?-blit_after xs i ys j (omega arith)

  -- In the written range the new elements stand.
  pub get_elem?-blit_at :
      (xs : List A) (i : ℕ) (ys : List A) (j k : ℕ)
      → k ≡ i + j
      → j < length ys
      → i + length ys ≤ length xs
      → get_elem? (blit xs i ys) k ≡ get_elem? ys j
  get_elem?-blit_at [] i [] j k e h fits = elim h [ ]
  get_elem?-blit_at [] i (y ∷ ys) j k e h fits = absurd (omega arith)
  get_elem?-blit_at (x ∷ xs) zero [] j k e h fits = elim h [ ]
  get_elem?-blit_at (x ∷ xs) zero (y ∷ ys) zero zero e h fits = refl
  get_elem?-blit_at (x ∷ xs) zero (y ∷ ys) zero (suc k) e h fits = absurd (omega arith)
  get_elem?-blit_at (x ∷ xs) zero (y ∷ ys) (suc j) zero e h fits = absurd (omega arith)
  get_elem?-blit_at (x ∷ xs) zero (y ∷ ys) (suc j) (suc k) e h fits =
      get_elem?-blit_at xs zero ys j k (omega arith) (omega arith) (omega arith)
  get_elem?-blit_at (x ∷ xs) (suc i) ys j zero e h fits = absurd (omega arith)
  get_elem?-blit_at (x ∷ xs) (suc i) ys j (suc k) e h fits =
      get_elem?-blit_at xs i ys j k (omega arith) h (omega arith)

  -- One copy behind another is the copy of both.
  pub blit-blit :
      (xs : List A) (i : ℕ) (ys zs : List A) (j : ℕ)
      → j ≡ i + length ys
      → blit (blit xs i ys) j zs ≡ blit xs i (ys ++ zs)
  blit-blit [] i ys zs j e = refl
  blit-blit (x ∷ xs) zero [] zs zero e = refl
  blit-blit (x ∷ xs) zero [] zs (suc j) e = absurd (omega arith)
  blit-blit (x ∷ xs) zero (y ∷ ys) zs zero e = absurd (omega arith)
  blit-blit (x ∷ xs) zero (y ∷ ys) zs (suc j) e =
      ap (λ l. y ∷ l) (blit-blit xs zero ys zs j (omega arith))
  blit-blit (x ∷ xs) (suc i) ys zs zero e = absurd (omega arith)
  blit-blit (x ∷ xs) (suc i) ys zs (suc j) e =
      ap (λ l. x ∷ l) (blit-blit xs i ys zs j (omega arith))

  -- Storing one element is a copy of length 1.
  pub set-eq-blit : (xs : List A) (i : ℕ) (v : A) → set xs i v ≡ blit xs i (v ∷ [])
  set-eq-blit [] i v = refl
  set-eq-blit (x ∷ []) zero v = refl
  set-eq-blit (x ∷ y ∷ xs) zero v = refl
  set-eq-blit (x ∷ xs) (suc i) v = ap (λ l. x ∷ l) (set-eq-blit xs i v)

  pub get_elem?-take :
      (n : ℕ) (xs : List A) (j : ℕ) → j < n → get_elem? (take n xs) j ≡ get_elem? xs j
  get_elem?-take zero xs j h = elim h [ ]
  get_elem?-take (suc n) [] j h = refl
  get_elem?-take (suc n) (x ∷ xs) zero h = refl
  get_elem?-take (suc n) (x ∷ xs) (suc j) h = get_elem?-take n xs j (omega arith)

  pub get_elem?-drop :
      (n : ℕ) (xs : List A) (j k : ℕ) → k ≡ n + j → get_elem? (drop n xs) j ≡ get_elem? xs k
  get_elem?-drop zero xs j k e = ap (get_elem? xs) (omega arith)
  get_elem?-drop (suc n) [] j k e = refl
  get_elem?-drop (suc n) (x ∷ xs) j zero e = absurd (omega arith)
  get_elem?-drop (suc n) (x ∷ xs) j (suc k) e = get_elem?-drop n xs j k (omega arith)

  pub get_elem?-append_left :
      (xs ys : List A) (j : ℕ) → j < length xs → get_elem? (xs ++ ys) j ≡ get_elem? xs j
  get_elem?-append_left [] ys j h = elim h [ ]
  get_elem?-append_left (x ∷ xs) ys zero h = refl
  get_elem?-append_left (x ∷ xs) ys (suc j) h = get_elem?-append_left xs ys j (omega arith)

  pub get_elem?-append_right :
      (xs ys : List A) (j k : ℕ) → k ≡ length xs + j → get_elem? (xs ++ ys) k ≡ get_elem? ys j
  get_elem?-append_right [] ys j k e = ap (get_elem? ys) (omega arith)
  get_elem?-append_right (x ∷ xs) ys j zero e = absurd (omega arith)
  get_elem?-append_right (x ∷ xs) ys j (suc k) e = get_elem?-append_right xs ys j k (omega arith)

  -- The bytes `bytes` stand in `mem` from index `k` on.
  abbrev pub Holds : List A → ℕ → List A → Type ℓ
  Holds mem k bytes = (j : ℕ) → j < length bytes → get_elem? mem (k + j) ≡ get_elem? bytes j

  pub Holds-left : (mem : List A) (k : ℕ) (xs ys : List A) → Holds mem k (xs ++ ys) → Holds mem k xs
  Holds-left mem k xs ys h j lt =
      h j (omega (arith, length-append xs ys)) ∙ get_elem?-append_left xs ys j lt

  pub Holds-right :
      (mem : List A) (k m : ℕ) (xs ys : List A)
      → m ≡ k + length xs
      → Holds mem k (xs ++ ys)
      → Holds mem m ys
  Holds-right mem k m xs ys e h j lt =
      ap (get_elem? mem) (omega arith)
      ∙ h (length xs + j) (omega (arith, length-append xs ys))
      ∙ get_elem?-append_right xs ys j (length xs + j) refl

  pub Holds-blit :
      (mem : List A) (k : ℕ) (bytes : List A)
      → k + length bytes ≤ length mem
      → Holds (blit mem k bytes) k bytes
  Holds-blit mem k bytes fits j lt = get_elem?-blit_at mem k bytes j (k + j) refl lt fits

  pub drop-blit : (n i : ℕ) (xs ys : List A) → i + length ys ≤ n → drop n (blit xs i ys) ≡ drop n xs
  drop-blit zero zero [] [] h = refl
  drop-blit zero zero [] (y ∷ ys) h = refl
  drop-blit zero zero (x ∷ xs) [] h = refl
  drop-blit zero zero (x ∷ xs) (y ∷ ys) h = absurd (omega arith)
  drop-blit zero (suc i) xs ys h = absurd (omega arith)
  drop-blit (suc n) i [] ys h = refl
  drop-blit (suc n) zero (x ∷ xs) [] h = refl
  drop-blit (suc n) zero (x ∷ xs) (y ∷ ys) h = drop-blit n zero xs ys (omega arith)
  drop-blit (suc n) (suc i) (x ∷ xs) ys h = drop-blit n i xs ys (omega arith)

  pub drop-set : (n i : ℕ) (xs : List A) (v : A) → i < n → drop n (set xs i v) ≡ drop n xs
  drop-set zero i xs v h = elim h [ ]
  drop-set (suc n) i [] v h = refl
  drop-set (suc n) zero (x ∷ xs) v h = refl
  drop-set (suc n) (suc i) (x ∷ xs) v h = drop-set n i xs v (omega arith)
