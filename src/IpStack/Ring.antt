-- ===== src/IpStack/Ring.antt =====
-- The ring buffer as a queue: which bytes a state holds, in which order.
use pico_drone.Common.{
  ℕ, suc, ◌+◌, ◌-◌, ◌%◌, ◌^◌, ◌≤◌, ◌<◌, ◌≡◌, ◌⊎◌, inl, inr, refl, sym, ap, ◌∙◌, List, [], ◌∷◌, ◌++◌,
  ltb, arith, Bool-cases, length, get_elem?, take, drop, blit, length-blit, length-take,
  length-drop, length-append,
}
use mathlib.Core.Path.{ap₂}
use mathlib.Core.Option.{some-injective}
use pico_drone.Common.Blit.{
  get_elem?-blit_before, get_elem?-blit_after, get_elem?-blit_at, get_elem?-append_left,
  get_elem?-append_right, get_elem?-take, get_elem?-drop,
}
use pico_drone.IpStack.{Stack, buf_size}

-- The indices are in range, and `wr` stands `count` bytes behind `rd`, round the end.
pub record IsRing (s : Stack) : Type 0 where
  pub size : length s.buffer ≡ buf_size
  pub full : s.count ≤ buf_size
  pub read_at : s.rd < buf_size
  pub write_at : s.wr ≡ (s.rd + s.count) % buf_size
  pub counter : s.dropped < 2 ^ 32

-- The bytes from index `rd` on, round the end of the buffer.
abbrev pub Ringed : List ℕ → ℕ → List ℕ → Type 0
Ringed buffer rd q = (j : ℕ) → j < length q → get_elem? buffer ((rd + j) % buf_size) ≡ get_elem? q j

-- The state is a well-formed ring that holds the queue `q`.
pub record Represents (s : Stack) (q : List ℕ) : Type 0 where
  pub ring : IsRing s
  pub size : length q ≡ s.count
  pub bytes : Ringed s.buffer s.rd q

-- From `b` to `b'` the bytes `bs` are stored from `wr` on, round the end; the others stay.
pub record Stored (b b' : List ℕ) (wr : ℕ) (bs : List ℕ) : Type 0 where
  pub size : length b' ≡ length b
  pub new : Ringed b' wr bs
  pub old :
      (k : ℕ)
      → length bs ≤ k
      → k < buf_size
      → get_elem? b' ((wr + k) % buf_size) ≡ get_elem? b ((wr + k) % buf_size)

outside :
    (xs : List ℕ) (i : ℕ) (ys : List ℕ) (j : ℕ)
    → (j < i) ⊎ (i + length ys ≤ j)
    → get_elem? (blit xs i ys) j ≡ get_elem? xs j
outside xs i ys j (inl before) = get_elem?-blit_before xs i ys j before
outside xs i ys j (inr behind) = get_elem?-blit_after xs i ys j behind

pub Stored-one :
    (b : List ℕ) (wr : ℕ) (bs : List ℕ)
    → length b ≡ buf_size
    → wr + length bs ≤ buf_size
    → Stored b (blit b wr bs) wr bs
Stored-one b wr bs full fits = record {
  size = length-blit b wr bs;
  new = λ j lt. get_elem?-blit_at b wr bs j ((wr + j) % buf_size) (omega arith) lt (omega arith);
  old = λ k le lt. outside b wr bs ((wr + k) % buf_size) (omega arith);
}

module _ (b : List ℕ) (wr first : ℕ) (bs : List ℕ) (full : length b ≡ buf_size)
    (within : wr < buf_size) (e : first ≡ buf_size - wr) (past : first ≤ length bs)
    (fits : length bs ≤ buf_size) where
  abbrev both : List ℕ
  both = blit (blit b wr (take first bs)) 0 (drop first bs)

  new_byte : (j : ℕ) → j < length bs → get_elem? both ((wr + j) % buf_size) ≡ get_elem? bs j
  new_byte j lt = elim (Bool-cases (ltb j first)) [
    | inl low ↦
        get_elem?-blit_after (blit b wr (take first bs)) 0 (drop first bs) ((wr + j) % buf_size)
          (ground (arith, length-drop first bs))
        ∙ get_elem?-blit_at b wr (take first bs) j ((wr + j) % buf_size) (ground arith)
            (ground (arith, length-take first bs)) (ground (arith, length-take first bs))
        ∙ get_elem?-take first bs j (ground arith)
    | inr high ↦
        get_elem?-blit_at (blit b wr (take first bs)) 0 (drop first bs) (j - first)
          ((wr + j) % buf_size) (ground arith) (ground (arith, length-drop first bs))
          (omega (arith, length-drop first bs, length-blit b wr (take first bs)))
        ∙ get_elem?-drop first bs (j - first) j (ground arith)
  ]

  old_byte :
      (k : ℕ)
      → length bs ≤ k
      → k < buf_size
      → get_elem? both ((wr + k) % buf_size) ≡ get_elem? b ((wr + k) % buf_size)
  old_byte k le lt =
      get_elem?-blit_after (blit b wr (take first bs)) 0 (drop first bs) ((wr + k) % buf_size)
        (omega (arith, length-drop first bs))
      ∙ get_elem?-blit_before b wr (take first bs) ((wr + k) % buf_size) (omega arith)

  pub Stored-two : Stored b both wr bs
  Stored-two = record {
    size =
        length-blit (blit b wr (take first bs)) 0 (drop first bs)
        ∙ length-blit b wr (take first bs);
    new = new_byte;
    old = old_byte;
  }

-- Storing behind the queue appends to it.
pub Ringed-append :
    (b b' : List ℕ) (rd count : ℕ) (q bs : List ℕ)
    → rd < buf_size
    → length q ≡ count
    → count + length bs ≤ buf_size
    → Stored b b' ((rd + count) % buf_size) bs
    → Ringed b rd q
    → Ringed b' rd (q ++ bs)
Ringed-append b b' rd count q bs within size room stored held j lt =
    elim (Bool-cases (ltb j count)) [
      | inl low ↦
          ap (get_elem? b') {y = ((rd + count) % buf_size + (j + buf_size - count)) % buf_size}
            (ground arith)
          ∙ stored.old (j + buf_size - count) (ground arith) (ground arith)
          ∙ ap (get_elem? b) (ground arith)
          ∙ held j (ground arith)
          ∙ sym (get_elem?-append_left q bs j (ground arith))
      | inr high ↦
          ap (get_elem? b') {y = ((rd + count) % buf_size + (j - count)) % buf_size} (ground arith)
          ∙ stored.new (j - count) (ground (arith, length-append q bs))
          ∙ sym (get_elem?-append_right q bs (j - count) j (ground arith))
    ]

-- Moving `rd` on drops the front of the queue.
pub Ringed-drop :
    (b : List ℕ) (rd rd' n : ℕ) (q : List ℕ)
    → rd' ≡ (rd + n) % buf_size
    → n ≤ length q
    → Ringed b rd q
    → Ringed b rd' (drop n q)
Ringed-drop b rd rd' n q e le held j lt =
    ap (get_elem? b) {y = (rd + (n + j)) % buf_size} (omega arith)
    ∙ held (n + j) (omega (arith, length-drop n q))
    ∙ sym (get_elem?-drop n q j (n + j) refl)

pub extensional {ℓ} :
    {A : Type ℓ} (xs ys : List A)
    → length xs ≡ length ys
    → ((j : ℕ) → j < length xs → get_elem? xs j ≡ get_elem? ys j)
    → xs ≡ ys
extensional [] [] e h = refl
extensional [] (y ∷ ys) e h = absurd (omega arith)
extensional (x ∷ xs) [] e h = absurd (omega arith)
extensional (x ∷ xs) (y ∷ ys) e h =
    ap₂ (λ a l. a ∷ l) (some-injective _ _ (h 0 (omega arith)))
      (extensional xs ys (omega arith) (λ j lt. h (suc j) (omega arith)))

-- Reading out `n` bytes, in one part or in two, gives the front of the queue.
pub Ringed-take_one :
    (b : List ℕ) (rd n : ℕ) (q : List ℕ)
    → length b ≡ buf_size
    → rd + n ≤ buf_size
    → n ≤ length q
    → Ringed b rd q
    → take n (drop rd b) ≡ take n q
Ringed-take_one b rd n q full fits le held =
    extensional (take n (drop rd b)) (take n q)
      (omega (arith, length-take n (drop rd b), length-drop rd b, length-take n q))
      (λ j lt.
        let below : j < n = omega (arith, length-take n (drop rd b)) in
        get_elem?-take n (drop rd b) j below
        ∙ get_elem?-drop rd b j (rd + j) refl
        ∙ ap (get_elem? b) {y = (rd + j) % buf_size} (omega arith)
        ∙ held j (omega arith)
        ∙ sym (get_elem?-take n q j below))

pub Ringed-take_two :
    (b : List ℕ) (rd first n : ℕ) (q : List ℕ)
    → length b ≡ buf_size
    → rd < buf_size
    → first ≡ buf_size - rd
    → first ≤ n
    → n ≤ length q
    → n ≤ buf_size
    → Ringed b rd q
    → take first (drop rd b) ++ take (n - first) b ≡ take n q
Ringed-take_two b rd first n q full within e past le small held =
    extensional (take first (drop rd b) ++ take (n - first) b) (take n q)
      (omega (arith, size, length-take n q))
      (λ j lt.
        let below : j < n = omega (arith, size) in
        elim (Bool-cases (ltb j first)) [
          | inl low ↦
              get_elem?-append_left (take first (drop rd b)) (take (n - first) b) j
                (ground (arith, front))
              ∙ get_elem?-take first (drop rd b) j (ground arith)
              ∙ get_elem?-drop rd b j (rd + j) refl
              ∙ ap (get_elem? b) {y = (rd + j) % buf_size} (ground arith)
          | inr high ↦
              get_elem?-append_right (take first (drop rd b)) (take (n - first) b) (j - first) j
                (ground (arith, front))
              ∙ get_elem?-take (n - first) b (j - first) (ground arith)
              ∙ ap (get_elem? b) {y = (rd + j) % buf_size} (ground arith)
        ]
        ∙ held j (omega arith)
        ∙ sym (get_elem?-take n q j below))
  where
    front : length (take first (drop rd b)) ≡ first
    front = omega (arith, length-take first (drop rd b), length-drop rd b)

    size : length (take first (drop rd b) ++ take (n - first) b) ≡ n
    size = omega (
      arith,
      length-append (take first (drop rd b)) (take (n - first) b),
      front,
      length-take (n - first) b,
    )
