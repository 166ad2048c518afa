-- ===== src/Dns/Name.antt =====
-- The loop over the labels of a question: that it ends, and what it makes of a well-formed name.
use pico_drone.Common.{
  ℕ, zero, suc, ◌+◌, ◌≤◌, ◌<◌, ◌≡◌, ap, ◌∙◌, inl, inr, some, true, false, List, [], ◌∷◌, ◌++◌,
  arith, ltb, ◌==◌, Bool-cases, length, get_elem?, get_or, get_elem?-some, length-append,
}
use pico_drone.Common.Blit.{Holds, Holds-right}
use pico_drone.Dns.{
  Walk, name_end, invalid, overrun, stuck, walk, rounds, header_size, max_dns_msg_size,
}

-- The loop ended, at a position that is not before `i`.
abbrev pub Ended : ℕ → Walk → Type 0
Ended i (name_end j) = i ≤ j
Ended i invalid = Unit
Ended i overrun = ⊥
Ended i stuck = ⊥

Ended-earlier : (i k : ℕ) (w : Walk) → i ≤ k → Ended k w → Ended i w
Ended-earlier i k (name_end j) le h = omega arith
Ended-earlier i k invalid le h = h
Ended-earlier i k overrun le h = h
Ended-earlier i k stuck le h = h

pub walk_byte :
    (rounds : ℕ) (msg : List ℕ) (end i b : ℕ)
    → i < end
    → get_elem? msg i ≡ some b
    → walk (suc rounds) msg end i ≡ elim (b == 0) [
      | true ↦ name_end (i + 1)
      | false ↦ elim (ltb 63 b) [ true ↦ invalid | false ↦ walk rounds msg end (i + 1 + b) ]
    ]
unfolding walk
walk_byte rounds msg end i b lt e = ground (arith, e)

pub walk_past :
    (rounds : ℕ) (msg : List ℕ) (end i : ℕ) → end ≤ i → walk (suc rounds) msg end i ≡ name_end i
unfolding walk
walk_past rounds msg end i le = ground arith

-- With a round for each byte that is left, and one more, the loop ends without a read behind the
-- array.
pub walk-Ended :
    (rounds : ℕ) (msg : List ℕ) (end i : ℕ)
    → end ≤ length msg
    → 0 < rounds
    → end < i + rounds
    → Ended i (walk rounds msg end i)
walk-Ended zero msg end i fits some_left enough = elim some_left [ ]
walk-Ended (suc rounds) msg end i fits some_left enough = elim (Bool-cases (ltb i end)) [
  | inl more ↦
      let b = get_or msg i 0 in
      rw (walk_byte rounds msg end i b (ground arith) (get_elem?-some msg i 0 (ground arith)))
        (elim (Bool-cases (b == 0)) [
          | inl last ↦ rw last (omega arith)
          | inr label ↦ elim (Bool-cases (ltb 63 b)) [
            | inl long ↦ rw (label, long) tt
            | inr short ↦
                rw (label, short)
                  (Ended-earlier i (i + 1 + b) (walk rounds msg end (i + 1 + b)) (omega arith)
                    (walk-Ended rounds msg end (i + 1 + b) fits (ground arith) (ground arith)))
          ]
        ])
  | inr done ↦ rw (walk_past rounds msg end i (ground arith)) (omega arith)
]

-- A name as it stands in a question: each label behind its length, and a zero.
abbrev pub encode_name : List (List ℕ) → List ℕ
encode_name [] = 0 ∷ []
encode_name (l ∷ ls) = length l ∷ l ++ encode_name ls

abbrev pub AreLabels : List (List ℕ) → Type 0
AreLabels [] = Unit
AreLabels (l ∷ ls) = (0 < length l) × (length l ≤ 63) × AreLabels ls

walk-encode_from :
    (rounds : ℕ) (msg : List ℕ) (end i : ℕ) (ls : List (List ℕ))
    → AreLabels ls
    → length ls < rounds
    → i + length (encode_name ls) ≤ end
    → Holds msg i (encode_name ls)
    → walk rounds msg end i ≡ name_end (i + length (encode_name ls))
walk-encode_from zero msg end i ls good enough fits h = absurd (omega arith)
walk-encode_from (suc rounds) msg end i [] good enough fits h =
    walk_byte rounds msg end i 0 (omega arith)
      (ap (get_elem? msg) (omega arith) ∙ h 0 (omega arith))
walk-encode_from (suc rounds) msg end i (l ∷ ls) (some_byte, short, good) enough fits h =
    walk_byte rounds msg end i (length l) (omega arith)
      (ap (get_elem? msg) (omega arith) ∙ h 0 (omega arith))
    ∙ rw (some_label, fitting)
        (walk-encode_from rounds msg end (i + 1 + length l) ls good (omega arith)
            (omega (arith, length-append l (encode_name ls)))
            (Holds-right msg i (i + 1 + length l) (length l ∷ l) (encode_name ls) (omega arith) h)
          ∙ ap name_end (omega (arith, length-append l (encode_name ls))))
  where
    some_label : (length l == 0) ≡ false
    some_label = ground arith

    fitting : ltb 63 (length l) ≡ false
    fitting = ground arith

more_bytes : (ls : List (List ℕ)) → AreLabels ls → length ls < length (encode_name ls)
more_bytes [] good = omega arith
more_bytes (l ∷ ls) (some_byte, short, good) =
    omega (arith, length-append l (encode_name ls), more_bytes ls good)

-- On a name in labels of 1 to 63 bytes that lies within the received bytes, which are at most 300,
-- the loop ends right behind the name's zero.
pub walk-encode_name :
    (msg : List ℕ) (end : ℕ) (ls : List (List ℕ))
    → AreLabels ls
    → header_size + length (encode_name ls) ≤ end
    → end ≤ max_dns_msg_size
    → Holds msg header_size (encode_name ls)
    → walk rounds msg end header_size ≡ name_end (header_size + length (encode_name ls))
walk-encode_name msg end ls good inside fits h =
    walk-encode_from rounds msg end header_size ls good (omega (arith, more_bytes ls good)) inside h
