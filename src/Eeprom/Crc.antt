-- ===== src/Eeprom/Crc.antt =====
-- The CRC: its width, and that it tells apart blocks that differ in one byte.
use pico_drone.Common.{
  ℕ, zero, suc, ◌+◌, ◌*◌, ◌/◌, ◌%◌, ◌^◌, ◌<◌, ◌≡◌, ◌≢◌, sym, ap, ◌∙◌, inl, inr, List, [], ◌∷◌, ◌++◌,
  arith, ltb, ◌==◌, true, false, if◌then◌else◌, Bool-cases, bit_xor, u16,
}
use pico_drone.Common.Xor.{bit_xor-lt, bit_xor_undo, bit_xor_comm, bit_xor_top}
use pico_drone.Eeprom.{crc_bit, crc_bits, crc_byte, crc_from, crc16}

crc_bit-lt : (crc : ℕ) → crc < 2 ^ 16 → crc_bit crc < 2 ^ 16
unfolding crc_bit
crc_bit-lt crc h = ground (arith, bit_xor-lt 16 (crc / 2) 0xA001 (omega arith) (omega arith))

-- The round backwards: its top bit tells what the lowest bit was.
abbrev uncrc_bit : ℕ → ℕ
uncrc_bit crc = if ltb crc (2 ^ 15) then crc * 2 else bit_xor crc 0xA001 * 2 + 1

crc_bit_undo : (crc : ℕ) → crc < 2 ^ 16 → uncrc_bit (crc_bit crc) ≡ crc
unfolding crc_bit
crc_bit_undo crc h =
    let top : bit_xor (crc / 2) 0xA001 ≡ 2 ^ 15 + bit_xor (crc / 2) 0x2001 =
      bit_xor_top 15 (crc / 2) 0x2001 (omega arith) (omega arith) in
    let back : bit_xor (bit_xor (crc / 2) 0xA001) 0xA001 ≡ crc / 2 =
      bit_xor_undo 16 (crc / 2) 0xA001 (omega arith) (omega arith) in
    elim (Bool-cases (crc % 2 == 1)) [
      | inl odd ↦
          let high : ltb (bit_xor (crc / 2) 0xA001) (2 ^ 15) ≡ false = ground arith in
          rw (odd, high) (ground arith)
      | inr even ↦
          let low : ltb (crc / 2) (2 ^ 15) ≡ true = ground arith in rw (even, low) (ground arith)
    ]

crc_bits-lt : (n crc : ℕ) → crc < 2 ^ 16 → crc_bits n crc < 2 ^ 16
unfolding crc_bits
crc_bits-lt zero crc h = h
crc_bits-lt (suc n) crc h = crc_bits-lt n (crc_bit crc) (crc_bit-lt crc h)

crc_bits_injective : (n a b : ℕ) → a < 2 ^ 16 → b < 2 ^ 16 → crc_bits n a ≡ crc_bits n b → a ≡ b
unfolding crc_bits
crc_bits_injective zero a b p q e = e
crc_bits_injective (suc n) a b p q e =
    sym (crc_bit_undo a p)
    ∙ ap uncrc_bit
        (crc_bits_injective n (crc_bit a) (crc_bit b) (crc_bit-lt a p) (crc_bit-lt b q) e)
    ∙ crc_bit_undo b q

crc_byte-lt : (crc byte : ℕ) → crc < 2 ^ 16 → crc_byte crc byte < 2 ^ 16
unfolding crc_byte
crc_byte-lt crc byte h =
    crc_bits-lt 8 (bit_xor crc (u16 byte)) (bit_xor-lt 16 crc (u16 byte) h (omega arith))

crc_byte_injective :
    (a b byte : ℕ) → a < 2 ^ 16 → b < 2 ^ 16 → crc_byte a byte ≡ crc_byte b byte → a ≡ b
unfolding crc_byte
crc_byte_injective a b byte p q e =
    sym (bit_xor_undo 16 a (u16 byte) p (omega arith))
    ∙ ap (λ x. bit_xor x (u16 byte))
        (crc_bits_injective 8 (bit_xor a (u16 byte)) (bit_xor b (u16 byte))
          (bit_xor-lt 16 a (u16 byte) p (omega arith)) (bit_xor-lt 16 b (u16 byte) q (omega arith))
          e)
    ∙ bit_xor_undo 16 b (u16 byte) q (omega arith)

crc_byte_tells :
    (crc x y : ℕ) → crc < 2 ^ 16 → x < 2 ^ 16 → y < 2 ^ 16 → crc_byte crc x ≡ crc_byte crc y → x ≡ y
unfolding crc_byte
crc_byte_tells crc x y h p q e =
    let small : (z : ℕ) → z < 2 ^ 16 → u16 z ≡ z = λ z lt. omega arith in
    let flip : (z : ℕ) → z < 2 ^ 16 → bit_xor (bit_xor crc z) crc ≡ z =
      λ z lt. ap (λ v. bit_xor v crc) (bit_xor_comm 16 crc z h lt) ∙ bit_xor_undo 16 z crc lt h in
    sym (flip x p)
    ∙ ap (λ v. bit_xor v crc)
        (ap (bit_xor crc) (sym (small x p))
          ∙ crc_bits_injective 8 (bit_xor crc (u16 x)) (bit_xor crc (u16 y))
              (bit_xor-lt 16 crc (u16 x) h (omega arith))
              (bit_xor-lt 16 crc (u16 y) h (omega arith)) e
          ∙ ap (bit_xor crc) (small y q))
    ∙ flip y q

crc_from-lt : (crc : ℕ) (bytes : List ℕ) → crc < 2 ^ 16 → crc_from crc bytes < 2 ^ 16
unfolding crc_from
crc_from-lt crc [] h = h
crc_from-lt crc (x ∷ xs) h = crc_from-lt (crc_byte crc x) xs (crc_byte-lt crc x h)

crc_from_injective :
    (a b : ℕ) (bytes : List ℕ)
    → a < 2 ^ 16
    → b < 2 ^ 16
    → crc_from a bytes ≡ crc_from b bytes
    → a ≡ b
unfolding crc_from
crc_from_injective a b [] p q e = e
crc_from_injective a b (x ∷ xs) p q e =
    crc_byte_injective a b x p q (
      crc_from_injective (crc_byte a x) (crc_byte b x) xs (crc_byte-lt a x p) (crc_byte-lt b x q) e)

crc_from_changed :
    (crc : ℕ) (xs ys : List ℕ) (x y : ℕ)
    → crc < 2 ^ 16
    → x < 2 ^ 16
    → y < 2 ^ 16
    → crc_from crc (xs ++ x ∷ ys) ≡ crc_from crc (xs ++ y ∷ ys)
    → x ≡ y
unfolding crc_from
crc_from_changed crc [] ys x y h p q e = crc_byte_tells crc x y h p q (
    crc_from_injective (crc_byte crc x) (crc_byte crc y) ys (crc_byte-lt crc x h)
      (crc_byte-lt crc y h) e)
crc_from_changed crc (z ∷ zs) ys x y h p q e =
    crc_from_changed (crc_byte crc z) zs ys x y (crc_byte-lt crc z h) p q e

pub crc16-lt : (bytes : List ℕ) → crc16 bytes < 2 ^ 16
unfolding crc16
crc16-lt bytes = crc_from-lt 0xFFFF bytes (omega arith)

-- Two blocks that differ in one byte, wherever it stands, have different CRCs.
pub crc16_detects :
    (xs ys : List ℕ) (x y : ℕ)
    → x < 256
    → y < 256
    → x ≢ y
    → crc16 (xs ++ x ∷ ys) ≢ crc16 (xs ++ y ∷ ys)
unfolding crc16
crc16_detects xs ys x y p q other e =
    other (crc_from_changed 0xFFFF xs ys x y (omega arith) (omega arith) (omega arith) e)
