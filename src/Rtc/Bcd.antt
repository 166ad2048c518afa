-- ===== src/Rtc/Bcd.antt =====
-- Two decimal digits in a byte.
use pico_drone.Common.{ℕ, ◌+◌, ◌*◌, ◌/◌, ◌%◌, ◌<◌, ◌≡◌, ap, ◌∙◌, arith, u8}
use pico_drone.Common.Bits.{bit_or_join}
use pico_drone.Rtc.{dec_to_bcd, bcd_to_dec}

pub dec_to_bcd_lem : (n : ℕ) → n < 100 → dec_to_bcd n ≡ n / 10 * 16 + n % 10
unfolding dec_to_bcd
dec_to_bcd_lem n h = ap u8 (bit_or_join 4 (n / 10) (n % 10) (omega arith)) ∙ omega arith

pub bcd_to_dec_lem :
    (tens ones : ℕ) → tens < 10 → ones < 10 → bcd_to_dec (tens * 16 + ones) ≡ tens * 10 + ones
unfolding bcd_to_dec
bcd_to_dec_lem tens ones p q = omega arith

-- The two conversions undo each other: on the numbers below 100, and on the bytes whose two halves
-- are decimal digits.
pub dec_to_bcd-bcd_to_dec :
    (n tens ones : ℕ)
    → n < 100
    → tens < 10
    → ones < 10
    → (bcd_to_dec (dec_to_bcd n) ≡ n)
      × (dec_to_bcd (bcd_to_dec (tens * 16 + ones)) ≡ tens * 16 + ones)
dec_to_bcd-bcd_to_dec n tens ones h p q = (
  ap bcd_to_dec (dec_to_bcd_lem n h)
      ∙ bcd_to_dec_lem (n / 10) (n % 10) (omega arith) (omega arith)
      ∙ omega arith,
  ap dec_to_bcd (bcd_to_dec_lem tens ones p q)
      ∙ dec_to_bcd_lem (tens * 10 + ones) (omega arith)
      ∙ omega arith,
)
