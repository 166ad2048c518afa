-- ===== src/Eeprom/Tests.antt =====
-- Runs of the EEPROM's blocks, and its theorems at an input.
use mathlib.Core.List.{append-nil}
use pico_drone.Common.{
  ℕ, ◌≡◌, ◌≢◌, refl, sym, ap, ◌∙◌, inl, some, none, true, List, [], ◌∷◌, ◌++◌, arith, length, take,
  replicate,
}
use pico_drone.Common.Append.{take-append}
use pico_drone.I2c.{Bus}
use pico_drone.Eeprom.{
  crc_bit, crc_bits, crc_byte, crc_from, crc16, write_to_memory, read_from_memory,
}
use pico_drone.Eeprom.Crc.{crc16_detects}
use pico_drone.Eeprom.Blocks.{
  Keeps, crc_bytes, write_to_memory-read_from_memory, read_from_memory_corrupted,
  write_to_memory_overruns,
}

-- A device that keeps the last block behind the two address bytes.
abbrev store : List ℕ → List ℕ → List ℕ
store dev (hi ∷ lo ∷ b ∷ bs) = b ∷ bs
store dev (hi ∷ lo ∷ []) = dev
store dev (hi ∷ []) = dev
store dev [] = dev

abbrev bus : Bus (List ℕ)
bus = record {
  write = λ dev a bytes. store dev bytes;
  read = λ dev a n. (take n dev, dev);
  transaction = λ dev a bytes n. (take n dev, dev);
}

bus-Keeps : Keeps bus 0x50
bus-Keeps dev memory_address [] wide page = refl
bus-Keeps dev memory_address (b ∷ bs) wide page =
    ap (take (length (b ∷ bs))) (sym (append-nil (b ∷ bs)))
    ∙ take-append (length (b ∷ bs)) (b ∷ bs) [] refl

abbrev stack : List ℕ
stack = replicate 64 7

-- The CRC-16 (Modbus) of "123456789" is the check value that the literature gives.
crc16_check : crc16 (49 ∷ 50 ∷ 51 ∷ 52 ∷ 53 ∷ 54 ∷ 55 ∷ 56 ∷ 57 ∷ []) ≡ 0x4B37
unfolding crc16 crc_from crc_byte crc_bits crc_bit
crc16_check = refl

crc16_detects_example : crc16 (1 ∷ 2 ∷ 3 ∷ []) ≢ crc16 (1 ∷ 9 ∷ 3 ∷ [])
crc16_detects_example =
    crc16_detects (1 ∷ []) (3 ∷ []) 2 9 (omega arith) (omega arith) (λ e. ground arith)

write_to_memory-read_from_memory_example :
    (written : List ℕ) × (read : List ℕ) × (write_to_memory bus 0x50 true stack [] 64
        (1 ∷ 2 ∷ 3 ∷ [])
        3
      ≡ some written)
    × (read_from_memory bus 0x50 true stack written 64 (0 ∷ 0 ∷ 0 ∷ 9 ∷ []) 3
        ≡ some (1 ∷ 2 ∷ 3 ∷ 9 ∷ [], read))
write_to_memory-read_from_memory_example =
    write_to_memory-read_from_memory bus 0x50 stack stack [] 64 (1 ∷ 2 ∷ 3 ∷ [])
      (0 ∷ 0 ∷ 0 ∷ 9 ∷ []) 3 bus-Keeps refl refl (omega arith) (omega arith) (omega arith)
      (omega arith) (omega arith)

read_from_memory_corrupted_example :
    (read : List ℕ) × (read_from_memory bus 0x50 true stack
        ((1 ∷ 9 ∷ 3 ∷ []) ++ crc_bytes (crc16 (1 ∷ 2 ∷ 3 ∷ [])))
        64
        (5 ∷ 5 ∷ 5 ∷ [])
        3
      ≡ some (0 ∷ 0 ∷ 0 ∷ [], read))
read_from_memory_corrupted_example =
    read_from_memory_corrupted bus 0x50 stack
      ((1 ∷ 9 ∷ 3 ∷ []) ++ crc_bytes (crc16 (1 ∷ 2 ∷ 3 ∷ []))) 64 (5 ∷ 5 ∷ 5 ∷ []) (1 ∷ []) (3 ∷ [])
      2 9 3 refl (omega arith) (omega arith) refl (omega arith) (omega arith) (λ e. ground arith)
      refl

write_to_memory_overruns_example :
    (write_to_memory bus 0x50 true stack [] 64 (replicate 62 1) 62 ≡ none)
    × (write_to_memory bus 0x50 true stack [] 64 (replicate 62 1) 63 ≡ some [])
write_to_memory_overruns_example =
    write_to_memory_overruns bus 0x50 stack [] 64 (replicate 62 1) 62 63 refl (omega arith)
      (inl (omega arith, omega arith)) (omega arith) (omega arith)
