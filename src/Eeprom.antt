-- ===== src/Eeprom.antt =====
-- src/src/eeprom/EEPROM.cpp: blocks with a CRC in an EEPROM on the I2C bus. `none` is a read or write
-- outside an array.
pub mod Crc
pub mod Blocks
mod Tests
use pico_drone.Common.{
  ℕ, zero, suc, ◌+◌, ◌-◌, ◌*◌, ◌%◌, ◌^◌, Option, none, some, Bool, true, false, not, ◌||◌, List, [],
  ◌∷◌, ltb, ◌==◌, if◌then◌else◌, bit_or, bit_xor, u8, u16, u32, ◌<<◌, ◌>>>◌, length, get_or, set,
  take, blit, replicate,
}
use pico_drone.I2c.{Bus}

-- One round of the inner loop; `crc & 0x0001` is the lowest bit.
unfoldable pub crc_bit : ℕ → ℕ
crc_bit crc = if crc % 2 == 1 then bit_xor (crc >>> 1) 0xA001 else crc >>> 1

-- The inner loop, with `n` rounds to go.
unfoldable pub crc_bits : ℕ → ℕ → ℕ
crc_bits zero crc = crc
crc_bits (suc n) crc = crc_bits n (crc_bit crc)

unfoldable pub crc_byte : ℕ → ℕ → ℕ
crc_byte crc byte = crc_bits 8 (bit_xor crc (u16 byte))

-- The outer loop from `crc` on.
unfoldable pub crc_from : ℕ → List ℕ → ℕ
crc_from crc [] = crc
crc_from crc (byte ∷ bytes) = crc_from (crc_byte crc byte) bytes

unfoldable pub crc16 : List ℕ → ℕ
crc16 bytes = crc_from 0xFFFF bytes

abbrev pub block_size : ℕ
block_size = 64

abbrev pub address_bytes : ℕ → List ℕ
address_bytes memory_address = u8 (memory_address >>> 8) ∷ u8 memory_address ∷ []

-- What `writeToMemory` hands to the bus: `buffer` as it is filled, from what it held before.
unfoldable pub frame : List ℕ → ℕ → List ℕ → ℕ → List ℕ
frame stack memory_address bytes n =
    let crc = crc16 (take n bytes) in
    let b1 = set stack 0 (u8 (memory_address >>> 8)) in
    let b2 = set b1 1 (u8 memory_address) in
    let b3 = blit b2 2 (take n bytes) in
    let b4 = set b3 (n + 2) (u8 (crc >>> 8)) in let b5 = set b4 (n + 3) (u8 crc) in take (n + 4) b5

-- The array `data` afterwards, which the bytes from the bus go to.
unfoldable pub checked : List ℕ → List ℕ → ℕ → List ℕ
checked buffer out n =
    let stored_crc = u16 (bit_or (get_or buffer n 0 << 8) (get_or buffer (n + 1) 0)) in
    if not (stored_crc == crc16 (take n buffer))
    then blit out 0 (replicate n 0)
    else blit out 0 (take n buffer)

module _ {Dev : Type 0} (bus : Bus Dev) (device_address : ℕ) where
  -- `size_t` has 32 bits, so that the guard wraps. `taken` says whether the mutex is got; `bytes` is the array `data`.
  unfoldable pub write_to_memory : Bool → List ℕ → Dev → ℕ → List ℕ → ℕ → Option Dev
  write_to_memory taken stack dev memory_address bytes n =
      if ltb block_size (u32 (n + 2))
      then some dev
      else if not taken
      then (if ltb (length bytes) n then none else some dev)
      else if ltb (length bytes) n || ltb (length stack) (n + 4)
      then none
      else some (bus.write dev device_address (frame stack memory_address bytes n))

  unfoldable pub read_from_memory : Bool → List ℕ → Dev → ℕ → List ℕ → ℕ → Option (List ℕ × Dev)
  read_from_memory taken stack dev memory_address out n =
      if ltb block_size (u32 (n + 2))
      then some (out, dev)
      else if not taken
      then some (out, dev)
      else if ltb (length out) n || ltb (length stack) (n + 2)
      then none
      else (let dev1 = bus.write dev device_address (address_bytes memory_address) in
          let (bytes, dev2) = bus.read dev1 device_address (n + 2) in
          some (checked (blit stack 0 bytes) out n, dev2))
