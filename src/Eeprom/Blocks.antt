-- ===== src/Eeprom/Blocks.antt =====
-- Writing a block and reading it back: the frame on the bus, the check, and the array bounds.
use mathlib.Core.List.{append_assoc}
use pico_drone.Common.{
  ℕ, ◌+◌, ◌/◌, ◌%◌, ◌^◌, ◌≤◌, ◌<◌, ◌≡◌, ◌≢◌, ◌⊎◌, refl, sym, ap, ◌∙◌, inl, inr, some, none, List,
  [], ◌∷◌, ◌++◌, arith, ltb, ◌==◌, true, false, if◌then◌else◌, Bool-cases, bit_or, u8, u16, u32,
  ◌<<◌, ◌>>>◌, length, set, take, drop, blit, replicate, length-append, length-take,
}
use pico_drone.Common.Bits.{bit_or_join}
use pico_drone.Common.Blit.{blit-blit, set-eq-blit}
use pico_drone.Common.Append.{blit_start, take-append, get_or-append}
use pico_drone.I2c.{Bus}
use pico_drone.Eeprom.{
  crc16, block_size, address_bytes, frame, write_to_memory, checked, read_from_memory,
}
use pico_drone.Eeprom.Crc.{crc16-lt, crc16_detects}

-- The CRC as it stands behind a block.
abbrev pub crc_bytes : ℕ → List ℕ
crc_bytes crc = u8 (crc >>> 8) ∷ u8 crc ∷ []

-- One more byte behind a copy to the start.
blit_more :
    (xs ys : List ℕ) (k v : ℕ) → k ≡ length ys → set (blit xs 0 ys) k v ≡ blit xs 0 (ys ++ v ∷ [])
blit_more xs ys k v e = set-eq-blit (blit xs 0 ys) k v ∙ blit-blit xs 0 ys (v ∷ []) k (omega arith)

frame_lem :
    (stack bytes : List ℕ) (memory_address n : ℕ)
    → n + 4 ≤ length stack
    → n ≤ length bytes
    → frame stack memory_address bytes n
      ≡ address_bytes memory_address ++ (take n bytes ++ crc_bytes (crc16 (take n bytes)))
unfolding frame
frame_lem stack bytes memory_address n fits enough =
    let crc = crc16 (take n bytes) in
    let hi = u8 (memory_address >>> 8) in
    let lo = u8 memory_address in
    let ds = take n bytes in
    let size : length ds ≡ n = omega (arith, length-take n bytes) in
    let whole : List ℕ = (hi ∷ lo ∷ ds ++ u8 (crc >>> 8) ∷ []) ++ u8 crc ∷ [] in
    let parts : whole ≡ hi ∷ lo ∷ (ds ++ crc_bytes crc) =
      ap (λ l. hi ∷ lo ∷ l) (append_assoc ds (u8 (crc >>> 8) ∷ []) (u8 crc ∷ [])) in
    let wide : length whole ≡ n + 4 =
      ap length parts ∙ omega (arith, length-append ds (crc_bytes crc), size) in
    rw
      (
        set-eq-blit stack 0 hi,
        blit_more stack (hi ∷ []) 1 lo refl,
        blit-blit stack 0 (hi ∷ lo ∷ []) ds 2 refl,
        blit_more stack (hi ∷ lo ∷ ds) (n + 2) (u8 (crc >>> 8)) (omega (arith, size)),
        blit_more stack (hi ∷ lo ∷ ds ++ u8 (crc >>> 8) ∷ []) (n + 3) (u8 crc)
            (omega (arith, size, length-append ds (u8 (crc >>> 8) ∷ []))),
      )
      (ap (take (n + 4)) (blit_start stack whole (omega (arith, wide)))
        ∙ take-append (n + 4) whole (drop (length whole) stack) (omega (arith, wide))
        ∙ parts)

-- What the check makes of a block with the CRC bytes of `crc`.
checked_lem :
    (out ds rest : List ℕ) (n crc : ℕ)
    → n ≡ length ds
    → crc < 2 ^ 16
    → checked (ds ++ (crc_bytes crc ++ rest)) out n
      ≡ (if crc == crc16 ds then blit out 0 ds else blit out 0 (replicate n 0))
unfolding checked
checked_lem out ds rest n crc e small =
    let stored : u16 (bit_or (u8 (crc >>> 8) << 8) (u8 crc)) ≡ crc =
      omega (arith, bit_or_join 8 (crc / 2 ^ 8 % 2 ^ 8) (crc % 2 ^ 8) (omega arith)) in
    rw
      (
        get_or-append ds (crc_bytes crc ++ rest) n 0 0 (omega arith),
        get_or-append ds (crc_bytes crc ++ rest) (n + 1) 1 0 (omega arith),
        take-append n ds (crc_bytes crc ++ rest) e,
        stored,
      )
      (elim (Bool-cases (crc == crc16 ds)) [ inl same ↦ rw same refl | inr other ↦ rw other refl ])

module _ {Dev : Type 0} (bus : Bus Dev) (device_address : ℕ) where
  read_lem :
      (stack : List ℕ) (dev : Dev) (memory_address : ℕ) (out bytes : List ℕ) (n : ℕ)
      → length stack ≡ block_size
      → n + 2 ≤ block_size
      → n ≤ length out
      → length bytes ≡ n + 2
      → (bus.read
          (bus.write dev device_address (address_bytes memory_address))
          device_address
          (n + 2)).0
        ≡ bytes
      → read_from_memory bus device_address true stack dev memory_address out n
        ≡ some (
          checked (bytes ++ drop (n + 2) stack) out n,
          (bus.read
              (bus.write dev device_address (address_bytes memory_address))
              device_address
              (n + 2)).1,
        )
  unfolding read_from_memory
  read_lem stack dev memory_address out bytes n full fits room size e =
      let in_block : ltb block_size (u32 (n + 2)) ≡ false = ground arith in
      let in_out : ltb (length out) n ≡ false = ground arith in
      let in_stack : ltb (length stack) (n + 2) ≡ false = ground arith in
      let copied : blit stack 0 bytes ≡ bytes ++ drop (n + 2) stack =
        blit_start stack bytes (omega arith) ∙ ap (λ k. bytes ++ drop k stack) size in
      rw (in_block, in_out, in_stack, e, copied) refl

if_same : (a : ℕ) (x y : List ℕ) → (if a == a then x else y) ≡ x
if_same a x y = ground arith

if_other : (a b : ℕ) (x y : List ℕ) → a ≢ b → (if a == b then x else y) ≡ y
if_other a b x y ne = ground arith

-- What an EEPROM of 64-byte pages promises: bytes written from an address on, inside one page, are
-- what a read from that address delivers.
abbrev pub Keeps : {Dev : Type 0} → Bus Dev → ℕ → Type 0
Keeps {Dev} bus device_address =
    (dev : Dev) (memory_address : ℕ) (bytes : List ℕ)
    → memory_address < 2 ^ 16
    → memory_address % 64 + length bytes ≤ 64
    → (bus.read
        (bus.write (bus.write dev device_address (address_bytes memory_address ++ bytes))
          device_address (address_bytes memory_address))
        device_address (length bytes)).0
      ≡ bytes

write_lem :
    {Dev : Type 0} (bus : Bus Dev) (device_address : ℕ) (stack : List ℕ) (dev : Dev)
    (memory_address : ℕ) (bytes : List ℕ) (n : ℕ)
    → length stack ≡ block_size
    → n ≤ 60
    → n ≤ length bytes
    → write_to_memory bus device_address true stack dev memory_address bytes n
      ≡ some (
          bus.write dev device_address
            (address_bytes memory_address ++ (take n bytes ++ crc_bytes (crc16 (take n bytes)))))
unfolding write_to_memory
write_lem bus device_address stack dev memory_address bytes n full small enough =
    let in_block : ltb block_size (u32 (n + 2)) ≡ false = ground arith in
    let in_bytes : ltb (length bytes) n ≡ false = ground arith in
    let in_stack : ltb (length stack) (n + 4) ≡ false = ground arith in
    rw (in_block, in_bytes, in_stack, frame_lem stack bytes memory_address n (omega arith) enough)
      refl

-- On an EEPROM that keeps what is written inside one 64-byte page, and with the mutex got: a block
-- of at most 60 bytes that stands with its CRC inside one page is written and read back with every
-- access inside the arrays, and the reader's array then starts with the bytes that were written.
pub write_to_memory-read_from_memory :
    {Dev : Type 0} (bus : Bus Dev) (device_address : ℕ) (stack stack' : List ℕ) (dev : Dev)
    (memory_address : ℕ) (bytes out : List ℕ) (n : ℕ)
    → Keeps bus device_address
    → length stack ≡ block_size
    → length stack' ≡ block_size
    → memory_address < 2 ^ 16
    → memory_address % 64 + n + 2 ≤ 64
    → n ≤ 60
    → n ≤ length bytes
    → n ≤ length out
    → (written : Dev) × (read : Dev) × (write_to_memory bus device_address true stack dev
          memory_address bytes n
        ≡ some written)
      × (read_from_memory bus device_address true stack' written memory_address out n
          ≡ some (blit out 0 (take n bytes), read))
write_to_memory-read_from_memory {Dev} bus device_address stack stack' dev memory_address bytes out
      n keeps full full' wide page small enough room =
    (
      written,
      (bus.read (bus.write written device_address (address_bytes memory_address)) device_address
          (n + 2)).1,
      write_lem bus device_address stack dev memory_address bytes n full small enough,
      read_lem bus device_address stack' written memory_address out block n full' (omega arith) room
            size
            (ap
                (λ k.
                  (bus.read (bus.write written device_address (address_bytes memory_address))
                    device_address k).0)
                (sym size)
              ∙ keeps dev memory_address block wide (omega (arith, size)))
          ∙ ap
              (λ l. some (
                l,
                (bus.read (bus.write written device_address (address_bytes memory_address))
                    device_address (n + 2)).1,
              ))
              (ap (λ l. checked l out n)
                  (append_assoc ds (crc_bytes (crc16 ds)) (drop (n + 2) stack'))
                ∙ checked_lem out ds (drop (n + 2) stack') n (crc16 ds)
                    (omega (arith, length-take n bytes)) (crc16-lt ds)
                ∙ if_same (crc16 ds) (blit out 0 ds) (blit out 0 (replicate n 0))),
    )
  where
    ds : List ℕ
    ds = take n bytes

    block : List ℕ
    block = ds ++ crc_bytes (crc16 ds)

    written : Dev
    written = bus.write dev device_address (address_bytes memory_address ++ block)

    size : length block ≡ n + 2
    size = omega (arith, length-append ds (crc_bytes (crc16 ds)), length-take n bytes)

-- With the mutex got and room for the `n` bytes, at most 62: if the bus delivers a block in which
-- one byte differs from the block that its CRC was computed of, the reader's array is cleared and
-- the block is not delivered.
pub read_from_memory_corrupted :
    {Dev : Type 0} (bus : Bus Dev) (device_address : ℕ) (stack : List ℕ) (dev : Dev)
    (memory_address : ℕ) (out xs ys : List ℕ) (x y n : ℕ)
    → length stack ≡ block_size
    → n ≤ 62
    → n ≤ length out
    → n ≡ length (xs ++ y ∷ ys)
    → x < 256
    → y < 256
    → x ≢ y
    → (bus.read
        (bus.write dev device_address (address_bytes memory_address))
        device_address
        (n + 2)).0
      ≡ (xs ++ y ∷ ys) ++ crc_bytes (crc16 (xs ++ x ∷ ys))
    → (read : Dev) × (read_from_memory bus device_address true stack dev memory_address out n
        ≡ some (blit out 0 (replicate n 0), read))
read_from_memory_corrupted bus device_address stack dev memory_address out xs ys x y n full small
      room e p q changed delivered =
    let stored = crc16 (xs ++ x ∷ ys) in
    let bytes = xs ++ y ∷ ys in
    let after =
      (bus.read (bus.write dev device_address (address_bytes memory_address)) device_address
        (n + 2)).1 in
    (
      after,
      read_lem bus device_address stack dev memory_address out (bytes ++ crc_bytes stored) n full
            (omega arith) room (omega (arith, length-append bytes (crc_bytes stored))) delivered
          ∙ ap (λ l. some (l, after))
              (ap (λ l. checked l out n)
                  (append_assoc bytes (crc_bytes stored) (drop (n + 2) stack))
                ∙ checked_lem out bytes (drop (n + 2) stack) n stored e (crc16-lt (xs ++ x ∷ ys))
                ∙ if_other stored (crc16 bytes) (blit out 0 bytes) (blit out 0 (replicate n 0))
                    (crc16_detects xs ys x y p q changed)),
    )

-- With the mutex got, a write of 61 or 62 bytes passes the guard and runs outside an array:
-- address, data and CRC do not fit in the 64 bytes of `buffer`. So does a write of the two largest
-- lengths of 32 bits, for which the sum of the guard wraps. A write of any other length above 62
-- does nothing.
pub write_to_memory_overruns :
    {Dev : Type 0} (bus : Bus Dev) (device_address : ℕ) (stack : List ℕ) (dev : Dev)
    (memory_address : ℕ) (bytes : List ℕ) (n m : ℕ)
    → length stack ≡ block_size
    → n < 2 ^ 32
    → ((60 < n) × (n ≤ 62)) ⊎ (2 ^ 32 ≤ n + 2)
    → 62 < m
    → m + 2 < 2 ^ 32
    → (write_to_memory bus device_address true stack dev memory_address bytes n ≡ none)
      × (write_to_memory bus device_address true stack dev memory_address bytes m ≡ some dev)
unfolding write_to_memory
write_to_memory_overruns bus device_address stack dev memory_address bytes n m full size over
      rejected fits =
    let in_block : ltb block_size (u32 (n + 2)) ≡ false = elim over [
      | inl both ↦ ground (arith, both.0, both.1)
      | inr wraps ↦ ground (arith, wraps)
    ] in
    let past : ltb (length stack) (n + 4) ≡ true = elim over [
      | inl both ↦ ground (arith, both.0, both.1)
      | inr wraps ↦ ground (arith, wraps)
    ] in
    let long : ltb block_size (u32 (m + 2)) ≡ true = ground arith in
    (
      elim (Bool-cases (ltb (length bytes) n)) [
        | inl short ↦ rw (in_block, short) refl
        | inr enough ↦ rw (in_block, enough, past) refl
      ],
      rw long refl,
    )
