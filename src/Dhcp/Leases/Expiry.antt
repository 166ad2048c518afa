-- ===== src/Dhcp/Leases/Expiry.antt =====
-- The 16-bit expiry: how long a lease is good, over the wrap of the millisecond clock.
use pico_drone.Common.{ℕ, ◌+◌, ◌^◌, ◌≤◌, ◌<◌, ◌≡◌, true, false, arith, u32}
use pico_drone.Common.Bits.{bit_or_join}
use pico_drone.Dhcp.Leases.{Lease, is_expired, expiry_after}

-- A lease granted at `now` is good for the next 24 hours; 24 hours and 65.536 seconds later it is
-- over, for as long as the 32-bit difference to the clock does not wrap, until 2^31 ms and 24
-- hours.
pub expiry_after-is_expired :
    (now early late : ℕ) (l : Lease)
    → now < 2 ^ 32
    → l.expiry ≡ expiry_after now
    → early ≤ 86_400_000
    → 86_465_535 < late
    → late ≤ 2 ^ 31 + 86_400_000
    → (is_expired (u32 (now + early)) l ≡ false) × (is_expired (u32 (now + late)) l ≡ true)
unfolding is_expired expiry_after
expiry_after-is_expired now early late l small stored good over soon =
    (ground (arith, bit_or_join 16 l.expiry 0xffff), ground (arith, bit_or_join 16 l.expiry 0xffff))
