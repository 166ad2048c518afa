-- ===== src/Dhcp/Leases.antt =====
-- src/ipstack/dhcpserver.c: the lease table, with the loop of DHCPDISCOVER, the slot test of
-- DHCPREQUEST and the two computations with the millisecond clock.
pub mod Choice
pub mod Grant
pub mod Expiry
use pico_drone.Common.{
  ℕ, suc, ◌+◌, ◌-◌, ◌*◌, ◌^◌, Option, none, some, Bool, true, false, ◌&&◌, List, [], ◌∷◌, leb, ◌==◌,
  if◌then◌else◌, u16, u32, ◌<<◌, ◌>>>◌, bit_or, get_elem?, set, replicate,
}

abbrev pub base_ip : ℕ
base_ip = 16

abbrev pub max_ip : ℕ
max_ip = 8

abbrev pub mac_len : ℕ
mac_len = 6

-- `DEFAULT_LEASE_TIME_S`
abbrev pub lease_time_s : ℕ
lease_time_s = 24 * 60 * 60

pub record Lease : Type 0 where
  pub mac : List ℕ
  pub expiry : ℕ

abbrev pub no_mac : List ℕ
no_mac = replicate mac_len 0

-- `memcmp (xs, ys, n) == 0` for two arrays of `n` bytes.
abbrev pub bytes_eq : List ℕ → List ℕ → Bool
bytes_eq [] [] = true
bytes_eq [] (y ∷ ys) = false
bytes_eq (x ∷ xs) [] = false
bytes_eq (x ∷ xs) (y ∷ ys) = (x == y) && bytes_eq xs ys

-- `(int32_t) (expiry - now) < 0`: the top bit of the difference of two `uint32_t`.
unfoldable pub is_expired : ℕ → Lease → Bool
is_expired now l =
    let expiry = u32 (bit_or (l.expiry << 16) 0xffff) in leb (2 ^ 31) (u32 (expiry + 2 ^ 32 - now))

-- The `expiry` that a granted request stores.
unfoldable pub expiry_after : ℕ → ℕ
expiry_after now = u16 (u32 (now + lease_time_s * 1000) >>> 16)

-- The body of the DHCPDISCOVER loop for a lease of another client, where `yi` is still
-- `DHCPS_MAX_IP`: the new `yi` and the lease.
unfoldable pub probe : ℕ → ℕ → Lease → ℕ × Lease
probe now i l =
    let yi = if bytes_eq l.mac no_mac then i else max_ip in
    if is_expired now l then (i, record l { mac = no_mac }) else (yi, l)

-- The DHCPDISCOVER loop from index `i` on, with the clock's reading in each round.
unfoldable pub scan : (ℕ → ℕ) → List ℕ → ℕ → ℕ → List Lease → ℕ × List Lease
scan clock mac i yi [] = (yi, [])
scan clock mac i yi (l ∷ ls) = elim (bytes_eq l.mac mac) [
  | true ↦ (i, l ∷ ls)
  | false ↦
      let (yi', l') = if yi == max_ip then probe (clock i) i l else (yi, l) in
      let (yi'', ls') = scan clock mac (suc i) yi' ls in (yi'', l' ∷ ls')
]

-- DHCPREQUEST for slot `yi`: the new table, or `none` for an address in use.
unfoldable pub grant : ℕ → List ℕ → ℕ → List Lease → Option (List Lease)
grant now mac yi ls = elim (get_elem? ls yi) [
  | none ↦ none
  | some l ↦
      if bytes_eq l.mac mac
      then some (set ls yi (record l { expiry = expiry_after now }))
      else if bytes_eq l.mac no_mac
      then some (set ls yi (record { mac = mac; expiry = expiry_after now }))
      else none
]
