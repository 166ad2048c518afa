-- ===== src/Dhcp/Leases/Grant.antt =====
-- The slot test of DHCPREQUEST, and what each operation keeps of the table.
use pico_drone.Common.{
  ℕ, ◌≡◌, ◌≢◌, inl, inr, refl, some, true, false, List, [], ◌∷◌, arith, Bool-cases, Option-cases,
  get_elem?, set,
}
use pico_drone.Dhcp.Leases.{Lease, bytes_eq, expiry_after, grant}
use pico_drone.Dhcp.Leases.Choice.{Open}

pub bytes_eq→eq : (xs ys : List ℕ) → bytes_eq xs ys ≡ true → xs ≡ ys
bytes_eq→eq [] [] h = refl
bytes_eq→eq [] (y ∷ ys) h = cc
bytes_eq→eq (x ∷ xs) [] h = cc
bytes_eq→eq (x ∷ xs) (y ∷ ys) h = ground (arith, bytes_eq→eq xs ys)

pub bytes_eq_refl : (xs : List ℕ) → bytes_eq xs xs ≡ true
bytes_eq_refl [] = refl
bytes_eq_refl (x ∷ xs) = ground (arith, bytes_eq_refl xs)

pub bytes_eq_ne : (xs ys : List ℕ) → xs ≢ ys → bytes_eq xs ys ≡ false
bytes_eq_ne xs ys ne = elim (Bool-cases (bytes_eq xs ys)) [
  | inl same ↦ absurd (ne (bytes_eq→eq xs ys same))
  | inr other ↦ other
]

-- The lease that a granted request leaves in its slot.
abbrev pub renewed : ℕ → List ℕ → Lease
renewed now mac = record { mac = mac; expiry = expiry_after now }

-- A request for a slot that is the client's or free is granted.
pub grant-Open :
    (now : ℕ) (mac : List ℕ) (yi : ℕ) (ls : List Lease)
    → Open mac (get_elem? ls yi)
    → grant now mac yi ls ≡ some (set ls yi (renewed now mac))
unfolding grant
grant-Open now mac yi ls free = elim (Option-cases (get_elem? ls yi)) [
  | inl out ↦ absurd (ground arith)
  | inr (l, e) ↦ ground (arith, bytes_eq→eq l.mac mac)
]

-- Only such a request is granted.
pub grant-some :
    (now : ℕ) (mac : List ℕ) (yi : ℕ) (ls : List Lease) {ls' : List Lease}
    → grant now mac yi ls ≡ some ls'
    → Open mac (get_elem? ls yi) × (ls' ≡ set ls yi (renewed now mac))
unfolding grant
grant-some now mac yi ls h = elim (Option-cases (get_elem? ls yi)) [
  | inl out ↦ absurd (ground arith)
  | inr (l, e) ↦ ground (arith, bytes_eq→eq l.mac mac)
]
