-- ===== src/Dhcp/Server/Invariant.antt =====
-- What holds of the server between two packets, and its start and end.
use pico_drone.Common.{
  ℕ, zero, suc, ◌<◌, ◌^◌, ◌≡◌, inl, inr, refl, ◌∙◌, none, some, List, [], ◌∷◌, arith, Bool-cases,
  length, set, drop, length-set, length-take, length-drop, length-blit, replicate,
}
use pico_drone.Common.Pbuf.{Pbuf}
use pico_drone.Dhcp.Leases.{Lease, max_ip, mac_len, no_mac, bytes_eq, expiry_after, probe, scan}
use pico_drone.Dhcp.Leases.Grant.{renewed, grant-some}
use pico_drone.Dhcp.Server.{
  Server, Env, Datagram, receive_by, bind, remove, msg_size, client_mac, process, init, deinit,
}
use pico_drone.Dhcp.Server.Effect.{
  ignored, offered, granted, patched, message, length-patched, process-Effect,
}
use pico_drone.Dhcp.Server.Ownership.{on_discover_lem}
use pico_drone.Dhcp.Server.Reply.{HasAddresses}

-- A lease as its C type has it: six bytes and a `uint16_t`.
abbrev pub IsLease : Lease → Type 0
IsLease l = (length l.mac ≡ mac_len) × (l.expiry < 2 ^ 16)

abbrev pub AreLeases : List Lease → Type 0
AreLeases [] = Unit
AreLeases (l ∷ ls) = IsLease l × AreLeases ls

pub record IsValid (d : Server) : Type 0 where
  pub addresses : HasAddresses d
  pub slots : length d.lease ≡ max_ip
  pub leases : AreLeases d.lease

scan-AreLeases :
    (clock : ℕ → ℕ) (mac : List ℕ) (i yi : ℕ) (ls : List Lease)
    → AreLeases ls
    → (length (scan clock mac i yi ls).1 ≡ length ls) × AreLeases (scan clock mac i yi ls).1
unfolding scan probe
scan-AreLeases clock mac i yi [] h = (refl, h)
scan-AreLeases clock mac i yi (l ∷ ls) h = elim (Bool-cases (bytes_eq l.mac mac)) [
  | inl own ↦ ground (arith)
  | inr other ↦ ground (
    arith,
    scan-AreLeases clock mac (suc i) i ls,
    scan-AreLeases clock mac (suc i) max_ip ls,
    scan-AreLeases clock mac (suc i) yi ls,
  )
]

set-AreLeases :
    (ls : List Lease) (i : ℕ) (l : Lease) → IsLease l → AreLeases ls → AreLeases (set ls i l)
set-AreLeases [] i l h hs = hs
set-AreLeases (x ∷ xs) zero l h hs = (h, hs.1)
set-AreLeases (x ∷ xs) (suc i) l h hs = (hs.0, set-AreLeases xs i l h hs.1)

length-client_mac : (msg : List ℕ) → length msg ≡ msg_size → length (client_mac msg) ≡ mac_len
length-client_mac msg full = omega (arith, length-take mac_len (drop 28 msg), length-drop 28 msg)

expiry_after-lt : (now : ℕ) → expiry_after now < 2 ^ 16
unfolding expiry_after
expiry_after-lt now = omega arith

-- A packet that is handled without a read behind the message leaves a well-formed server well-
-- formed (four-byte addresses, eight slots, each with a six-byte MAC address and a 16-bit expiry),
-- and its addresses and its handle as they are.
pub process-IsValid :
    (env : Env) (stack : List ℕ) (d : Server) (p : Pbuf) {r : Server × List Datagram}
    → IsValid d
    → length stack ≡ msg_size
    → process env stack d p ≡ some r
    → IsValid r.0 × (r.0.ip ≡ d.ip) × (r.0.nm ≡ d.nm) × (r.0.udp ≡ d.udp)
process-IsValid env stack d p v full e = elim (process-Effect env stack d p e) [
  | ignored e ↦ rw e (v, refl, refl, refl)
  | offered e ↦
      let (same, good) = scan-AreLeases env.ticks_ms (client_mac msg) 0 max_ip d.lease v.leases in
      rw (e ∙ on_discover_lem env d msg) (
        record { addresses = v.addresses; slots = same ∙ v.slots; leases = good },
        refl,
        refl,
        refl,
      )
  | granted yi leases lt g e ↦
      let (free, stored) = grant-some (env.ticks_ms 0) (client_mac msg) yi d.lease g in
      rw (e, stored)
        (
          record {
            addresses = v.addresses;
            slots = length-set d.lease yi (renewed (env.ticks_ms 0) (client_mac msg)) ∙ v.slots;
            leases =
                set-AreLeases d.lease yi (renewed (env.ticks_ms 0) (client_mac msg))
                  (length-client_mac msg whole, expiry_after-lt (env.ticks_ms 0)) v.leases;
          },
          refl,
          refl,
          refl,
        )
]
  where
    msg : List ℕ
    msg = patched d (message stack p)

    whole : length msg ≡ msg_size
    whole =
        length-patched d (message stack p) ∙ length-blit stack 0 (p.copy_partial msg_size 0) ∙ full

-- With four-byte addresses, a server starts well-formed with every slot free, whether `udp_new`
-- gives a handle or not. With a handle, the handler is registered before port 67 is bound, and
-- `deinit` takes down that handle and no other; without one neither calls lwIP. A second `deinit`
-- does nothing.
pub init-deinit :
    (h : ℕ) (ip nm : List ℕ)
    → length ip ≡ 4
    → length nm ≡ 4
    → let (d, calls) = init (some h) ip nm in
      let (d', calls') = deinit d in
      let (e, no_calls) = init none ip nm in
      IsValid d
      × (d.lease ≡ replicate max_ip (record { mac = no_mac; expiry = 0 }))
      × (calls ≡ receive_by h ∷ bind h 67 ∷ [])
      × (calls' ≡ remove h ∷ [])
      × (deinit d' ≡ (d', []))
      × IsValid e
      × (no_calls ≡ [])
      × (deinit e ≡ (e, []))
unfolding init deinit
init-deinit h ip nm four_ip four_nm = (omega arith, refl, refl, refl, refl, omega arith, refl, refl)
