-- ===== src/Dhcp/Server/Ownership.antt =====
-- Who holds which address: what a packet changes in the table, and what an answer rests on.
use mathlib.Core.Path.{subst}
use pico_drone.Common.{
  ℕ, ◌<◌, ◌≡◌, ◌≢◌, ◌⊎◌, inl, inr, refl, ap, ◌∙◌, some, false, List, [], ◌∷◌, arith, ◌==◌,
  if◌then◌else◌, Bool-cases, length, get_elem?, length-blit, get_elem?-set_self, get_elem?-set_ne,
}
use native.Mathlib.Decide.{ℕ_discrete}
use pico_drone.Common.Pbuf.{Pbuf}
use pico_drone.Dhcp.Leases.{Lease, max_ip, no_mac, is_expired, expiry_after, scan, grant}
use pico_drone.Dhcp.Leases.Choice.{Open, scan-Swept, scan-Open, scan_upper}
use pico_drone.Dhcp.Leases.Grant.{bytes_eq→eq, renewed, grant-some}
use pico_drone.Dhcp.Server.{
  Server, Env, Datagram, msg_size, dhcp_offer, dhcp_ack, client_mac, reply, on_discover, process,
}
use pico_drone.Dhcp.Server.Effect.{
  ignored, offered, granted, patched, message, client_mac-patched, length-patched, process-Effect,
}
use pico_drone.Dhcp.Server.Reply.{HasAddresses, IsReply, reply-IsReply}

scan-keeps :
    (clock : ℕ → ℕ) (mac : List ℕ) (ls : List Lease) (k : ℕ) (l : Lease)
    → get_elem? ls k ≡ some l
    → is_expired (clock k) l ≡ false
    → get_elem? (scan clock mac 0 max_ip ls).1 k ≡ some l
scan-keeps clock mac ls k l at_k running =
    elim (scan-Swept clock mac 0 max_ip k ls l k (omega arith) at_k) [
      | inl same ↦ same
      | inr (over, _, _) ↦ absurd (ground arith)
    ]

not-Open : (mac : List ℕ) (l : Lease) → l.mac ≢ no_mac → l.mac ≢ mac → ¬ Open mac (some l)
not-Open mac l taken foreign (inl own) = foreign (bytes_eq→eq l.mac mac own)
not-Open mac l taken foreign (inr free) = taken (bytes_eq→eq l.mac no_mac free)

grant-keeps :
    (now : ℕ) (mac : List ℕ) (yi : ℕ) (ls ls' : List Lease) (k : ℕ) (l : Lease)
    → grant now mac yi ls ≡ some ls'
    → get_elem? ls k ≡ some l
    → l.mac ≢ no_mac
    → l.mac ≢ mac
    → get_elem? ls' k ≡ some l
grant-keeps now mac yi ls ls' k l e at_k taken foreign =
    let (free, stored) = grant-some now mac yi ls e in
    elim (ℕ_discrete yi k) [
      | yes same ↦
          absurd
            (not-Open mac l taken foreign (subst (Open mac) (ap (get_elem? ls) same ∙ at_k) free))
      | no other ↦ rw stored (get_elem?-set_ne ls yi k (renewed now mac) other ∙ at_k)
    ]

-- The slot that an offer is for, and the table behind it.
abbrev pub chosen : Env → Server → List ℕ → ℕ
chosen env d msg = (scan env.ticks_ms (client_mac msg) 0 max_ip d.lease).0

abbrev pub swept : Env → Server → List ℕ → Server
swept env d msg = record d { lease = (scan env.ticks_ms (client_mac msg) 0 max_ip d.lease).1 }

pub on_discover_lem :
    (env : Env) (d : Server) (msg : List ℕ)
    → on_discover env d msg ≡ (
      swept env d msg,
      if chosen env d msg == max_ip
          then []
          else reply env (swept env d msg) msg (chosen env d msg) dhcp_offer,
    )
unfolding on_discover
on_discover_lem env d msg = refl

discover-keeps :
    (env : Env) (d : Server) (msg : List ℕ) (k : ℕ) (l : Lease)
    → get_elem? d.lease k ≡ some l
    → is_expired (env.ticks_ms k) l ≡ false
    → get_elem? (on_discover env d msg).0.lease k ≡ some l
discover-keeps env d msg k l at_k running =
    rw (on_discover_lem env d msg)
      (scan-keeps env.ticks_ms (client_mac msg) d.lease k l at_k running)

-- A packet that is handled without a read behind the message changes no slot that another client
-- holds (its MAC address is neither zero nor the sender's) under a lease that is not over when the
-- clock is read for that slot.
pub process-keeps_held :
    (env : Env) (stack : List ℕ) (d : Server) (p : Pbuf) (k : ℕ) (l : Lease)
    {r : Server × List Datagram}
    → get_elem? d.lease k ≡ some l
    → l.mac ≢ no_mac
    → l.mac ≢ client_mac (message stack p)
    → is_expired (env.ticks_ms k) l ≡ false
    → process env stack d p ≡ some r
    → get_elem? r.0.lease k ≡ some l
process-keeps_held env stack d p k l {r} at_k taken foreign running e =
    elim (process-Effect env stack d p e) [
      | ignored e ↦ rw e at_k
      | offered e ↦ rw e (discover-keeps env d (patched d (message stack p)) k l at_k running)
      | granted yi leases lt g e ↦ rw e (
          grant-keeps (env.ticks_ms 0) (client_mac (patched d (message stack p))) yi d.lease leases
            k l g at_k taken (rw client_mac-patched foreign))
    ]

-- What an answer rests on: an offer is for a slot that is the client's or free; an acknowledgement
-- is for a slot that now is the client's, with a new expiry.
abbrev pub Backed : Env → List ℕ → List Lease → ℕ → ℕ → Type 0
Backed env client leases yi type =
    ((type ≡ dhcp_offer) × Open client (get_elem? leases yi))
    ⊎ ((type ≡ dhcp_ack)
        × (get_elem? leases yi
            ≡ some (record { mac = client; expiry = expiry_after (env.ticks_ms 0) })))

pub record Answers (env : Env) (client msg : List ℕ) (r : Server × List Datagram) (q : Datagram)
    : Type 0 where
  pub yi : ℕ
  pub type : ℕ
  pub one : r.1 ≡ q ∷ []
  pub inside : yi < max_ip
  pub reply : IsReply r.0 msg yi type q
  pub backed : Backed env client r.0.lease yi type

-- A reply goes out whole or not at all.
reply_cases :
    (env : Env) (d : Server) (msg : List ℕ) (yi type : ℕ)
    → HasAddresses d
    → type < 256
    → length msg ≡ msg_size
    → (reply env d msg yi type ≡ [])
      ⊎ ((q : Datagram) × IsReply d msg yi type q × (reply env d msg yi type ≡ q ∷ []))
reply_cases env d msg yi type four small full =
    let (q, is, e) = reply-IsReply env d msg yi type four small full in
    elim (Bool-cases (env.pbuf_alloc 274)) [
      | inl room ↦ inr (q, is, e ∙ rw room)
      | inr full ↦ inl (e ∙ rw full)
    ]

if_eq : (a b : ℕ) (x y : List Datagram) → a ≡ b → (if a == b then x else y) ≡ x
if_eq a b x y e = ground arith

if_ne : (a b : ℕ) (x y : List Datagram) → a ≢ b → (if a == b then x else y) ≡ y
if_ne a b x y ne = ground arith

chosen-lt :
    (env : Env) (d : Server) (msg : List ℕ)
    → length d.lease ≡ max_ip
    → chosen env d msg ≢ max_ip
    → chosen env d msg < max_ip
chosen-lt env d msg eight ne =
    omega (arith, scan_upper env.ticks_ms (client_mac msg) 0 d.lease (omega arith), ne)

pub chosen-Open :
    (env : Env) (d : Server) (msg : List ℕ)
    → length d.lease ≡ max_ip
    → chosen env d msg < max_ip
    → Open (client_mac msg) (get_elem? (swept env d msg).lease (chosen env d msg))
chosen-Open env d msg eight lt =
    scan-Open env.ticks_ms (client_mac msg) 0 (chosen env d msg) (chosen env d msg) d.lease
      (omega arith) (omega arith) lt refl

discover-Answers :
    (env : Env) (d : Server) (msg client : List ℕ)
    → client_mac msg ≡ client
    → HasAddresses d
    → length d.lease ≡ max_ip
    → length msg ≡ msg_size
    → let r = on_discover env d msg in (r.1 ≡ []) ⊎ ((q : Datagram) × Answers env client msg r q)
discover-Answers env d msg client mac four eight full =
    rw (on_discover_lem env d msg) (elim (ℕ_discrete yi max_ip) [
      | yes e ↦ inl (if_eq yi max_ip [] answer e)
      | no ne ↦ elim (reply_cases env (swept env d msg) msg yi dhcp_offer four (omega arith) full) [
        | inl nothing ↦ inl (if_ne yi max_ip [] answer ne ∙ nothing)
        | inr (q, is, e) ↦ inr (
          q,
          record {
            yi = yi;
            type = dhcp_offer;
            one = if_ne yi max_ip [] answer ne ∙ e;
            inside = chosen-lt env d msg eight ne;
            reply = is;
            backed =
                inl (refl, rw (← mac) (chosen-Open env d msg eight (chosen-lt env d msg eight ne)));
          },
        )
      ]
    ])
  where
    yi : ℕ
    yi = chosen env d msg

    answer : List Datagram
    answer = reply env (swept env d msg) msg yi dhcp_offer

-- On a server with four-byte addresses and eight slots, a packet that is handled without a read
-- behind the message gets no answer or one packet of the reply's form, for one of the eight
-- addresses, which the table as it is left backs: an offered slot is the client's or free, an
-- acknowledged one is the client's, with the expiry of the moment.
pub process-Answers :
    (env : Env) (stack : List ℕ) (d : Server) (p : Pbuf) {r : Server × List Datagram}
    → HasAddresses d
    → length d.lease ≡ max_ip
    → length stack ≡ msg_size
    → process env stack d p ≡ some r
    → (r.1 ≡ [])
      ⊎ ((q : Datagram) × Answers env
            (client_mac (message stack p))
            (patched d (message stack p))
            r
            q)
process-Answers env stack d p {r} four eight full e = elim (process-Effect env stack d p e) [
  | ignored e ↦ inl (ap (λ x. x.1) e)
  | offered e ↦
      rw e (
        discover-Answers env d msg client (client_mac-patched d (message stack p)) four eight whole)
  | granted yi leases lt g e ↦
      let d' : Server = record d { lease = leases } in
      let (free, stored) = grant-some (env.ticks_ms 0) (client_mac msg) yi d.lease g in
      elim (reply_cases env d' msg yi dhcp_ack four (omega arith) whole) [
        | inl nothing ↦ inl (ap (λ x. x.1) e ∙ nothing)
        | inr (q, is, sends) ↦ inr (
          q,
          record {
            yi = yi;
            type = dhcp_ack;
            one = ap (λ x. x.1) e ∙ sends;
            inside = lt;
            reply = rw e is;
            backed = inr (
              refl,
              ap (λ x. get_elem? x.0.lease yi) e
                  ∙ ap (λ ls. get_elem? ls yi) stored
                  ∙ get_elem?-set_self d.lease yi (renewed (env.ticks_ms 0) (client_mac msg))
                      (omega arith)
                  ∙ ap (λ m. some (renewed (env.ticks_ms 0) m))
                      (client_mac-patched d (message stack p)),
            );
          },
        )
      ]
]
  where
    msg : List ℕ
    msg = patched d (message stack p)

    client : List ℕ
    client = client_mac (message stack p)

    whole : length msg ≡ msg_size
    whole =
        length-patched d (message stack p) ∙ length-blit stack 0 (p.copy_partial msg_size 0) ∙ full
