-- ===== src/Dhcp/Server/Hold.antt =====
-- Sequences of packets: a lease is held against all other clients until it is over.
use mathlib.Core.Option.{some-injective}
use pico_drone.Common.{
  ℕ, ◌+◌, ◌≤◌, ◌<◌, ◌^◌, ◌≡◌, ◌≢◌, refl, sym, ap, ◌∙◌, inl, inr, Option-cases, Option, none, some,
  false, List, [], ◌∷◌, arith, u32, get_elem?,
}
use pico_drone.Common.Pbuf.{Pbuf}
use pico_drone.Dhcp.Leases.{Lease, no_mac, is_expired, expiry_after}
use pico_drone.Dhcp.Leases.Expiry.{expiry_after-is_expired}
use pico_drone.Dhcp.Server.{Server, Env, Datagram, client_mac, process}
use pico_drone.Dhcp.Server.Effect.{message}
use pico_drone.Dhcp.Server.Ownership.{process-keeps_held}

-- A packet, with what the environment answers and what the stack holds while it is handled.
pub record Arrival : Type 0 where
  pub env : Env
  pub stack : List ℕ
  pub packet : Pbuf

-- The calls of `dhcp_server_process` in turn; `none` if one reads behind its message.
unfoldable pub run : Server → List Arrival → Option Server
run d [] = some d
run d (a ∷ later) = elim (process a.env a.stack d a.packet) [ none ↦ none | some r ↦ run r.0 later ]

run_nil : (d : Server) → run d [] ≡ some d
unfolding run
run_nil d = refl

run-none :
    (d : Server) (a : Arrival) (later : List Arrival)
    → process a.env a.stack d a.packet ≡ none
    → run d (a ∷ later) ≡ none
unfolding run
run-none d a later e = rw (e, run)

run-some :
    (d : Server) (a : Arrival) (later : List Arrival) (r : Server × List Datagram)
    → process a.env a.stack d a.packet ≡ some r
    → run d (a ∷ later) ≡ run r.0 later
unfolding run
run-some d a later r e = rw (e, run)

-- Each packet is from another client than `mac`, and is handled at most 24 hours after `now`.
abbrev pub Others : List ℕ → ℕ → ℕ → List Arrival → Type 0
Others mac now k [] = Unit
Others mac now k (a ∷ later) =
    ((mac ≢ client_mac (message a.stack a.packet))
      × ((e : ℕ) × (e ≤ 86_400_000) × (a.env.ticks_ms k ≡ u32 (now + e))))
    × Others mac now k later

-- A slot that a client (with a MAC address that is not zero) was granted at `now` holds the same
-- lease after any sequence of packets of other clients, if each is handled without a read behind
-- the message, and with the clock of that slot read within 24 hours of `now`, over the wrap of the
-- 32-bit clock as well.
pub run-holds_lease :
    (arrivals : List Arrival) (d : Server) (k now : ℕ) (l : Lease) {d' : Server}
    → now < 2 ^ 32
    → l.mac ≢ no_mac
    → l.expiry ≡ expiry_after now
    → get_elem? d.lease k ≡ some l
    → Others l.mac now k arrivals
    → run d arrivals ≡ some d'
    → get_elem? d'.lease k ≡ some l
run-holds_lease [] d k now l small taken stored at_k others e =
    ap (λ x. get_elem? x.lease k) (sym (some-injective _ _ (sym (run_nil d) ∙ e))) ∙ at_k
run-holds_lease (a ∷ later) d k now l small taken stored at_k ((foreign, (t, early, reads)), others)
      e =
    elim (Option-cases (process a.env a.stack d a.packet)) [
      | inl fails ↦ absurd (cc (run-none d a later fails))
      | inr (r, p) ↦
          run-holds_lease later r.0 k now l small taken stored
            (process-keeps_held a.env a.stack d a.packet k l at_k taken foreign running p) others
            (sym (run-some d a later r p) ∙ e)
    ]
  where
    running : is_expired (a.env.ticks_ms k) l ≡ false
    running = rw reads (
        (expiry_after-is_expired now t 86_465_536 l small stored early (omega arith)
          (omega arith)).0)
