-- ===== src/Dhcp/Server/Effect.antt =====
-- The three things that a packet can do: nothing, an offer, or an acknowledged request.
use mathlib.Core.Path.{subst}
use mathlib.Core.Option.{some-injective}
use pico_drone.Common.{
  ℕ, ◌+◌, ◌-◌, ◌<◌, ◌≡◌, inl, inr, refl, ap, ◌∙◌, Option, none, some, Bool, true, false, ◌||◌, List,
  [], ◌∷◌, arith, ltb, leb, ◌==◌, if◌then◌else◌, Bool-cases, Option-cases, u8, length, get_elem?,
  set, take, blit, length-take, length-set, length-blit,
}
use pico_drone.Common.Memory.{◌>>=◌}
use pico_drone.Common.Blit.{drop-blit, drop-set}
use pico_drone.Common.Pbuf.{Pbuf}
use pico_drone.Dhcp.Options.{Search, found, null, overrun, stuck}
use pico_drone.Dhcp.Leases.{Lease, base_ip, max_ip, mac_len, bytes_eq, grant}
use pico_drone.Dhcp.Server.{
  Server, Env, Datagram, options_at, yiaddr_at, chaddr_at, msg_size, min_size, dhcp_offer, dhcp_ack,
  client_mac, reply, on_discover, grant_slot, request_at, on_request, dispatch, handle, process,
}

-- The message that the handlers see: `op` and `yiaddr` are overwritten already.
abbrev pub patched : Server → List ℕ → List ℕ
patched d received = blit (set received 0 dhcp_offer) yiaddr_at (take 4 d.ip)

-- The 548 bytes after the copy of a packet.
abbrev pub message : List ℕ → Pbuf → List ℕ
message stack p = blit stack 0 (p.copy_partial msg_size 0)

pub client_mac-patched :
    (d : Server) (received : List ℕ) → client_mac (patched d received) ≡ client_mac received
client_mac-patched d received = ap (take mac_len) (
    drop-blit chaddr_at yiaddr_at (set received 0 dhcp_offer) (take 4 d.ip)
      (omega (arith, length-take 4 d.ip))
    ∙ drop-set chaddr_at 0 received dhcp_offer (omega arith))

pub length-patched :
    (d : Server) (received : List ℕ) → length (patched d received) ≡ length received
length-patched d received =
    length-blit (set received 0 dhcp_offer) yiaddr_at (take 4 d.ip)
    ∙ length-set received 0 dhcp_offer

pub data Effect (env : Env) (d : Server) (msg : List ℕ) (r : Server × List Datagram) : Type 0 where
  ignored : r ≡ (d, []) → Effect env d msg r
  offered : r ≡ on_discover env d msg → Effect env d msg r
  granted :
      (yi : ℕ) (leases : List Lease)
      → yi < max_ip
      → grant (env.ticks_ms 0) (client_mac msg) yi d.lease ≡ some leases
      → r ≡ (record d { lease = leases }, reply env (record d { lease = leases }) msg yi dhcp_ack)
      → Effect env d msg r

module _ (env : Env) (d : Server) (msg : List ℕ) where
  grant_slot-Effect : (last : ℕ) → Effect env d msg (grant_slot env d msg last)
  unfolding grant_slot
  grant_slot-Effect last = elim (Bool-cases (leb max_ip (u8 (last + 256 - base_ip)))) [
    | inl over ↦ ignored (rw over)
    | inr inside ↦
        elim (Option-cases
          (grant (env.ticks_ms 0) (client_mac msg) (u8 (last + 256 - base_ip)) d.lease)) [
            | inl taken ↦ ignored (ground arith)
            | inr (leases, e) ↦
                granted (u8 (last + 256 - base_ip)) leases (ground arith) e (ground arith)
          ]
  ]

  bind-Effect :
      {r : Server × List Datagram} (o : Option ℕ) (k : ℕ → Option (Server × List Datagram))
      → ((a : ℕ) → k a ≡ some r → Effect env d msg r)
      → (o >>= k) ≡ some r
      → Effect env d msg r
  bind-Effect none k keep e = cc
  bind-Effect (some a) k keep e = keep a e

  some-Effect :
      {r : Server × List Datagram} (x : Server × List Datagram)
      → Effect env d msg x
      → some x ≡ some r
      → Effect env d msg r
  some-Effect x keep e = subst (Effect env d msg) (some-injective _ _ e) keep

  if-Effect :
      {r : Server × List Datagram} (b : Bool) (o : Option (Server × List Datagram))
      → (o ≡ some r → Effect env d msg r)
      → (if b then o else some (d, [])) ≡ some r
      → Effect env d msg r
  if-Effect true o keep e = keep e
  if-Effect false o keep e = some-Effect (d, []) (ignored refl) e

  request_at-Effect :
      {r : Server × List Datagram} (i : ℕ) → request_at env d msg i ≡ some r → Effect env d msg r
  unfolding request_at
  request_at-Effect i e =
      bind-Effect (get_elem? msg (options_at + i + 2)) _
        (λ a. bind-Effect (get_elem? msg (options_at + i + 3)) _ (λ b.
          bind-Effect (get_elem? msg (options_at + i + 4)) _ (λ c.
            if-Effect (bytes_eq (a ∷ b ∷ c ∷ []) (take 3 d.ip)) _ (
              bind-Effect (get_elem? msg (options_at + i + 5)) _
                (λ last. some-Effect _ (grant_slot-Effect last))))))
        e

  Search-Effect :
      {r : Server × List Datagram} (s : Search) (k : ℕ → Option (Server × List Datagram))
      → ((i : ℕ) → k i ≡ some r → Effect env d msg r)
      → (elim s [ found i ↦ k i | null ↦ some (d, []) | overrun ↦ none | stuck ↦ none ]) ≡ some r
      → Effect env d msg r
  Search-Effect (found i) k keep e = keep i e
  Search-Effect null k keep e = some-Effect (d, []) (ignored refl) e
  Search-Effect overrun k keep e = cc
  Search-Effect stuck k keep e = cc

  on_request-Effect :
      {r : Server × List Datagram} → on_request env d msg ≡ some r → Effect env d msg r
  unfolding on_request
  on_request-Effect e = Search-Effect _ _ request_at-Effect e

  dispatch-Effect :
      {r : Server × List Datagram} (type : ℕ)
      → dispatch env d msg type ≡ some r
      → Effect env d msg r
  unfolding dispatch
  dispatch-Effect type e = elim (Bool-cases (type == 1)) [
    | inl discover ↦ some-Effect _ (offered refl) (rw discover at e)
    | inr other ↦ elim (Bool-cases (type == 3)) [
      | inl request ↦ on_request-Effect (rw (other, request) at e)
      | inr unknown ↦ some-Effect _ (ignored refl) (rw (other, unknown) at e)
    ]
  ]

-- What `dhcp_server_process` does with a packet, if it reads nothing behind the message.
pub process-Effect :
    (env : Env) (stack : List ℕ) (d : Server) (p : Pbuf) {r : Server × List Datagram}
    → process env stack d p ≡ some r
    → Effect env d (patched d (message stack p)) r
unfolding process handle
process-Effect env stack d p e =
    elim (Bool-cases
      (ltb p.tot_len min_size || ltb (length (p.copy_partial msg_size 0)) min_size)) [
        | inl short ↦ some-Effect env d _ (d, []) (ignored refl) (rw short at e)
        | inr long ↦
            let msg = patched d (message stack p) in
            Search-Effect env d msg _ _
              (λ i.
                bind-Effect env d msg (get_elem? msg (options_at + i + 2)) _
                  (dispatch-Effect env d msg))
              (rw long at e)
      ]
