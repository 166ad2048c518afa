-- ===== src/Dhcp/Server/Exchange.antt =====
-- DHCPDISCOVER and then DHCPREQUEST by one client: the offered address is acknowledged.
use mathlib.Core.Path.{subst}
use pico_drone.Common.{
  ℕ, ◌+◌, ◌-◌, ◌≤◌, ◌<◌, ◌≡◌, inl, inr, refl, ap, ◌∙◌, some, false, ltb, if◌then◌else◌, List, [],
  ◌∷◌, ◌++◌, arith, u8, length, get_elem?, set, take, get_elem?-set_ne, length-take, length-blit,
}
use pico_drone.Common.Memory.{◌>>=◌}
use pico_drone.Common.Blit.{Holds, get_elem?-blit_after}
use pico_drone.Dhcp.Options.{found, opt_end, opt_limit, opt_find}
use pico_drone.Dhcp.Options.Encoding.{Opt, encode, locate, NoEnd, opt_find-encode}
use pico_drone.Dhcp.Leases.{Lease, base_ip, max_ip}
use pico_drone.Dhcp.Leases.Choice.{Open}
use pico_drone.Dhcp.Leases.Grant.{bytes_eq_refl, renewed, grant-Open}
use pico_drone.Dhcp.Server.{
  Server, Env, Datagram, options_at, yiaddr_at, dhcp_offer, dhcp_ack, client_mac, reply, grant_slot,
  request_at, on_request, dispatch, handle, process, msg_size, min_size,
}
use pico_drone.Dhcp.Server.Effect.{
  ignored, offered, granted, patched, message, client_mac-patched, length-patched, process-Effect,
}
use pico_drone.Common.Pbuf.{Pbuf}
use pico_drone.Dhcp.Server.Reply.{HasAddresses, IsReply, reply-IsReply}
use pico_drone.Dhcp.Server.Ownership.{Backed, process-Answers, on_discover_lem}

-- A DHCPREQUEST for slot `yi` of the server: the type comes first, then the requested address,
-- then any options.
abbrev pub request_opts : ℕ → ℕ → ℕ → ℕ → List Opt → List Opt
request_opts a b c yi rest = (53, 3 ∷ []) ∷ (50, a ∷ b ∷ c ∷ (base_ip + yi) ∷ []) ∷ rest

-- Overwriting `op` and `yiaddr` leaves the options.
pub Holds-patched :
    (d : Server) (received bytes : List ℕ)
    → Holds received options_at bytes
    → Holds (patched d received) options_at bytes
Holds-patched d received bytes h j lt =
    get_elem?-blit_after (set received 0 dhcp_offer) yiaddr_at (take 4 d.ip) (options_at + j)
      (omega (arith, length-take 4 d.ip))
    ∙ get_elem?-set_ne received 0 (options_at + j) dhcp_offer (omega arith)
    ∙ h j lt

-- A byte of the options by its offset.
byte_of :
    (msg bytes : List ℕ) (j i : ℕ)
    → Holds msg options_at bytes
    → j < length bytes
    → i ≡ options_at + j
    → get_elem? msg i ≡ get_elem? bytes j
byte_of msg bytes j i h lt e = ap (get_elem? msg) e ∙ h j lt

grant_slot-Open :
    (env : Env) (d : Server) (msg : List ℕ) (yi : ℕ)
    → yi < max_ip
    → Open (client_mac msg) (get_elem? d.lease yi)
    → let d' = record d { lease = set d.lease yi (renewed (env.ticks_ms 0) (client_mac msg)) } in
      grant_slot env d msg (base_ip + yi) ≡ (d', reply env d' msg yi dhcp_ack)
unfolding grant_slot
grant_slot-Open env d msg yi lt free =
    let same : u8 (base_ip + yi + 256 - base_ip) ≡ yi = omega arith in
    ground (arith, same, grant-Open (env.ticks_ms 0) (client_mac msg) yi d.lease free)

request_at-slot :
    (env : Env) (d : Server) (msg : List ℕ) (i a b c last : ℕ)
    → get_elem? msg (options_at + i + 2) ≡ some a
    → get_elem? msg (options_at + i + 3) ≡ some b
    → get_elem? msg (options_at + i + 4) ≡ some c
    → get_elem? msg (options_at + i + 5) ≡ some last
    → take 3 d.ip ≡ a ∷ b ∷ c ∷ []
    → request_at env d msg i ≡ some (grant_slot env d msg last)
unfolding request_at
request_at-slot env d msg i a b c last ea eb ec el net =
    rw (ea, ◌>>=◌)
      (rw (eb, ◌>>=◌)
        (rw (ec, ◌>>=◌) (rw net (rw (bytes_eq_refl (a ∷ b ∷ c ∷ [])) (rw (el, ◌>>=◌) refl)))))

pub on_request_found :
    (env : Env) (d : Server) (msg : List ℕ) (i : ℕ)
    → opt_find msg options_at 50 ≡ found i
    → on_request env d msg ≡ request_at env d msg i
unfolding on_request
on_request_found env d msg i e = rw (e, on_request)

pub handle_found :
    (env : Env) (d : Server) (received : List ℕ) (i type : ℕ)
    → opt_find (patched d received) options_at 53 ≡ found i
    → get_elem? (patched d received) (options_at + i + 2) ≡ some type
    → handle env d received ≡ dispatch env d (patched d received) type
unfolding handle
handle_found env d received i type e et = rw (e, handle) (rw (et, ◌>>=◌) refl)

dispatch_request :
    (env : Env) (d : Server) (msg : List ℕ) → dispatch env d msg 3 ≡ on_request env d msg
unfolding dispatch
dispatch_request env d msg = refl

module _ (d : Server) (received : List ℕ) (a b c yi : ℕ) (rest : List Opt) (ended : NoEnd rest)
    (fits : length (encode (request_opts a b c yi rest)) < opt_limit)
    (holds : Holds received options_at (encode (request_opts a b c yi rest) ++ opt_end ∷ [])) where
  abbrev field : List ℕ
  field = encode (request_opts a b c yi rest) ++ opt_end ∷ []

  find_lem :
      (cmd : ℕ)
      → opt_find (patched d received) options_at cmd ≡ locate cmd 0 (request_opts a b c yi rest)
  find_lem cmd =
      opt_find-encode (request_opts a b c yi rest) (patched d received) options_at cmd
        (omega arith, (omega arith, ended)) fits (Holds-patched d received field holds)

  option_byte :
      (j i : ℕ) → j < 9 → i ≡ options_at + j → get_elem? (patched d received) i ≡ get_elem? field j
  option_byte j i lt e =
      byte_of (patched d received) field j i (Holds-patched d received field holds) (omega arith) e

  -- A request for a slot that is the client's or free is acknowledged: the slot becomes the
  -- client's, with a new expiry.
  pub request-Open :
      (env : Env)
      → yi < max_ip
      → take 3 d.ip ≡ a ∷ b ∷ c ∷ []
      → Open (client_mac received) (get_elem? d.lease yi)
      → let d' = record d {
        lease = set d.lease yi (renewed (env.ticks_ms 0) (client_mac received));
      } in
        handle env d received ≡ some (d', reply env d' (patched d received) yi dhcp_ack)
  request-Open env lt net free =
      handle_found env d received 0 3 (find_lem 53) (option_byte 2 242 (omega arith) refl)
      ∙ dispatch_request env d msg
      ∙ on_request_found env d msg 3 (find_lem 50)
      ∙ request_at-slot env d msg 3 a b c (base_ip + yi) (option_byte 5 245 (omega arith) refl)
          (option_byte 6 246 (omega arith) refl) (option_byte 7 247 (omega arith) refl)
          (option_byte 8 248 (omega arith) refl) net
      ∙ ap some (grant_slot-Open env d msg yi lt (rw mac free))
      ∙ rw mac refl
    where
      msg : List ℕ
      msg = patched d received

      mac : client_mac msg ≡ client_mac received
      mac = client_mac-patched d received

Backed-Open :
    (env : Env) (client : List ℕ) (leases : List Lease) (yi type : ℕ)
    → Backed env client leases yi type
    → Open client (get_elem? leases yi)
Backed-Open env client leases yi type (inl (_, free)) = free
Backed-Open env client leases yi type (inr (_, own)) = rw own (inl (bytes_eq_refl client))

-- A packet leaves the addresses of the server.
process-addresses :
    (env : Env) (stack : List ℕ) (d : Server) (p : Pbuf) {r : Server × List Datagram}
    → process env stack d p ≡ some r
    → (r.0.ip ≡ d.ip) × (r.0.nm ≡ d.nm)
process-addresses env stack d p e = elim (process-Effect env stack d p e) [
  | ignored e ↦ rw e (refl, refl)
  | offered e ↦ rw (e ∙ on_discover_lem env d (patched d (message stack p))) (refl, refl)
  | granted yi leases lt g e ↦ rw e (refl, refl)
]

process-handle :
    (env : Env) (stack : List ℕ) (d : Server) (p : Pbuf)
    → min_size ≤ p.tot_len
    → min_size ≤ length (p.copy_partial msg_size 0)
    → process env stack d p ≡ handle env d (message stack p)
unfolding process
process-handle env stack d p long copied =
    let no_short : ltb p.tot_len min_size ≡ false = ground arith in
    let no_part : ltb (length (p.copy_partial msg_size 0)) min_size ≡ false = ground arith in
    rw (no_short, no_part, process) refl

-- On a server with four-byte addresses and eight slots, whatever the packet was that a client got
-- an address for, in an offer or an acknowledgement: if the client's next packet, of 243 bytes or
-- more, is a request for that address, its message type and requested address first and any other
-- options behind, then it is handled, the slot is the client's with a new expiry, and the
-- acknowledgement, with the contents of `IsReply`, goes out, unless `pbuf_alloc` finds no memory
-- for its 274 bytes: then nothing is sent.
pub process-request :
    (env env' : Env) (stack stack' : List ℕ) (d d' : Server) (p p' : Pbuf) (q : Datagram)
    (a b c yi : ℕ) (rest : List Opt)
    → HasAddresses d
    → length d.lease ≡ max_ip
    → length stack ≡ msg_size
    → length stack' ≡ msg_size
    → process env stack d p ≡ some (d', q ∷ [])
    → get_elem? q.payload 19 ≡ some (base_ip + yi)
    → min_size ≤ p'.tot_len
    → min_size ≤ length (p'.copy_partial msg_size 0)
    → client_mac (message stack' p') ≡ client_mac (message stack p)
    → NoEnd rest
    → length (encode (request_opts a b c yi rest)) < opt_limit
    → Holds (message stack' p') options_at (encode (request_opts a b c yi rest) ++ opt_end ∷ [])
    → take 3 d'.ip ≡ a ∷ b ∷ c ∷ []
    → let received = message stack' p' in
      let d'' = record d' {
        lease = set d'.lease yi (renewed (env'.ticks_ms 0) (client_mac received));
      } in
      (ack : Datagram) × IsReply d'' (patched d' received) yi dhcp_ack ack
      × (process env' stack' d' p' ≡ some (d'', if env'.pbuf_alloc 274 then ack ∷ [] else []))
process-request env env' stack stack' d d' p p' q a b c yi rest four eight full full' e address long
      copied mac ended fits holds net =
    elim (process-Answers env stack d p four eight full e) [
      | inl nothing ↦ absurd (cc nothing)
      | inr (q', answers) ↦
          let received = message stack' p' in
          let d'' = record d' {
            lease = set d'.lease yi (renewed (env'.ticks_ms 0) (client_mac received));
          } in
          let same : answers.yi ≡ yi = ground (arith, answers.one, answers.reply.address) in
          let free : Open (client_mac received) (get_elem? d'.lease yi) = rw mac (
            subst (λ k. Open (client_mac (message stack p)) (get_elem? d'.lease k)) same
              (Backed-Open env (client_mac (message stack p)) d'.lease answers.yi answers.type
                answers.backed)) in
          let handled =
            request-Open d' received a b c yi rest ended fits holds env'
              (omega (arith, answers.inside)) net free in
          let (ip, nm) = process-addresses env stack d p e in
          let whole =
            length-patched d' received
            ∙ length-blit stack' 0 (p'.copy_partial msg_size 0)
            ∙ full' in
          let (ack, is_reply, sent_) =
            reply-IsReply env' d'' (patched d' received) yi dhcp_ack
              (ap length ip ∙ four.0, ap length nm ∙ four.1) (omega arith) whole in
          (
            ack,
            is_reply,
            process-handle env' stack' d' p' long copied
                ∙ handled
                ∙ ap (λ (l : List Datagram). some (d'', l)) sent_,
          )
    ]
