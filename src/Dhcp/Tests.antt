-- ===== src/Dhcp/Tests.antt =====
-- Runs of the DHCP server, and each of its theorems at an input.
use pico_drone.Common.{
  ℕ, ◌+◌, ◌≡◌, ◌⊎◌, refl, ◌∙◌, some, true, false, List, [], ◌∷◌, ◌++◌, arith, length, get_elem?,
  set, take, blit, replicate, length-blit, length-replicate, u32,
}
use pico_drone.Common.Blit.{Holds-blit}
use pico_drone.Common.Pbuf.{pbuf_of}
use pico_drone.Dhcp.Options.{
  found, overrun, opt_find_from, opt_find, opt_write_n, opt_write_u8, opt_write_u32,
}
use pico_drone.Dhcp.Options.Bounds.{Explains, opt_find-Explains}
use pico_drone.Dhcp.Options.Encoding.{Opt, encode, opt_find-encode, opt_find_overrun}
use pico_drone.Dhcp.Leases.{max_ip, no_mac, is_expired, expiry_after, probe, scan}
use pico_drone.Dhcp.Leases.Choice.{scan_choice}
use pico_drone.Dhcp.Leases.Expiry.{expiry_after-is_expired}
use pico_drone.Dhcp.Leases.Grant.{renewed}
use pico_drone.Dhcp.Server.{
  Server, Env, Datagram, client_mac, socket_sendto, finish_options, reply, on_discover, dispatch,
  handle, process, init,
}
use pico_drone.Dhcp.Server.Effect.{message, patched}
use pico_drone.Dhcp.Server.Reply.{IsReply, reply-IsReply}
use pico_drone.Dhcp.Server.Hold.{run, run-holds_lease}
use pico_drone.Dhcp.Server.Exchange.{request_opts, process-request}
use pico_drone.Dhcp.Server.Safety.{handle_total}
use pico_drone.Dhcp.Server.Invariant.{IsValid, process-IsValid}
use pico_drone.Dhcp.Server.Ownership.{process-keeps_held, Answers, process-Answers}

abbrev stack : List ℕ
stack = replicate 548 0

abbrev alice : List ℕ
alice = 2 ∷ 0 ∷ 0 ∷ 0 ∷ 0 ∷ 1 ∷ []

abbrev bob : List ℕ
bob = 2 ∷ 0 ∷ 0 ∷ 0 ∷ 0 ∷ 2 ∷ []

-- A message of a client with the given options.
abbrev packet : List ℕ → List ℕ → List ℕ
packet mac bytes = blit (blit stack 28 mac) 240 bytes

abbrev discover_field : List ℕ
discover_field = encode ((53, 1 ∷ []) ∷ []) ++ 255 ∷ []

abbrev request_field : List ℕ
request_field = encode ((53, 3 ∷ []) ∷ (50, 192 ∷ 168 ∷ 4 ∷ 16 ∷ []) ∷ []) ++ 255 ∷ []

abbrev env : Env
env = record { ticks_ms = λ n. 5000; pbuf_alloc = λ n. true; udp_sendto = λ p. 0 }

abbrev fresh : Server
fresh = record {
  ip = 192 ∷ 168 ∷ 4 ∷ 1 ∷ [];
  nm = 255 ∷ 255 ∷ 255 ∷ 0 ∷ [];
  lease = replicate 8 (record { mac = no_mac; expiry = 0 });
  udp = some 1;
}

init_runs : (init (some 1) (192 ∷ 168 ∷ 4 ∷ 1 ∷ []) (255 ∷ 255 ∷ 255 ∷ 0 ∷ [])).0 ≡ fresh
unfolding init
init_runs = refl

-- The server after Alice's request for 192.168.4.16.
abbrev served : Server
served = record fresh { lease = set fresh.lease 0 (renewed 5000 alice) }

discover_is_offered :
    (d : Server) × (q : Datagram) × (process env stack fresh (pbuf_of (packet alice discover_field))
      ≡ some (d, q ∷ []))
    × (get_elem? q.payload 19 ≡ some 16)
unfolding process handle dispatch opt_find opt_find_from on_discover scan probe is_expired reply
    finish_options socket_sendto opt_write_n opt_write_u8 opt_write_u32
discover_is_offered = (_, _, refl, refl)

length-packet : (mac bytes : List ℕ) → length (packet mac bytes) ≡ 548
length-packet mac bytes =
    length-blit (blit stack 28 mac) 240 bytes
    ∙ length-blit stack 28 mac
    ∙ length-replicate {A = ℕ} 548 0

opt_find-Explains_example : Explains (packet alice request_field) 240 50 (found 3)
unfolding opt_find opt_find_from
opt_find-Explains_example = opt_find-Explains (packet alice request_field) 240 50

opt_find-encode_example : opt_find (packet alice request_field) 240 50 ≡ found 3
opt_find-encode_example =
    opt_find-encode ((53, 3 ∷ []) ∷ (50, 192 ∷ 168 ∷ 4 ∷ 16 ∷ []) ∷ []) (packet alice request_field)
      240 50 (omega arith) (omega arith)
      (Holds-blit (blit stack 28 alice) 240 request_field (omega arith))

-- One option of 305 bytes of value, and a last byte.
abbrev long_opts : List Opt
long_opts = (12, replicate 305 7) ∷ []

abbrev long_field : List ℕ
long_field = encode long_opts ++ 9 ∷ []

opt_find_overrun_example : opt_find (packet alice long_field) 240 53 ≡ overrun
opt_find_overrun_example =
    opt_find_overrun long_opts (packet alice long_field) 240 53 9 (omega arith) (omega arith)
      (omega arith) (omega arith) refl (length-packet alice long_field)
      (Holds-blit (blit stack 28 alice) 240 long_field (omega arith))

expiry_after-is_expired_example :
    let l = renewed 4_294_960_000 alice in
    (is_expired (u32 (4_294_960_000 + 86_400_000)) l ≡ false)
    × (is_expired (u32 (4_294_960_000 + 86_465_536)) l ≡ true)
expiry_after-is_expired_example =
    expiry_after-is_expired 4_294_960_000 86_400_000 86_465_536 (renewed 4_294_960_000 alice)
      (omega arith) refl (omega arith) (omega arith) (omega arith)

scan_choice_example : (scan env.ticks_ms bob 0 max_ip served.lease).0 ≡ 1
unfolding is_expired expiry_after
scan_choice_example = scan_choice env.ticks_ms bob 0 served.lease (omega arith)

reply-IsReply_example :
    (p : Datagram) × IsReply served (packet alice request_field) 0 5 p
    × (reply env served (packet alice request_field) 0 5 ≡ p ∷ [])
reply-IsReply_example =
    reply-IsReply env served (packet alice request_field) 0 5 (refl, refl) (omega arith)
      (length-packet alice request_field)

bob_handled :
    (r : Server × List Datagram) × (process env stack served (pbuf_of (packet bob discover_field))
      ≡ some r)
unfolding process handle dispatch opt_find opt_find_from on_discover scan probe is_expired reply
    finish_options socket_sendto opt_write_n opt_write_u8 opt_write_u32
bob_handled = (_, refl)

process-keeps_held_example : get_elem? bob_handled.0.0.lease 0 ≡ some (renewed 5000 alice)
unfolding is_expired expiry_after
process-keeps_held_example =
    process-keeps_held env stack served (pbuf_of (packet bob discover_field)) 0 (renewed 5000 alice)
      refl (λ e. ground arith) (λ e. ground arith) refl bob_handled.1

process-Answers_example :
    (bob_handled.0.1 ≡ [])
    ⊎ ((q : Datagram) × Answers env
          (client_mac (message stack (pbuf_of (packet bob discover_field))))
          (patched served (message stack (pbuf_of (packet bob discover_field))))
          bob_handled.0
          q)
process-Answers_example =
    process-Answers env stack served (pbuf_of (packet bob discover_field)) (refl, refl) refl refl
      bob_handled.1

bob_run :
    (d : Server) × (run served
        (record { env = env; stack = stack; packet = pbuf_of (packet bob discover_field) } ∷ [])
      ≡ some d)
unfolding run process handle dispatch opt_find opt_find_from on_discover scan probe is_expired reply
    finish_options socket_sendto opt_write_n opt_write_u8 opt_write_u32
bob_run = (_, refl)

run-holds_lease_example : get_elem? bob_run.0.lease 0 ≡ some (renewed 5000 alice)
run-holds_lease_example =
    run-holds_lease
      (record { env = env; stack = stack; packet = pbuf_of (packet bob discover_field) } ∷ [])
      served 0 5000 (renewed 5000 alice) (omega arith) (λ e. ground arith) refl refl
      (((λ e. ground arith), (0, omega arith, refl)), tt) bob_run.1

-- Bob's offer of 192.168.4.17.
bob_offered :
    (d : Server) × (q : Datagram) × (process env stack served (pbuf_of (packet bob discover_field))
      ≡ some (d, q ∷ []))
    × (get_elem? q.payload 19 ≡ some 17)
    × (take 3 d.ip ≡ 192 ∷ 168 ∷ 4 ∷ [])
unfolding process handle dispatch opt_find opt_find_from on_discover scan probe is_expired reply
    finish_options socket_sendto opt_write_n opt_write_u8 opt_write_u32 expiry_after
bob_offered = (_, _, refl, refl, refl)

abbrev bob_field : List ℕ
bob_field = encode (request_opts 192 168 4 1 []) ++ 255 ∷ []

process-request_example :
    let received = message stack (pbuf_of (packet bob bob_field)) in
    let d'' = record bob_offered.0 { lease = set bob_offered.0.lease 1 (renewed 5000 bob) } in
    (ack : Datagram) × IsReply d'' (patched bob_offered.0 received) 1 5 ack
    × (process env stack bob_offered.0 (pbuf_of (packet bob bob_field)) ≡ some (d'', ack ∷ []))
process-request_example =
    process-request env env stack stack served bob_offered.0 (pbuf_of (packet bob discover_field))
      (pbuf_of (packet bob bob_field)) bob_offered.1 192 168 4 1 [] (refl, refl) refl refl refl
      bob_offered.2 bob_offered.3 (omega arith) (omega arith) refl _ (omega arith)
      (Holds-blit (blit stack 28 bob) 240 bob_field (omega arith)) bob_offered.4

handle_total_example :
    (r : Server × List Datagram) × (handle env served (packet bob discover_field) ≡ some r)
handle_total_example =
    handle_total env served (packet bob discover_field) ((53, 1 ∷ []) ∷ [])
      (length-packet bob discover_field) (λ e. ground arith, tt) (omega arith)
      (Holds-blit (blit stack 28 bob) 240 discover_field (omega arith))

served-IsValid : IsValid served
unfolding expiry_after
served-IsValid = record { addresses = (refl, refl); slots = refl; leases = omega arith }

process-IsValid_example :
    IsValid bob_handled.0.0
    × (bob_handled.0.0.ip ≡ served.ip)
    × (bob_handled.0.0.nm ≡ served.nm)
    × (bob_handled.0.0.udp ≡ served.udp)
process-IsValid_example =
    process-IsValid env stack served (pbuf_of (packet bob discover_field)) served-IsValid refl
      bob_handled.1
