-- ===== src/Dns.antt =====
-- src/ipstack/dnsserver.c: a DNS server that answers every query with the address of the board.
-- `dns_msg` is its 300 bytes; `none` is a read or write behind them.
pub mod Name
pub mod Response
pub mod Handler
pub mod Queries
mod Tests
use pico_drone.Common.{
  ℕ, zero, suc, ◌+◌, ◌-◌, ◌*◌, ◌%◌, ◌^◌, Option, none, some, Bool, true, false, not, ◌||◌, List, [],
  ◌∷◌, ltb, ◌==◌, if◌then◌else◌, bit_or, u8, ◌<<◌, ◌>>>◌, length, get_elem?, take, blit,
}
use pico_drone.Common.Memory.{◌>>=◌}
use pico_drone.Common.Pbuf.{Pbuf}
use pico_drone.Common.Udp.{
  Datagram, SendResult, enomem, failed, sent, Call, receive_by, bind, remove,
}

-- `dns_server_t`; `udp` is NULL or a handle, `ip` the four bytes in memory.
pub record Server : Type 0 where
  pub udp : Option ℕ
  pub ip : List ℕ

abbrev pub max_dns_msg_size : ℕ
max_dns_msg_size = 300

-- `sizeof (dns_header_t)`, where the question starts.
abbrev pub header_size : ℕ
header_size = 12

-- Whether `pbuf_alloc` finds the memory, and the error of `udp_sendto` (0 is ERR_OK).
pub record Env : Type 0 where
  pub pbuf_alloc : ℕ → Bool
  pub udp_sendto : Datagram → ℕ

unfoldable pub socket_sendto : Env → List ℕ → ℕ → List ℕ → ℕ → SendResult × List Datagram
socket_sendto env buf len dest port =
    let len' = if ltb 0xffff len then 0xffff else len in
    let p : Datagram = record { payload = take len' buf; dest = dest; port = port } in
    if not (env.pbuf_alloc len')
    then (enomem, [])
    else (if env.udp_sendto p == 0 then sent len' else failed (env.udp_sendto p), p ∷ [])

-- `lwip_ntohs` of the field at `i`, and the two bytes that `lwip_htons (v)` stores.
abbrev pub ntohs : List ℕ → ℕ → Option ℕ
ntohs msg i = do high ← get_elem? msg i; low ← get_elem? msg (i + 1); some (high * 2 ^ 8 + low)

abbrev pub htons : ℕ → List ℕ
htons v = u8 (v >>> 8) ∷ u8 v ∷ []

-- How the loop over the labels ends: behind the name, at a label of more than 63 bytes, or at a
-- read behind `dns_msg`. `stuck` is the loop cut short.
pub data Walk : Type 0 where
  name_end : ℕ → Walk
  invalid overrun stuck : Walk

-- The loop with `question_ptr` at `i` and `question_ptr_end` at `end`.
unfoldable pub walk : ℕ → List ℕ → ℕ → ℕ → Walk
walk zero msg end i = stuck
walk (suc rounds) msg end i = elim (ltb i end) [
  | false ↦ name_end i
  | true ↦ elim (get_elem? msg i) [
    | none ↦ overrun
    | some label_len ↦ elim (label_len == 0) [
      | true ↦ name_end (i + 1)
      | false ↦ elim (ltb 63 label_len) [
        | true ↦ invalid
        | false ↦ walk rounds msg end (i + 1 + label_len)
      ]
    ]
  ]
]

-- One round more than the bytes behind the header.
abbrev pub rounds : ℕ
rounds = 289

-- The answer record: a pointer to the question, host address, Internet class, 60 s, 4 bytes.
abbrev pub answer : List ℕ → List ℕ
answer ip = 0xc0 ∷ header_size ∷ 0 ∷ 1 ∷ 0 ∷ 1 ∷ 0 ∷ 0 ∷ 0 ∷ 60 ∷ 0 ∷ 4 ∷ take 4 ip

-- QR, AA and RA.
abbrev pub reply_flags : ℕ
reply_flags = bit_or (bit_or (1 << 15) (1 << 10)) (1 << 7)

-- The header fields of the reply, from `flags` on.
abbrev pub reply_fields : List ℕ → List ℕ
reply_fields msg =
    let m1 = blit msg 2 (htons reply_flags) in
    let m2 = blit m1 4 (htons 1) in
    let m3 = blit m2 6 (htons 1) in let m4 = blit m3 8 (0 ∷ 0 ∷ []) in blit m4 10 (0 ∷ 0 ∷ [])

-- The end of the handler, with `question_ptr` behind QTYPE and QCLASS; a write that does not fit
-- in the array is `none`.
unfoldable pub respond : Env → Server → List ℕ → ℕ → List ℕ → ℕ → Option (List Datagram)
respond env d msg question_end src port =
    let written = blit msg question_end (answer d.ip) in
    let reply_len = question_end + length (answer d.ip) in
    if ltb (length msg) reply_len
    then none
    else some ((socket_sendto env (reply_fields written) reply_len src port).1)

-- The tests of the flags and of the question count.
unfoldable pub is_query : ℕ → ℕ → Bool
is_query flags question_count =
    not
      (not ((flags >>> 15) % 2 == 0) || (not ((flags >>> 11) % 2 ^ 4 == 0) || ltb question_count 1))

-- From the test of the question's length on.
unfoldable pub after_name : Env → Server → List ℕ → Walk → List ℕ → ℕ → Option (List Datagram)
after_name env d msg (name_end i) src port =
    if ltb 255 (i - header_size) then some [] else respond env d msg (i + 4) src port
after_name env d msg invalid src port = some []
after_name env d msg overrun src port = none
after_name env d msg stuck src port = none

-- From the reads of the header on, with `msg_len` bytes of `dns_msg` received.
unfoldable pub handle : Env → Server → List ℕ → ℕ → List ℕ → ℕ → Option (List Datagram)
handle env d msg msg_len src port = do
  flags ← ntohs msg 2
  question_count ← ntohs msg 4
  elim (is_query flags question_count) [
    | true ↦ after_name env d msg (walk rounds msg msg_len header_size) src port
    | false ↦ some []
  ]

-- `stack` is what the 300 bytes of `dns_msg` hold before the packet is copied over them.
unfoldable pub process : Env → List ℕ → Server → Pbuf → List ℕ → ℕ → Option (List Datagram)
process env stack d p src port =
    let received = p.copy_partial max_dns_msg_size 0 in
    if ltb (length received) header_size
    then some []
    else handle env d (blit stack 0 received) (length received) src port

-- `assert (false)` on an error of `udp_bind` stops a build without NDEBUG: `none`.
unfoldable pub init : Bool → Option ℕ → ℕ → Server → List ℕ → Option (Server × List Call)
init ndebug udp_new bind_err d ip = elim udp_new [
  | none ↦ some (record d { udp = none }, [])
  | some h ↦
      let calls = receive_by h ∷ bind h 53 ∷ [] in
      if bind_err == 0
      then some (record { udp = some h; ip = ip }, calls)
      else if ndebug
      then some (record d { udp = some h }, calls)
      else none
]

unfoldable pub deinit : Server → Server × List Call
deinit d = elim d.udp [ none ↦ (d, []) | some h ↦ (record d { udp = none }, remove h ∷ []) ]
