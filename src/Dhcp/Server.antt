-- ===== src/Dhcp/Server.antt =====
-- src/ipstack/dhcpserver.c: the sockets, `dhcp_server_process`, `dhcp_server_init` and
-- `dhcp_server_deinit`. The message is its 548 bytes; `none` is a read behind them.
pub mod Reply
pub mod Effect
pub mod Ownership
pub mod Exchange
pub mod Hold
pub mod Invariant
pub mod Safety
use pico_drone.Common.{
  ℕ, ◌+◌, ◌-◌, Option, none, some, Bool, not, ◌||◌, List, [], ◌∷◌, ltb, leb, ◌==◌, if◌then◌else◌,
  u8, ◌>>>◌, length, get_elem?, set, take, drop, blit, replicate,
}
use pico_drone.Common.Memory.{◌>>=◌}
use pico_drone.Common.Pbuf.{Pbuf}
pub use pico_drone.Common.Udp.{
  Datagram, SendResult, enomem, failed, sent, Call, receive_by, bind, remove,
}
use pico_drone.Dhcp.Options.{
  found, null, overrun, stuck, opt_end, opt_find, Cursor, put, opt_write_n, opt_write_u8,
  opt_write_u32,
}
use pico_drone.Dhcp.Leases.{
  Lease, base_ip, max_ip, mac_len, no_mac, lease_time_s, bytes_eq, scan, grant,
}

-- `dhcp_server_t`; `ip` and `nm` are the four bytes in memory, `udp` is NULL or a handle.
pub record Server : Type 0 where
  pub ip : List ℕ
  pub nm : List ℕ
  pub lease : List Lease
  pub udp : Option ℕ

-- The members of `dhcp_msg_t` that the code names, by their offsets.
abbrev pub yiaddr_at : ℕ
yiaddr_at = 16

abbrev pub chaddr_at : ℕ
chaddr_at = 28

-- The options behind the magic cookie, which starts at 236.
abbrev pub options_at : ℕ
options_at = 240

abbrev pub msg_size : ℕ
msg_size = 548

abbrev pub min_size : ℕ
min_size = 240 + 3

abbrev pub dhcp_offer : ℕ
dhcp_offer = 2

abbrev pub dhcp_ack : ℕ
dhcp_ack = 5

abbrev pub port_dhcp_server : ℕ
port_dhcp_server = 67

abbrev pub port_dhcp_client : ℕ
port_dhcp_client = 68

abbrev pub opt_msg_type : ℕ
opt_msg_type = 53

abbrev pub opt_requested_ip : ℕ
opt_requested_ip = 50

-- What the environment answers: the millisecond clock at its n-th reading, whether `pbuf_alloc`
-- finds the memory, and the error that `udp_sendto` returns, by its absolute value (0 is ERR_OK).
pub record Env : Type 0 where
  pub ticks_ms : ℕ → ℕ
  pub pbuf_alloc : ℕ → Bool
  pub udp_sendto : Datagram → ℕ

-- `IP4_ADDR` of the four bytes of an address, the first one at the top.
abbrev pub ip4_addr : ℕ → List ℕ
ip4_addr ip = u8 (ip >>> 24) ∷ u8 (ip >>> 16) ∷ u8 (ip >>> 8) ∷ u8 ip ∷ []

-- The result, and the packets handed to lwIP.
unfoldable pub socket_sendto : Env → List ℕ → ℕ → ℕ → ℕ → SendResult × List Datagram
socket_sendto env buf len ip port =
    let len' = if ltb 0xffff len then 0xffff else len in
    let p : Datagram = record { payload = take len' buf; dest = ip4_addr ip; port = port } in
    if not (env.pbuf_alloc len')
    then (enomem, [])
    else (if env.udp_sendto p == 0 then sent len' else failed (env.udp_sendto p), p ∷ [])

-- The options behind the message type, which is written already, and the end of `process`.
unfoldable pub finish_options : Server → Cursor → Cursor
finish_options d c =
    let c1 = opt_write_n c 54 4 d.ip in
    let c2 = opt_write_n c1 1 4 d.nm in
    let c3 = opt_write_n c2 3 4 d.ip in
    let c4 = opt_write_n c3 6 4 d.ip in put (opt_write_u32 c4 51 lease_time_s) opt_end

-- The last byte of the address does not wrap, since `yi` is a slot.
unfoldable pub reply : Env → Server → List ℕ → ℕ → ℕ → List Datagram
reply env d msg yi type =
    let mem = set msg (yiaddr_at + 3) (base_ip + yi) in
    let c : Cursor = record { mem = mem; opt = options_at } in
    let c' = finish_options d (opt_write_u8 c opt_msg_type type) in
    (socket_sendto env c'.mem c'.opt 0xffff_ffff port_dhcp_client).1

-- The first six bytes of `chaddr`.
abbrev pub client_mac : List ℕ → List ℕ
client_mac msg = take mac_len (drop chaddr_at msg)

unfoldable pub on_discover : Env → Server → List ℕ → Server × List Datagram
on_discover env d msg =
    let (yi, leases) = scan env.ticks_ms (client_mac msg) 0 max_ip d.lease in
    let d' = record d { lease = leases } in
    (d', if yi == max_ip then [] else reply env d' msg yi dhcp_offer)

-- The last byte of the requested address has been read, and its first three are the server's.
unfoldable pub grant_slot : Env → Server → List ℕ → ℕ → Server × List Datagram
grant_slot env d msg last =
    let yi = u8 (last + 256 - base_ip) in
    if leb max_ip yi then (d, []) else elim (grant (env.ticks_ms 0) (client_mac msg) yi d.lease) [
      | none ↦ (d, [])
      | some leases ↦ let d' = record d { lease = leases } in (d', reply env d' msg yi dhcp_ack)
    ]

-- The option stands at `options_at + i`; `memcmp` reads the three bytes of the network, and the
-- last byte is read when they are the server's.
unfoldable pub request_at : Env → Server → List ℕ → ℕ → Option (Server × List Datagram)
request_at env d msg i = do
  a ← get_elem? msg (options_at + i + 2)
  b ← get_elem? msg (options_at + i + 3)
  c ← get_elem? msg (options_at + i + 4)
  (if bytes_eq (a ∷ b ∷ c ∷ []) (take 3 d.ip)
      then (do last ← get_elem? msg (options_at + i + 5); some (grant_slot env d msg last))
      else some (d, []))

unfoldable pub on_request : Env → Server → List ℕ → Option (Server × List Datagram)
on_request env d msg = elim (opt_find msg options_at opt_requested_ip) [
  | found i ↦ request_at env d msg i
  | null ↦ some (d, [])
  | overrun ↦ none
  | stuck ↦ none
]

-- The `switch` on the message type.
unfoldable pub dispatch : Env → Server → List ℕ → ℕ → Option (Server × List Datagram)
dispatch env d msg type =
    if type == 1
    then some (on_discover env d msg)
    else if type == 3
    then on_request env d msg
    else some (d, [])

-- The message as received, before `op` and `yiaddr` are overwritten.
unfoldable pub handle : Env → Server → List ℕ → Option (Server × List Datagram)
handle env d received =
    let msg = blit (set received 0 dhcp_offer) yiaddr_at (take 4 d.ip) in
    elim (opt_find msg options_at opt_msg_type) [
      | found i ↦ (do type ← get_elem? msg (options_at + i + 2); dispatch env d msg type)
      | null ↦ some (d, [])
      | overrun ↦ none
      | stuck ↦ none
    ]

-- `stack` is what the 548 bytes of `dhcp_msg` hold before the packet is copied over them.
unfoldable pub process : Env → List ℕ → Server → Pbuf → Option (Server × List Datagram)
process env stack d p =
    let received = p.copy_partial msg_size 0 in
    if ltb p.tot_len min_size || ltb (length received) min_size
    then some (d, [])
    else handle env d (blit stack 0 received)

-- `udp_new ()` gives NULL or a handle; the error of `udp_bind` is not looked at.
unfoldable pub init : Option ℕ → List ℕ → List ℕ → Server × List Call
init udp_new ip nm =
    let leases : List Lease = replicate max_ip (record { mac = no_mac; expiry = 0 }) in
    let d : Server = record { ip = ip; nm = nm; lease = leases; udp = udp_new } in
    elim udp_new [ none ↦ (d, []) | some h ↦ (d, receive_by h ∷ bind h port_dhcp_server ∷ []) ]

unfoldable pub deinit : Server → Server × List Call
deinit d = elim d.udp [ none ↦ (d, []) | some h ↦ (record d { udp = none }, remove h ∷ []) ]
