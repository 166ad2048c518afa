-- ===== src/Common/Udp.antt =====
-- What the UDP servers hand to lwIP: the packets, and the calls that set a socket up or take it down.
use Prim.Native.Nat.{ℕ}
use mathlib.Core.List.{List}

-- A packet handed to `udp_sendto`: its bytes, the address and the port.
pub record Datagram : Type 0 where
  pub payload : List ℕ
  pub dest : List ℕ
  pub port : ℕ

-- `-ENOMEM`, an error of lwIP, or the length sent.
pub data SendResult : Type 0 where
  enomem : SendResult
  failed : ℕ → SendResult
  sent : ℕ → SendResult

-- `udp_recv`, `udp_bind` to a port, and `udp_remove`, with the handle.
pub data Call : Type 0 where
  receive_by : ℕ → Call
  bind : ℕ → ℕ → Call
  remove : ℕ → Call
