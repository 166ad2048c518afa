-- ===== src/IpStack/Tests.antt =====
-- Runs of the TCP client's ring, and its theorems at an input.
use pico_drone.Common.{◌≡◌, refl, some, none, true, false, List, [], ◌∷◌, ◌++◌, arith, replicate}
use pico_drone.Common.Pbuf.{Pbuf, pbuf_of}
use pico_drone.IpStack.{Stack, new, tcp_recved, pbuf_free, tcp_client_recv, Poll, read}
use pico_drone.IpStack.Ring.{IsRing}
use pico_drone.IpStack.Refine.{Carries}
use pico_drone.IpStack.Reading.{ArePolls}
use pico_drone.IpStack.Contents.{contents, tcp_client_recv-contents, read-contents}
use pico_drone.IpStack.Session.{Net}

-- 3 bytes stand round the end of the buffer.
abbrev wrapped : Stack
wrapped = record (new (7 ∷ 8 ∷ replicate 2045 0 ++ 6 ∷ [])) { count = 3; wr = 2; rd = 2047 }

wrapped-IsRing : IsRing wrapped
wrapped-IsRing = record {
  size = refl;
  full = omega arith;
  read_at = omega arith;
  write_at = refl;
  counter = omega arith;
}

abbrev packet : Pbuf
packet = pbuf_of (1 ∷ 2 ∷ [])

packet-Carries : Carries packet (1 ∷ 2 ∷ [])
packet-Carries = record { tot_len = refl; small = omega arith; copies = λ n off. refl }

tcp_client_recv-contents_example :
    IsRing (tcp_client_recv wrapped (some packet)).0
    × (contents (tcp_client_recv wrapped (some packet)).0 ≡ 6 ∷ 7 ∷ 8 ∷ 1 ∷ 2 ∷ [])
    × ((tcp_client_recv wrapped (some packet)).0.dropped ≡ 0)
    × ((tcp_client_recv wrapped (some packet)).1 ≡ tcp_recved 2 ∷ pbuf_free ∷ [])
tcp_client_recv-contents_example =
    tcp_client_recv-contents wrapped packet (1 ∷ 2 ∷ []) wrapped-IsRing packet-Carries

abbrev polls : List Poll
polls =
    record { arrived = none ∷ some packet ∷ []; timed_out = false }
    ∷ record { arrived = some packet ∷ []; timed_out = true }
    ∷ []

polls-ArePolls : ArePolls polls
polls-ArePolls = ((packet-Carries, tt), ((packet-Carries, tt), tt))

-- The second poll is not made.
read-contents_example :
    ((read wrapped 4 polls).0 ≡ 6 ∷ 7 ∷ 8 ∷ 1 ∷ [])
    × IsRing (read wrapped 4 polls).1
    × (contents (read wrapped 4 polls).1 ≡ 2 ∷ [])
read-contents_example = read-contents wrapped 4 polls wrapped-IsRing polls-ArePolls

abbrev net : Net
net = record {
  aton = λ t. some (192 ∷ 168 ∷ 4 ∷ 1 ∷ []);
  new_pcb = some 5;
  connect_err = 0;
  write_err = 0;
  output_err = 0;
  close_err = 0;
}
