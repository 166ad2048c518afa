-- ===== src/IpStack/Reading.antt =====
-- The read as an operation of a queue: with what is there, and with what arrives while it polls.
use pico_drone.Common.{
  ℕ, zero, suc, ◌+◌, ◌-◌, ◌%◌, ◌≤◌, ◌<◌, ◌≡◌, inl, inr, refl, sym, ap, ◌∙◌, subst, Option, none,
  some, not, ◌&&◌, true, false, List, [], ◌∷◌, ◌++◌, ltb, ◌==◌, if◌then◌else◌, arith, u16, u32,
  Bool-cases, length, take, drop, length-drop, min,
}
use mathlib.Core.Path.{ap₂}
use mathlib.Core.List.{append-nil}
use pico_drone.Common.Append.{take-min, drop-min}
use pico_drone.Common.Pbuf.{Pbuf}
use pico_drone.IpStack.{
  Stack, buf_size, ◌⊖◌, take_one, take_two, take_out, tcp_client_recv, tcp_recved, pbuf_free, Poll,
  receive_all, wait, read,
}
use pico_drone.IpStack.Ring.{Represents, Ringed-drop, Ringed-take_one, Ringed-take_two}
use pico_drone.IpStack.Refine.{Carries, receive-Represents}

-- The state after `n` bytes have been read out.
abbrev advanced : Stack → ℕ → Stack
advanced s n = record s { rd = (s.rd + n) % buf_size; count = s.count - n }

advanced-Represents :
    (s : Stack) (q : List ℕ) (n : ℕ)
    → Represents s q
    → n ≤ s.count
    → Represents (advanced s n) (drop n q)
advanced-Represents s q n r le = record {
  ring = record {
    size = r.ring.size;
    full = omega (arith, r.ring.full);
    read_at = omega arith;
    write_at = omega (arith, r.ring.write_at);
    counter = r.ring.counter;
  };
  size = omega (arith, length-drop n q, r.size);
  bytes =
      Ringed-drop s.buffer s.rd ((s.rd + n) % buf_size) n q refl (omega (arith, r.size)) r.bytes;
}

take_one_lem :
    (s : Stack) (q : List ℕ) (n : ℕ)
    → Represents s q
    → n ≤ s.count
    → s.rd + n ≤ buf_size
    → take_one s n ≡ (take n q, advanced s n)
unfolding take_one
take_one_lem s q n r le fits =
    let left : s.count ⊖ n ≡ s.count - n = omega (arith, r.ring.full) in
    rw (left, Ringed-take_one s.buffer s.rd n q r.ring.size fits (omega (arith, r.size)) r.bytes)
      refl

take_two_lem :
    (s : Stack) (q : List ℕ) (n : ℕ)
    → Represents s q
    → n ≤ s.count
    → buf_size < s.rd + n
    → take_two s n ≡ (take n q, advanced s n)
unfolding take_two
take_two_lem s q n r le past =
    let first : buf_size ⊖ s.rd ≡ buf_size - s.rd = omega (arith, r.ring.read_at) in
    let left : s.count ⊖ (buf_size - s.rd) ⊖ (n - (buf_size - s.rd)) ≡ s.count - n =
      omega (arith, r.ring.full) in
    let index : n - (buf_size - s.rd) ≡ (s.rd + n) % buf_size =
      omega (arith, r.ring.full, r.ring.read_at) in
    let bytes =
      Ringed-take_two s.buffer s.rd (buf_size - s.rd) n q r.ring.size r.ring.read_at refl
        (omega arith) (omega (arith, r.size)) (omega (arith, r.ring.full)) r.bytes in
    rw (first, left, bytes, index) refl

take_out_lem :
    (s : Stack) (q : List ℕ) (len n : ℕ)
    → Represents s q
    → n ≡ min (length q) len
    → take_out s len ≡ (take n q, advanced s n)
unfolding take_out
take_out_lem s q len n r e =
    let whole : (if ltb s.count len then s.count else len) ≡ n = ground (arith, r.size) in
    let small : u16 (s.rd + n) ≡ s.rd + n = omega (arith, r.size, r.ring.full, r.ring.read_at) in
    rw (whole, small)
      (elim (Bool-cases (n == 0)) [
        | inl empty ↦
            let same : s.rd ≡ (s.rd + 0) % buf_size = omega (arith, r.ring.read_at) in
            let left : s.count ≡ s.count - 0 = omega arith in
            let gone : n ≡ 0 = ground arith in
            rw (empty, gone) (ap₂ (λ i c. ([], record s { rd = i; count = c })) same left)
        | inr any ↦ elim (Bool-cases (ltb buf_size (s.rd + n))) [
          | inl past ↦ rw (any, past) (take_two_lem s q n r (omega (arith, r.size)) (ground arith))
          | inr fits ↦ rw (any, fits) (take_one_lem s q n r (omega (arith, r.size)) (ground arith))
        ]
      ])

-- From a ring that holds the queue `q`, the copies of a read take `len` bytes of its front, or all
-- there are if these are fewer, and leave a ring that holds the rest.
pub take_out-Represents :
    (s : Stack) (q : List ℕ) (len : ℕ)
    → Represents s q
    → ((take_out s len).0 ≡ take len q) × Represents (take_out s len).1 (drop len q)
take_out-Represents s q len r =
    let n = min (length q) len in
    let e = take_out_lem s q len n r refl in
    (
      ap (λ t. t.0) e ∙ take-min n len q refl,
      subst (λ l. Represents (take_out s len).1 l) (drop-min n len q refl)
          (subst (λ t. Represents t (drop n q)) (sym (ap (λ t. t.1) e))
            (advanced-Represents s q n r (omega (arith, r.size)))),
    )

-- A packet holds the bytes that its whole copy delivers.
abbrev pub bytes_of : Pbuf → List ℕ
bytes_of p = p.copy_partial p.tot_len 0

-- The queue behind a callback: the bytes that there is room for are appended.
abbrev pub arrive : List ℕ → Option Pbuf → List ℕ
arrive q none = q
arrive q (some p) = q ++ take (buf_size - length q) (bytes_of p)

abbrev pub arrive_all : List ℕ → List (Option Pbuf) → List ℕ
arrive_all q [] = q
arrive_all q (p ∷ ps) = arrive_all (arrive q p) ps

-- The queue when a read of `len` bytes stops to wait: enough is there, or the time is over.
abbrev pub arrive_until : List ℕ → ℕ → List Poll → List ℕ
arrive_until q len [] = q
arrive_until q len (poll ∷ polls) =
    let q' = arrive_all q poll.arrived in
    let later = arrive_until q' len polls in
    if ltb (length q') len && not poll.timed_out then later else q'

abbrev pub ArePackets : List (Option Pbuf) → Type 0
ArePackets [] = Unit
ArePackets (none ∷ ps) = ArePackets ps
ArePackets (some p ∷ ps) = Carries p (bytes_of p) × ArePackets ps

abbrev pub ArePolls : List Poll → Type 0
ArePolls [] = Unit
ArePolls (poll ∷ polls) = ArePackets poll.arrived × ArePolls polls

recv_closed : (s : Stack) (q : List ℕ) → Represents s q → Represents (tcp_client_recv s none).0 q
unfolding tcp_client_recv
recv_closed s q r = r

wait_none : (s : Stack) (q : List ℕ) (len : ℕ) → Represents s q → Represents (wait s len []) q
unfolding wait
wait_none s q len r = r

append-nil_take : (q : List ℕ) (n : ℕ) → q ++ take n [] ≡ q
append-nil_take q zero = append-nil q
append-nil_take q (suc n) = append-nil q

-- For a ring that holds the queue `q`, and a packet whose copies are what lwIP documents: the
-- callback appends the bytes that 2048 have room for and adds the number of the others to
-- `dropped`, modulo 2^32; it acknowledges the whole length, unless the packet is empty, and then
-- frees the packet.
pub tcp_client_recv-Represents :
    (s : Stack) (p : Pbuf) (q bs : List ℕ)
    → Represents s q
    → Carries p bs
    → Represents (tcp_client_recv s (some p)).0 (q ++ take (buf_size - length q) bs)
      × ((tcp_client_recv s (some p)).0.dropped
          ≡ u32 (s.dropped + (length bs - (buf_size - length q))))
      × ((tcp_client_recv s (some p)).1
          ≡ (if length bs == 0 then pbuf_free ∷ [] else tcp_recved (length bs) ∷ pbuf_free ∷ []))
unfolding tcp_client_recv
tcp_client_recv-Represents s p q [] r carries = rw carries.tot_len (
  subst (Represents s) (sym (append-nil_take q (buf_size - length q))) r,
  omega (arith, r.ring.counter),
  refl,
)
tcp_client_recv-Represents s p q (x ∷ bs) r carries =
    let some_byte : ltb 0 p.tot_len ≡ true = ground (arith, carries.tot_len) in
    let none_left : (length (x ∷ bs) == 0) ≡ false = ground arith in
    let (kept, counted) = receive-Represents s p q (x ∷ bs) r carries in
    rw (some_byte, none_left)
      (kept, counted, ap (λ n. tcp_recved n ∷ pbuf_free ∷ []) carries.tot_len)

receive_all-Represents :
    (s : Stack) (q : List ℕ) (ps : List (Option Pbuf))
    → Represents s q
    → ArePackets ps
    → Represents (receive_all s ps) (arrive_all q ps)
receive_all-Represents s q [] r good = r
receive_all-Represents s q (none ∷ ps) r good =
    receive_all-Represents (tcp_client_recv s none).0 q ps (recv_closed s q r) good
receive_all-Represents s q (some p ∷ ps) r (carries, good) =
    receive_all-Represents (tcp_client_recv s (some p)).0 (arrive q (some p)) ps
      (tcp_client_recv-Represents s p q (bytes_of p) r carries).0 good

wait_lem :
    (s : Stack) (len : ℕ) (poll : Poll) (polls : List Poll)
    → wait s len (poll ∷ polls) ≡ (
        if ltb (receive_all s poll.arrived).count len && not poll.timed_out
        then wait (receive_all s poll.arrived) len polls
        else receive_all s poll.arrived)
unfolding wait
wait_lem s len poll polls = refl

wait-Represents :
    (s : Stack) (q : List ℕ) (len : ℕ) (polls : List Poll)
    → Represents s q
    → ArePolls polls
    → Represents (wait s len polls) (arrive_until q len polls)
wait-Represents s q len [] r good = wait_none s q len r
wait-Represents s q len (poll ∷ polls) r (good, later) =
    let r' = receive_all-Represents s q poll.arrived r good in
    rw (wait_lem s len poll polls, sym r'.size)
      (elim (Bool-cases (ltb (length (arrive_all q poll.arrived)) len && not poll.timed_out)) [
        | inl more ↦ rw more (
            wait-Represents (receive_all s poll.arrived) (arrive_all q poll.arrived) len polls r'
              later)
        | inr enough ↦ rw enough r'
      ])

-- For a ring that holds the queue `q`, and packets whose copies are what lwIP documents: a read
-- returns the front of the queue as it is when the wait stops, `len` bytes or all there are if
-- these are fewer, in the order in which they arrived, and leaves the rest.
pub read-Represents :
    (s : Stack) (q : List ℕ) (len : ℕ) (polls : List Poll)
    → Represents s q
    → ArePolls polls
    → ((read s len polls).0 ≡ take len (arrive_until q len polls))
      × Represents (read s len polls).1 (drop len (arrive_until q len polls))
unfolding read
read-Represents s q len polls r good =
    take_out-Represents (wait s len polls) (arrive_until q len polls) len
      (wait-Represents s q len polls r good)
