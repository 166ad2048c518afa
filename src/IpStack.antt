-- ===== src/IpStack.antt =====
-- src/ipstack/IPStack.cpp: a TCP client with a ring buffer of 2048 bytes between lwIP's callback and
-- the reader.
pub mod Ring
pub mod Refine
pub mod Reading
pub mod Contents
pub mod Session
mod Tests
use pico_drone.Common.{
  ℕ, zero, suc, ◌+◌, ◌-◌, ◌%◌, ◌^◌, Option, none, some, Bool, true, false, List, [], ◌∷◌, ◌++◌, ltb,
  ◌==◌, if◌then◌else◌, not, ◌&&◌, u16, u32, length, take, drop, blit, replicate,
}
use pico_drone.Common.Pbuf.{Pbuf}

abbrev pub buf_size : ℕ
buf_size = 2048

-- The members of `IPStack`; `tcp_pcb` is null or a handle.
pub record Stack : Type 0 where
  pub tcp_pcb : Option ℕ
  pub buffer : List ℕ
  pub count : ℕ
  pub dropped : ℕ
  pub wr : ℕ
  pub rd : ℕ
  pub connected : Bool

-- The constructor, with what the uninitialised `buffer` holds.
abbrev pub new : List ℕ → Stack
new memory = record {
  tcp_pcb = none;
  buffer = memory;
  count = 0;
  dropped = 0;
  wr = 0;
  rd = 0;
  connected = false;
}

-- The difference of two numbers as a `uint16_t`.
infixl 60 ◌⊖◌
abbrev pub ◌⊖◌ : ℕ → ℕ → ℕ
a ⊖ b = u16 (a + 2 ^ 16 - b)

-- The first copy up to the end of the buffer.
unfoldable pub first_copied : Stack → Pbuf → ℕ → Stack × (ℕ × ℕ)
first_copied s p bytes_to_copy =
    let first_copy = buf_size ⊖ s.wr in
    let copied = p.copy_partial first_copy 0 in
    let s' = record s { count = u16 (s.count + first_copy) } in
    if first_copy == 0 then (s', (bytes_to_copy, first_copy)) else (
      record s' { buffer = blit s.buffer s.wr copied; wr = 0 },
      (bytes_to_copy ⊖ length copied, first_copy),
    )

-- The copy of the part before the end of the buffer, if the bytes go past it: the state, what is
-- left of `bytes_to_copy`, and `first_copy`.
unfoldable pub first_part : Stack → Pbuf → ℕ → Stack × (ℕ × ℕ)
first_part s p bytes_to_copy =
    if not (ltb buf_size (u16 (s.wr + bytes_to_copy)))
    then (s, (bytes_to_copy, 0))
    else first_copied s p bytes_to_copy

unfoldable pub second_part : Stack × (ℕ × ℕ) → Pbuf → Stack
second_part (s, (bytes_to_copy, first_copy)) p =
    let copied = p.copy_partial bytes_to_copy first_copy in
    record s {
      buffer = blit s.buffer s.wr copied;
      wr = u16 (s.wr + length copied) % buf_size;
      count = u16 (s.count + bytes_to_copy);
    }

-- `tcp_client_recv` for a packet that is not empty.
unfoldable pub receive : Stack → Pbuf → Stack
receive s p =
    let available = buf_size ⊖ s.count in
    let bytes_to_copy = if ltb p.tot_len available then p.tot_len else available in
    let dropped =
      if ltb bytes_to_copy p.tot_len
      then u32 (s.dropped + (p.tot_len - bytes_to_copy))
      else s.dropped in
    second_part (first_part (record s { dropped = dropped }) p bytes_to_copy) p

-- What `tcp_client_recv` calls: `tcp_recved` with a length, and `pbuf_free`.
pub data RecvCall : Type 0 where
  tcp_recved : ℕ → RecvCall
  pbuf_free : RecvCall

-- No packet is the close of the connection.
unfoldable pub tcp_client_recv : Stack → Option Pbuf → Stack × List RecvCall
tcp_client_recv s none = (s, [])
tcp_client_recv s (some p) =
    if ltb 0 p.tot_len
    then (receive s p, tcp_recved p.tot_len ∷ pbuf_free ∷ [])
    else (s, pbuf_free ∷ [])

-- One round of the loop of `read`: the packets that the poll delivers, and whether the time is over
-- behind it.
pub record Poll : Type 0 where
  pub arrived : List (Option Pbuf)
  pub timed_out : Bool

abbrev pub receive_all : Stack → List (Option Pbuf) → Stack
receive_all s [] = s
receive_all s (p ∷ ps) = receive_all (tcp_client_recv s p).0 ps

-- The rounds as far as the loop makes them.
unfoldable pub wait : Stack → ℕ → List Poll → Stack
wait s len [] = s
wait s len (poll ∷ polls) =
    let s' = receive_all s poll.arrived in
    let later = wait s' len polls in if ltb s'.count len && not poll.timed_out then later else s'

-- The two copies of `read` when the bytes go past the end of the buffer, and the single one.
unfoldable pub take_two : Stack → ℕ → List ℕ × Stack
take_two s bytes_to_copy =
    let first_copy = buf_size ⊖ s.rd in
    let rest = bytes_to_copy - first_copy in
    (
      take first_copy (drop s.rd s.buffer) ++ take rest s.buffer,
      record s { rd = rest; count = s.count ⊖ first_copy ⊖ rest },
    )

unfoldable pub take_one : Stack → ℕ → List ℕ × Stack
take_one s bytes_to_copy = (
  take bytes_to_copy (drop s.rd s.buffer),
  record s { rd = (s.rd + bytes_to_copy) % buf_size; count = s.count ⊖ bytes_to_copy },
)

-- `read` behind its loop, for a length that is not negative: the bytes stored at `buffer`, whose
-- number is the result, and the state.
unfoldable pub take_out : Stack → ℕ → List ℕ × Stack
take_out s len =
    let bytes_to_copy = if ltb s.count len then s.count else len in
    if bytes_to_copy == 0
    then ([], s)
    else if ltb buf_size (u16 (s.rd + bytes_to_copy))
    then take_two s bytes_to_copy
    else take_one s bytes_to_copy

unfoldable pub read : Stack → ℕ → List Poll → List ℕ × Stack
read s len polls = take_out (wait s len polls) len
