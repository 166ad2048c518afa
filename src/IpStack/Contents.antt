-- ===== src/IpStack/Contents.antt =====
-- What the ring holds as a function of the state, and the callback and the read in terms of it.
use pico_drone.Common.{
  ℕ, ◌+◌, ◌-◌, ◌%◌, ◌<◌, ◌≡◌, sym, ◌∙◌, inl, inr, some, List, [], ◌∷◌, ◌++◌, arith, ltb, ◌==◌,
  if◌then◌else◌, Bool-cases, u32, length, get_elem?, take, drop, length-take, length-drop,
  length-append,
}
use pico_drone.Common.Blit.{
  get_elem?-take, get_elem?-drop, get_elem?-append_left, get_elem?-append_right,
}
use pico_drone.Common.Pbuf.{Pbuf}
use pico_drone.IpStack.{
  Stack, buf_size, tcp_client_recv, tcp_recved, pbuf_free, Poll, take_out, read,
}
use pico_drone.IpStack.Ring.{IsRing, Represents, extensional}
use pico_drone.IpStack.Refine.{Carries}
use pico_drone.IpStack.Reading.{
  arrive_until, ArePolls, take_out-Represents, tcp_client_recv-Represents, read-Represents,
}

-- `count` bytes from `rd` on, round the end of the buffer.
abbrev pub contents : Stack → List ℕ
contents s = take s.count (drop s.rd s.buffer ++ s.buffer)

length-contents : (s : Stack) → IsRing s → length (contents s) ≡ s.count
length-contents s ring = omega (
  arith,
  length-take s.count (drop s.rd s.buffer ++ s.buffer),
  length-append (drop s.rd s.buffer) s.buffer,
  length-drop s.rd s.buffer,
  ring.size,
  ring.full,
  ring.read_at,
)

contents_byte :
    (s : Stack) (j : ℕ)
    → IsRing s
    → j < s.count
    → get_elem? (contents s) j ≡ get_elem? s.buffer ((s.rd + j) % buf_size)
contents_byte s j ring lt =
    get_elem?-take s.count (drop s.rd s.buffer ++ s.buffer) j lt
    ∙ elim (Bool-cases (ltb j (buf_size - s.rd))) [
      | inl low ↦
          get_elem?-append_left (drop s.rd s.buffer) s.buffer j
            (ground (arith, length-drop s.rd s.buffer, ring.size))
          ∙ get_elem?-drop s.rd s.buffer j ((s.rd + j) % buf_size) (ground arith)
      | inr high ↦
          get_elem?-append_right (drop s.rd s.buffer) s.buffer ((s.rd + j) % buf_size) j
            (ground (arith, length-drop s.rd s.buffer, ring.size, ring.full, ring.read_at))
    ]

contents-Represents : (s : Stack) → IsRing s → Represents s (contents s)
contents-Represents s ring = record {
  ring = ring;
  size = length-contents s ring;
  bytes = λ j lt. sym (contents_byte s j ring (omega (arith, length-contents s ring)));
}

Represents-contents : (s : Stack) (q : List ℕ) → Represents s q → contents s ≡ q
Represents-contents s q r =
    extensional (contents s) q (length-contents s r.ring ∙ sym r.size) (λ j lt.
      contents_byte s j r.ring (omega (arith, length-contents s r.ring))
      ∙ r.bytes j (omega (arith, length-contents s r.ring, r.size)))

-- On a well-formed ring, and with a packet whose copies are what lwIP documents, the callback
-- appends the bytes that 2048 have room for and adds the number of the others to `dropped`, modulo
-- 2^32; it acknowledges the whole length, unless the packet is empty, and then frees the packet.
-- The ring stays well-formed.
pub tcp_client_recv-contents :
    (s : Stack) (p : Pbuf) (bs : List ℕ)
    → IsRing s
    → Carries p bs
    → let (s', calls) = tcp_client_recv s (some p) in
      let room = buf_size - length (contents s) in
      IsRing s'
      × (contents s' ≡ contents s ++ take room bs)
      × (s'.dropped ≡ u32 (s.dropped + (length bs - room)))
      × (calls
          ≡ (if length bs == 0 then pbuf_free ∷ [] else tcp_recved (length bs) ∷ pbuf_free ∷ []))
tcp_client_recv-contents s p bs ring carries =
    let (kept, dropped, calls) =
      tcp_client_recv-Represents s p (contents s) bs (contents-Represents s ring) carries in
    (
      kept.ring,
      Represents-contents (tcp_client_recv s (some p)).0
          (contents s ++ take (buf_size - length (contents s)) bs) kept,
      dropped,
      calls,
    )

-- On a well-formed ring, the copies of a read take `len` bytes from the front, or all there are if
-- these are fewer, and leave a well-formed ring with the rest.
pub take_out-contents :
    (s : Stack) (len : ℕ)
    → IsRing s
    → let (out, s') = take_out s len in
      (out ≡ take len (contents s)) × IsRing s' × (contents s' ≡ drop len (contents s))
take_out-contents s len ring =
    let (out, kept) = take_out-Represents s (contents s) len (contents-Represents s ring) in
    (out, kept.ring, Represents-contents (take_out s len).1 (drop len (contents s)) kept)

-- On a well-formed ring, and with packets whose copies are what lwIP documents, a read returns the
-- front of what the ring holds when the wait stops, `len` bytes or all there are if these are fewer,
-- in the order in which they arrived, and leaves a well-formed ring with the rest.
pub read-contents :
    (s : Stack) (len : ℕ) (polls : List Poll)
    → IsRing s
    → ArePolls polls
    → let (out, s') = read s len polls in
      let q = arrive_until (contents s) len polls in
      (out ≡ take len q) × IsRing s' × (contents s' ≡ drop len q)
read-contents s len polls ring good =
    let (out, kept) = read-Represents s (contents s) len polls (contents-Represents s ring) good in
    (
      out,
      kept.ring,
      Represents-contents (read s len polls).1 (drop len (arrive_until (contents s) len polls))
          kept,
    )
