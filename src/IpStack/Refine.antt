-- ===== src/IpStack/Refine.antt =====
-- The receive callback as an operation of a queue of at most 2048 bytes.
use pico_drone.Common.{
  ℕ, ◌+◌, ◌-◌, ◌%◌, ◌^◌, ◌≤◌, ◌<◌, ◌≡◌, inl, inr, refl, sym, ap, ◌∙◌, subst, true, false, List,
  ◌++◌, ltb, ◌==◌, if◌then◌else◌, arith, u16, u32, Bool-cases, length, take, drop, blit,
  length-take, length-drop, length-append, min,
}
use pico_drone.Common.Append.{take-take, drop-take, take-min}
use pico_drone.Common.Pbuf.{Pbuf}
use pico_drone.IpStack.{Stack, buf_size, ◌⊖◌, first_copied, first_part, second_part, receive}
use pico_drone.IpStack.Ring.{IsRing, Represents, Stored, Stored-one, Stored-two, Ringed-append}

-- The packet holds the given bytes, which a `uint16_t` can count; its copies are what lwIP documents.
pub record Carries (p : Pbuf) (bs : List ℕ) : Type 0 where
  pub tot_len : p.tot_len ≡ length bs
  pub small : length bs < 2 ^ 16
  pub copies : (n off : ℕ) → p.copy_partial n off ≡ take n (drop off bs)

copied_once :
    (s : Stack) (p : Pbuf) (bs : List ℕ) (n : ℕ)
    → IsRing s
    → Carries p bs
    → n ≤ length bs
    → n ≤ buf_size - s.count
    → s.wr + n ≤ buf_size
    → second_part (first_part s p n) p ≡ record s {
      buffer = blit s.buffer s.wr (take n bs);
      wr = (s.wr + n) % buf_size;
      count = s.count + n;
    }
unfolding first_part second_part
copied_once s p bs n ring carries le room fits =
    let one_part : ltb buf_size (u16 (s.wr + n)) ≡ false = ground (arith) in
    let size : length (take n bs) ≡ n = omega (arith, length-take n bs) in
    let index : u16 (s.wr + n) ≡ s.wr + n = omega arith in
    let total : u16 (s.count + n) ≡ s.count + n = omega (arith, ring.full) in
    rw (one_part, carries.copies n 0, size, index, total) refl

copied_twice :
    (s : Stack) (p : Pbuf) (bs : List ℕ) (n first : ℕ)
    → IsRing s
    → Carries p bs
    → n ≤ length bs
    → n ≤ buf_size - s.count
    → buf_size < s.wr + n
    → first ≡ buf_size - s.wr
    → second_part (first_part s p n) p ≡ record s {
      buffer = blit (blit s.buffer s.wr (take first (take n bs))) 0 (drop first (take n bs));
      wr = (s.wr + n) % buf_size;
      count = s.count + n;
    }
unfolding first_copied first_part second_part
copied_twice s p bs n first ring carries le room past e =
    let within : s.wr < buf_size = omega (arith, ring.write_at) in
    let two_parts : ltb buf_size (u16 (s.wr + n)) ≡ true = ground (arith, ring.full) in
    let first_copy : buf_size ⊖ s.wr ≡ first = omega arith in
    let not_none : (first == 0) ≡ false = ground arith in
    let size : length (take first bs) ≡ first = omega (arith, length-take first bs) in
    let rest : n ⊖ first ≡ n - first = omega (arith, ring.full) in
    let size' : length (take (n - first) (drop first bs)) ≡ n - first =
      omega (arith, length-take (n - first) (drop first bs), length-drop first bs) in
    let index : u16 (0 + (n - first)) % buf_size ≡ (s.wr + n) % buf_size =
      omega (arith, ring.full) in
    let total : u16 (u16 (s.count + first) + (n - first)) ≡ s.count + n =
      omega (arith, ring.full) in
    rw
      (
        two_parts,
        first_copy,
        not_none,
        carries.copies first 0,
        size,
        rest,
        carries.copies (n - first) first,
        size',
        index,
        total,
        take-take first n bs (omega arith),
        drop-take first (n - first) n bs (omega arith),
      )
      refl

-- A state that has stored `bs` behind its queue.
Stored-Represents :
    (s : Stack) (q bs b' : List ℕ) (wr' count' : ℕ)
    → Represents s q
    → s.count + length bs ≤ buf_size
    → Stored s.buffer b' s.wr bs
    → wr' ≡ (s.wr + length bs) % buf_size
    → count' ≡ s.count + length bs
    → Represents (record s { buffer = b'; wr = wr'; count = count' }) (q ++ bs)
Stored-Represents s q bs b' wr' count' r room stored e e' = record {
  ring = record {
    size = stored.size ∙ r.ring.size;
    full = omega arith;
    read_at = r.ring.read_at;
    write_at = omega (arith, r.ring.write_at);
    counter = r.ring.counter;
  };
  size = omega (arith, length-append q bs, r.size);
  bytes =
      Ringed-append s.buffer b' s.rd s.count q bs r.ring.read_at r.size room
        (subst (λ w. Stored s.buffer b' w bs) r.ring.write_at stored) r.bytes;
}

copied-Represents :
    (s : Stack) (p : Pbuf) (q bs : List ℕ) (n : ℕ)
    → Represents s q
    → Carries p bs
    → n ≤ length bs
    → n ≤ buf_size - s.count
    → Represents (second_part (first_part s p n) p) (q ++ take n bs)
      × ((second_part (first_part s p n) p).dropped ≡ s.dropped)
copied-Represents s p q bs n r carries le room = elim (Bool-cases (ltb buf_size (s.wr + n))) [
  | inl past ↦
      subst (λ t. Represents t (q ++ take n bs) × (t.dropped ≡ s.dropped))
        (sym (copied_twice s p bs n (buf_size - s.wr) r.ring carries le room (ground arith) refl))
        (
          (Stored-Represents s q (take n bs)
              (blit (blit s.buffer s.wr (take (buf_size - s.wr) (take n bs))) 0
                (drop (buf_size - s.wr) (take n bs)))
              ((s.wr + n) % buf_size) (s.count + n) r (omega (arith, size, r.ring.full))
              (Stored-two s.buffer s.wr (buf_size - s.wr) (take n bs) r.ring.size
                (omega (arith, r.ring.write_at)) refl (ground (arith, size)) (omega (arith, size)))
              (omega (arith, size)) (omega (arith, size))),
          refl,
        )
  | inr fits ↦
      subst (λ t. Represents t (q ++ take n bs) × (t.dropped ≡ s.dropped))
        (sym (copied_once s p bs n r.ring carries le room (ground arith)))
        (
          (Stored-Represents s q (take n bs) (blit s.buffer s.wr (take n bs))
              ((s.wr + n) % buf_size) (s.count + n) r (omega (arith, size, r.ring.full))
              (Stored-one s.buffer s.wr (take n bs) r.ring.size (ground (arith, size)))
              (omega (arith, size)) (omega (arith, size))),
          refl,
        )
]
  where
    size : length (take n bs) ≡ n
    size = omega (arith, length-take n bs)

-- Counting dropped bytes leaves the queue.
dropped-Represents :
    (s : Stack) (q : List ℕ) (n : ℕ)
    → n < 2 ^ 32
    → Represents s q
    → Represents (record s { dropped = n }) q
dropped-Represents s q n small r = record {
  ring = record {
    size = r.ring.size;
    full = r.ring.full;
    read_at = r.ring.read_at;
    write_at = r.ring.write_at;
    counter = small;
  };
  size = r.size;
  bytes = r.bytes;
}

receive_lem :
    (s : Stack) (p : Pbuf) (bs : List ℕ)
    → IsRing s
    → Carries p bs
    → receive s p
      ≡ second_part
          (first_part
            (record s { dropped = u32 (s.dropped + (length bs - (buf_size - s.count))) })
            p
            (min (length bs) (buf_size - s.count)))
          p
unfolding receive
receive_lem s p bs ring carries =
    let available : buf_size ⊖ s.count ≡ buf_size - s.count = omega (arith, ring.full) in
    let n : (if ltb (length bs) (buf_size - s.count) then length bs else buf_size - s.count)
        ≡ min (length bs) (buf_size - s.count) =
      ground arith in
    let d : (if ltb (min (length bs) (buf_size - s.count)) (length bs)
          then u32 (s.dropped + (length bs - min (length bs) (buf_size - s.count)))
          else s.dropped)
        ≡ u32 (s.dropped + (length bs - (buf_size - s.count))) =
      ground (arith, ring.counter) in
    rw (carries.tot_len, available, n, d) refl

-- A packet is appended to the queue as far as the 2048 bytes allow; the bytes that do not fit are
-- added to `dropped`, a 32-bit counter.
pub receive-Represents :
    (s : Stack) (p : Pbuf) (q bs : List ℕ)
    → Represents s q
    → Carries p bs
    → Represents (receive s p) (q ++ take (buf_size - length q) bs)
      × ((receive s p).dropped ≡ u32 (s.dropped + (length bs - (buf_size - length q))))
receive-Represents s p q bs r carries =
    subst
      (λ t.
        Represents t (q ++ take (buf_size - length q) bs)
        × (t.dropped ≡ u32 (s.dropped + (length bs - (buf_size - length q)))))
      (sym (receive_lem s p bs r.ring carries))
      (
        subst (λ l. Represents (second_part (first_part s' p n) p) (q ++ l))
            (take-min n (buf_size - length q) bs (omega (arith, r.size))) kept.0,
        kept.1 ∙ ap (λ k. u32 (s.dropped + (length bs - (buf_size - k)))) (sym r.size),
      )
  where
    n : ℕ
    n = min (length bs) (buf_size - s.count)

    s' : Stack
    s' = record s { dropped = u32 (s.dropped + (length bs - (buf_size - s.count))) }

    kept :
        Represents (second_part (first_part s' p n) p) (q ++ take n bs)
        × ((second_part (first_part s' p n) p).dropped ≡ s'.dropped)
    kept =
        copied-Represents s' p q bs n
          (dropped-Represents s q (u32 (s.dropped + (length bs - (buf_size - s.count))))
            (omega arith) r)
          carries (omega arith) (omega arith)
