-- ===== src/Uart/Reading.antt =====
-- src/uart/PicoOsUart.cpp: what arrives, and what `read` and `flush` take of it.
use mathlib.Core.List.{append_assoc, append-nil}
use pico_drone.Common.{
  ℕ, zero, suc, ◌+◌, ◌≤◌, ◌<◌, ◌≡◌, refl, ap, sym, ◌∙◌, inl, inr, some, List, [], ◌∷◌, ◌++◌, length,
  take, length-append, length-take, arith, Option-cases,
}
use pico_drone.Uart.{Uart, Irq, fill, uart_irq_tx, uart_irq_rx, handler, handle_all, read, flush}
use pico_drone.Common.Append.{take-append}
use pico_drone.Common.Text.{take_all}
use pico_drone.Uart.Rtos.{Queue, IsQueue}

-- What arrives in a sequence of interrupts.
abbrev pub arrivals : List Irq → List ℕ
arrivals [] = []
arrivals (irq ∷ irqs) = irq.readable ++ arrivals irqs

-- The first byte of a list, if there is one, before what `next` gives of the others.
abbrev pub first : (List ℕ → List ℕ × List ℕ) → List ℕ → List ℕ × List ℕ
first next [] = ([], [])
first next (b ∷ line) = let (bytes, rest) = next line in (b ∷ bytes, rest)

-- What a list that is first in, first out and holds `n` bytes gives to `size` reads, and what is
-- left of it.
abbrev pub served : ℕ → (ℕ → List Irq) → ℕ → List ℕ → List ℕ × List ℕ
served n waits zero line = ([], line)
served n waits (suc size) line =
    first (λ rest. served n waits size rest) (take n (line ++ arrivals (waits size)))

take_full : (xs ys : List ℕ) (n : ℕ) → length xs ≡ n → take n (xs ++ ys) ≡ xs
take_full xs ys n e = take-append n xs ys (sym e)

take-take : (n : ℕ) (xs ys : List ℕ) → take n (take n xs ++ ys) ≡ take n (xs ++ ys)
take-take zero xs ys = refl
take-take (suc n) [] ys = refl
take-take (suc n) (x ∷ xs) ys = ap (λ l. x ∷ l) (take-take n xs ys)

module _ {Q : Type 0} (queue : Queue Q) (laws : IsQueue queue) where
  fill-rx : (writable : ℕ) (u : Uart Q) → (fill queue writable u).rx ≡ u.rx
  unfolding fill
  fill-rx zero u = refl
  fill-rx (suc writable) u = elim (Option-cases (queue.receive u.tx)) [
    | inl e ↦ rw (e, fill) refl
    | inr ((ch, tx'), e) ↦
        rw (e, fill) (fill-rx writable (record u { tx = tx'; dr = u.dr ++ ch ∷ [] }))
  ]

  uart_irq_tx-rx : (writable : ℕ) (u : Uart Q) → (uart_irq_tx queue writable u).rx ≡ u.rx
  unfolding uart_irq_tx
  uart_irq_tx-rx writable u = ground (arith, fill-rx writable u)

  -- Bytes that arrive join the queue until it is full, and the others are dropped.
  uart_irq_rx-arrives :
      (cs : List ℕ) (u : Uart Q)
      → length (queue.contents u.rx) ≤ queue.capacity u.rx
      → let u' = uart_irq_rx queue cs u in
        (queue.contents u'.rx ≡ take (queue.capacity u.rx) (queue.contents u.rx ++ cs))
        × (queue.capacity u'.rx ≡ queue.capacity u.rx)
  unfolding uart_irq_rx
  uart_irq_rx-arrives [] u bound = (
    sym (take_all (queue.capacity u.rx) (queue.contents u.rx) bound)
        ∙ ap (take (queue.capacity u.rx)) (sym (append-nil (queue.contents u.rx))),
    refl,
  )
  uart_irq_rx-arrives (c ∷ cs) u bound = elim (Option-cases (queue.send u.rx c)) [
    | inl e ↦
        let (out, cap) = uart_irq_rx-arrives cs u bound in
        let full : length (queue.contents u.rx) ≡ queue.capacity u.rx =
          omega (arith, bound, laws.refused u.rx c e) in
        rw (e, uart_irq_rx)
          (
            out
                ∙ take_full (queue.contents u.rx) cs (queue.capacity u.rx) full
                ∙ sym (take_full (queue.contents u.rx) (c ∷ cs) (queue.capacity u.rx) full),
            cap,
          )
    | inr (rx', e) ↦
        let (joined, same, room) = laws.sent u.rx rx' c e in
        let fits : length (queue.contents rx') ≤ queue.capacity rx' =
          omega
            (arith, ap length joined, length-append (queue.contents u.rx) (c ∷ []), same, room) in
        let (out, cap) = uart_irq_rx-arrives cs (record u { rx = rx' }) fits in
        rw (e, uart_irq_rx)
          (
            out
                ∙ ap (λ n. take n (queue.contents rx' ++ cs)) same
                ∙ ap (λ l. take (queue.capacity u.rx) (l ++ cs)) joined
                ∙ ap (take (queue.capacity u.rx)) (append_assoc (queue.contents u.rx) (c ∷ []) cs),
            cap ∙ same,
          )
  ]

  handle_all-arrives :
      (irqs : List Irq) (u : Uart Q)
      → length (queue.contents u.rx) ≤ queue.capacity u.rx
      → let u' = handle_all queue irqs u in
        (queue.contents u'.rx ≡ take (queue.capacity u.rx) (queue.contents u.rx ++ arrivals irqs))
        × (queue.capacity u'.rx ≡ queue.capacity u.rx)
  unfolding handle_all handler uart_irq_rx
  handle_all-arrives [] u bound = uart_irq_rx-arrives [] u bound
  handle_all-arrives (irq ∷ irqs) u bound =
      let u1 = uart_irq_rx queue irq.readable u in
      let u2 = uart_irq_tx queue irq.writable u1 in
      let kept = uart_irq_tx-rx irq.writable u1 in
      let (out, cap) = uart_irq_rx-arrives irq.readable u bound in
      let n = queue.capacity u.rx in
      let same : queue.capacity u2.rx ≡ n = ap queue.capacity kept ∙ cap in
      let fits : length (queue.contents u2.rx) ≤ queue.capacity u2.rx = omega (
        arith,
        ap (λ q. length (queue.contents q)) kept,
        ap length out,
        length-take n (queue.contents u.rx ++ irq.readable),
        same,
      ) in
      let (out', cap') = handle_all-arrives irqs u2 fits in
      (
        out'
            ∙ ap (λ m. take m (queue.contents u2.rx ++ arrivals irqs)) same
            ∙ ap (λ q. take n (queue.contents q ++ arrivals irqs)) kept
            ∙ ap (λ l. take n (l ++ arrivals irqs)) out
            ∙ take-take n (queue.contents u.rx ++ irq.readable) (arrivals irqs)
            ∙ ap (take n) (append_assoc (queue.contents u.rx) irq.readable (arrivals irqs)),
        cap' ∙ same,
      )

  -- With a receive queue that holds no more than its capacity, `read` gives and leaves what it would of a list that is first in, first out: before each byte,
  -- the bytes that arrived in the wait join behind those that wait, up to the capacity of the
  -- receive queue, and those beyond it are lost; then the first one is stored. It ends when `size`
  -- bytes are stored, or when none waits.
  pub read-fifo :
      (waits : ℕ → List Irq) (size : ℕ) (u : Uart Q)
      → length (queue.contents u.rx) ≤ queue.capacity u.rx
      → let (bytes, u') = read queue waits size u in
        (bytes, queue.contents u'.rx)
        ≡ served (queue.capacity u.rx) waits size (queue.contents u.rx)
  unfolding read
  read-fifo waits zero u bound = refl
  read-fifo waits (suc size) u bound =
      let u' = handle_all queue (waits size) u in
      let n = queue.capacity u.rx in
      let (out, cap) = handle_all-arrives (waits size) u bound in
      elim (Option-cases (queue.receive u'.rx)) [
        | inl e ↦
            rw (e, read)
              (ap (λ l. ([], l)) (laws.empty u'.rx e)
                ∙ ap (λ l. first (λ rest. served n waits size rest) l)
                    (sym (laws.empty u'.rx e) ∙ out))
        | inr ((b, rx'), e) ↦
            let (joined, same) = laws.received u'.rx rx' b e in
            let fits : length (queue.contents rx') ≤ queue.capacity rx' = omega (
              arith,
              ap length joined,
              ap length out,
              length-take n (queue.contents u.rx ++ arrivals (waits size)),
              same,
              cap,
            ) in
            let later = read-fifo waits size (record u' { rx = rx' }) fits in
            rw (e, read)
              (ap (λ r. (b ∷ r.0, r.1)) later
                ∙ ap (λ m. first (λ rest. served m waits size rest) (b ∷ queue.contents rx'))
                    (same ∙ cap)
                ∙ ap (λ l. first (λ rest. served n waits size rest) l) (sym joined ∙ out))
      ]

  flush_from :
      (fuel count : ℕ) (u : Uart Q)
      → length (queue.contents u.rx) < fuel
      → (rx' : Q) × (flush queue fuel count u
          ≡ some (count + length (queue.contents u.rx), record u { rx = rx' }))
        × (queue.contents rx' ≡ [])
  unfolding flush
  flush_from zero count u h = absurd (omega arith)
  flush_from (suc fuel) count u h = elim (Option-cases (queue.receive u.rx)) [
    | inl e ↦
        let empty = laws.empty u.rx e in
        let same : count + length (queue.contents u.rx) ≡ count = omega (arith, ap length empty) in
        (u.rx, rw (e, flush) (ap (λ n. some (n, u)) (sym same)), empty)
    | inr ((c, rx'), e) ↦
        let sizes = ap length (laws.received u.rx rx' c e).0 in
        let (rx'', ran, empty) =
          flush_from fuel (count + 1) (record u { rx = rx' }) (omega arith) in
        let same : count + 1 + length (queue.contents rx') ≡ count + length (queue.contents u.rx) =
          omega arith in
        (rx'', rw (e, flush) (ran ∙ ap (λ n. some (n, record u { rx = rx'' })) same), empty)
  ]

  -- `flush` ends, after one round more than there are bytes, and returns their number; the
  -- receive queue is then empty, and all else is as before.
  pub flush-empty :
      (fuel : ℕ) (u : Uart Q)
      → length (queue.contents u.rx) < fuel
      → (rx' : Q) × (flush queue fuel 0 u
          ≡ some (length (queue.contents u.rx), record u { rx = rx' }))
        × (queue.contents rx' ≡ [])
  flush-empty fuel u h =
      let (rx', ran, empty) = flush_from fuel 0 u h in
      let same : 0 + length (queue.contents u.rx) ≡ length (queue.contents u.rx) = omega arith in
      (rx', ran ∙ ap (λ n. some (n, record u { rx = rx' })) same, empty)
