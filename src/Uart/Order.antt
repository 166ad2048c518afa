-- ===== src/Uart/Order.antt =====
-- src/uart/PicoOsUart.cpp: the order of the bytes that are sent.
use mathlib.Core.List.{append_assoc, append-nil}
use pico_drone.Common.{
  ℕ, zero, suc, ◌+◌, ◌-◌, ◌≤◌, ◌<◌, ◌≡◌, refl, ap, sym, ◌∙◌, ◌⊎◌, inl, inr, some, true, false, List,
  [], ◌∷◌, ◌++◌, ◌==◌, ltb, take, length, arith, Bool-cases, Option-cases,
}
use pico_drone.Uart.{
  Uart, Irq, fill, uart_irq_tx, uart_irq_rx, handler, handle_all, enqueue, begin_sending, write,
}
use pico_drone.Uart.Rtos.{Queue, IsQueue}

list_empty {ℓ} : {A : Type ℓ} (l : List A) → length l ≡ 0 → l ≡ []
list_empty [] e = refl
list_empty (x ∷ xs) e = absurd (omega arith)

module _ {Q : Type 0} (queue : Queue Q) where
  -- The bytes that have been handed to the hardware, then those that wait.
  abbrev pub line : Uart Q → List ℕ
  line u = u.dr ++ queue.contents u.tx

  -- What waits is waited for by the interrupt.
  abbrev pub IsDriven : Uart Q → Type 0
  IsDriven u = (queue.contents u.tx ≡ []) ⊎ (u.tx_irq ≡ true)

  begin_sending_on :
      (writable : ℕ) (u : Uart Q) → u.tx_irq ≡ true → begin_sending queue writable u ≡ u
  unfolding begin_sending
  begin_sending_on writable u on = ground arith

  begin_sending_more :
      (writable : ℕ) (u : Uart Q)
      → u.tx_irq ≡ false
      → ltb 0 (queue.waiting (fill queue writable u).tx) ≡ true
      → begin_sending queue writable u ≡ record (fill queue writable u) { tx_irq = true }
  unfolding begin_sending
  begin_sending_more writable u off more = ground arith

  begin_sending_done :
      (writable : ℕ) (u : Uart Q)
      → u.tx_irq ≡ false
      → ltb 0 (queue.waiting (fill queue writable u).tx) ≡ false
      → begin_sending queue writable u ≡ fill queue writable u
  unfolding begin_sending
  begin_sending_done writable u off none_left = ground arith

  module _ (laws : IsQueue queue) where
    fill-line : (writable : ℕ) (u : Uart Q) → line (fill queue writable u) ≡ line u
    unfolding fill
    fill-line zero u = refl
    fill-line (suc writable) u = elim (Option-cases (queue.receive u.tx)) [
      | inl e ↦ rw (e, fill) refl
      | inr ((ch, tx'), e) ↦
          rw (e, fill)
            (fill-line writable (record u { tx = tx'; dr = u.dr ++ ch ∷ [] })
              ∙ append_assoc u.dr (ch ∷ []) (queue.contents tx')
              ∙ ap (λ l. u.dr ++ l) (sym (laws.received u.tx tx' ch e).0))
    ]

    fill-fewer :
        (writable : ℕ) (u : Uart Q)
        → length (queue.contents (fill queue writable u).tx)
          ≤ length (queue.contents u.tx) - writable
    unfolding fill
    fill-fewer zero u = omega arith
    fill-fewer (suc writable) u = elim (Option-cases (queue.receive u.tx)) [
      | inl e ↦ rw (e, fill) (omega (arith, ap length (laws.empty u.tx e)))
      | inr ((ch, tx'), e) ↦
          rw (e, fill)
            (omega (
              arith,
              ap length (laws.received u.tx tx' ch e).0,
              fill-fewer writable (record u { tx = tx'; dr = u.dr ++ ch ∷ [] }),
            ))
    ]

    fill-tx_irq : (writable : ℕ) (u : Uart Q) → (fill queue writable u).tx_irq ≡ u.tx_irq
    unfolding fill
    fill-tx_irq zero u = refl
    fill-tx_irq (suc writable) u = elim (Option-cases (queue.receive u.tx)) [
      | inl e ↦ rw (e, fill) refl
      | inr ((ch, tx'), e) ↦
          rw (e, fill) (fill-tx_irq writable (record u { tx = tx'; dr = u.dr ++ ch ∷ [] }))
    ]

    uart_irq_tx-line : (writable : ℕ) (u : Uart Q) → line (uart_irq_tx queue writable u) ≡ line u
    unfolding uart_irq_tx
    uart_irq_tx-line writable u = ground (arith, fill-line writable u)

    uart_irq_tx-IsDriven :
        (writable : ℕ) (u : Uart Q) → IsDriven u → IsDriven (uart_irq_tx queue writable u)
    unfolding uart_irq_tx
    uart_irq_tx-IsDriven writable u d =
        let u' = fill queue writable u in
        elim (Bool-cases (queue.waiting u'.tx == 0)) [
          | inl e ↦
              let none_left : length (queue.contents u'.tx) ≡ 0 =
                ground (arith, laws.waiting_is u'.tx) in
              rw e (inl (list_empty (queue.contents u'.tx) none_left))
          | inr e ↦ rw e (elim d [
            | inl nothing ↦ inl (
                list_empty (queue.contents u'.tx)
                  (omega (arith, fill-fewer writable u, ap length nothing)))
            | inr on ↦ inr (fill-tx_irq writable u ∙ on)
          ])
        ]

    uart_irq_rx-tx :
        (cs : List ℕ) (u : Uart Q)
        → let u' = uart_irq_rx queue cs u in
          (u'.tx ≡ u.tx) × (u'.dr ≡ u.dr) × (u'.tx_irq ≡ u.tx_irq)
    unfolding uart_irq_rx
    uart_irq_rx-tx [] u = (refl, refl, refl)
    uart_irq_rx-tx (c ∷ cs) u = elim (Option-cases (queue.send u.rx c)) [
      | inl e ↦ rw (e, uart_irq_rx) (uart_irq_rx-tx cs u)
      | inr (rx', e) ↦ rw (e, uart_irq_rx) (uart_irq_rx-tx cs (record u { rx = rx' }))
    ]

    handler-line : (irq : Irq) (u : Uart Q) → line (handler queue irq u) ≡ line u
    unfolding handler
    handler-line irq u =
        let (tx_kept, dr_kept, irq_kept) = uart_irq_rx-tx irq.readable u in
        uart_irq_tx-line irq.writable (uart_irq_rx queue irq.readable u)
        ∙ rw (tx_kept, dr_kept) refl

    handler-IsDriven : (irq : Irq) (u : Uart Q) → IsDriven u → IsDriven (handler queue irq u)
    unfolding handler
    handler-IsDriven irq u d =
        let (tx_kept, dr_kept, irq_kept) = uart_irq_rx-tx irq.readable u in
        uart_irq_tx-IsDriven irq.writable (uart_irq_rx queue irq.readable u)
          (rw (tx_kept, irq_kept) d)

    handle_all-line : (irqs : List Irq) (u : Uart Q) → line (handle_all queue irqs u) ≡ line u
    unfolding handle_all
    handle_all-line [] u = refl
    handle_all-line (irq ∷ irqs) u = handle_all-line irqs (handler queue irq u) ∙ handler-line irq u

    pub handle_all-IsDriven :
        (irqs : List Irq) (u : Uart Q) → IsDriven u → IsDriven (handle_all queue irqs u)
    unfolding handle_all
    handle_all-IsDriven [] u d = d
    handle_all-IsDriven (irq ∷ irqs) u d =
        handle_all-IsDriven irqs (handler queue irq u) (handler-IsDriven irq u d)

    sent_line :
        (u : Uart Q) (tx' : Q) (b : ℕ)
        → queue.send u.tx b ≡ some tx'
        → u.dr ++ queue.contents tx' ≡ line u ++ b ∷ []
    sent_line u tx' b e =
        ap (λ l. u.dr ++ l) (laws.sent u.tx tx' b e).0
        ∙ sym (append_assoc u.dr (queue.contents u.tx) (b ∷ []))

    enqueue-line :
        (waits : ℕ → List Irq) (count : ℕ) (buffer : List ℕ) (u : Uart Q)
        → let (count', u') = enqueue queue waits count buffer u in
          (k : ℕ) × (count' ≡ count + k) × (k ≤ length buffer) × (line u' ≡ line u ++ take k buffer)
    unfolding enqueue
    enqueue-line waits count [] u = (0, omega arith, omega arith, sym (append-nil (line u)))
    enqueue-line waits count (b ∷ bs) u =
        let u' = handle_all queue (waits count) u in
        elim (Option-cases (queue.send u'.tx b)) [
          | inl e ↦
              rw (e, enqueue)
                (
                  0,
                  omega arith,
                  omega arith,
                  handle_all-line (waits count) u ∙ sym (append-nil (line u)),
                )
          | inr (tx', e) ↦
              let (k, count_is, short, out) =
                enqueue-line waits (count + 1) bs (record u' { tx = tx' }) in
              rw (e, enqueue)
                (
                  suc k,
                  omega (arith, count_is),
                  omega arith,
                  out
                      ∙ ap (λ l. l ++ take k bs) (sent_line u' tx' b e)
                      ∙ append_assoc (line u') (b ∷ []) (take k bs)
                      ∙ ap (λ l. l ++ b ∷ take k bs) (handle_all-line (waits count) u),
                )
        ]

    begin_sending-line :
        (writable : ℕ) (u : Uart Q) → line (begin_sending queue writable u) ≡ line u
    unfolding begin_sending
    begin_sending-line writable u = ground (arith, fill-line writable u)

    begin_sending-IsDriven : (writable : ℕ) (u : Uart Q) → IsDriven (begin_sending queue writable u)
    begin_sending-IsDriven writable u =
        let u' = fill queue writable u in
        elim (Bool-cases u.tx_irq) [
          | inl on ↦ rw (begin_sending_on writable u on) (inr on)
          | inr off ↦ elim (Bool-cases (ltb 0 (queue.waiting u'.tx))) [
            | inl more ↦ rw (begin_sending_more writable u off more) (inr refl)
            | inr none_left ↦
                let z : length (queue.contents u'.tx) ≡ 0 = ground (arith, laws.waiting_is u'.tx) in
                rw (begin_sending_done writable u off none_left)
                  (inl (list_empty (queue.contents u'.tx) z))
          ]
        ]

    -- `write` hands a beginning of the buffer to the line, as long as it says, behind all that
    -- came before, also if interrupts run meanwhile. What then still waits is driven by the
    -- interrupt, and stays so under any further interrupts, which keep the bytes of the line.
    pub write-line :
        (waits : ℕ → List Irq) (writable : ℕ) (buffer : List ℕ) (u : Uart Q) (irqs : List Irq)
        → let (count, u') = write queue waits writable buffer u in
          let u'' = handle_all queue irqs u' in
          (count ≤ length buffer)
          × (line u'' ≡ line u ++ take count buffer)
          × IsDriven u'
          × IsDriven u''
    unfolding write
    write-line waits writable buffer u irqs =
        let (count, u') = enqueue queue waits 0 buffer u in
        let (k, count_is, short, out) = enqueue-line waits 0 buffer u in
        let same : count ≡ k = omega arith in
        let driven = begin_sending-IsDriven writable u' in
        (
          omega arith,
          handle_all-line irqs (begin_sending queue writable u')
              ∙ begin_sending-line writable u'
              ∙ out
              ∙ ap (λ n. line u ++ take n buffer) (sym same),
          driven,
          handle_all-IsDriven irqs (begin_sending queue writable u') driven,
        )

    -- Interrupts that find room in the FIFO.
    abbrev pub Writable : List Irq → Type 0
    Writable [] = Unit
    Writable (irq ∷ irqs) = (0 < irq.writable) × Writable irqs

    handler-fewer :
        (irq : Irq) (u : Uart Q)
        → length (queue.contents (handler queue irq u).tx)
          ≤ length (queue.contents u.tx) - irq.writable
    unfolding handler uart_irq_tx
    handler-fewer irq u =
        let u' = uart_irq_rx queue irq.readable u in
        let same = ap (λ q. length (queue.contents q)) (uart_irq_rx-tx irq.readable u).0 in
        ground (arith, fill-fewer irq.writable u', same)

    handle_all-empty :
        (irqs : List Irq) (u : Uart Q)
        → Writable irqs
        → length (queue.contents u.tx) ≤ length irqs
        → queue.contents (handle_all queue irqs u).tx ≡ []
    unfolding handle_all
    handle_all-empty [] u w enough = list_empty (queue.contents u.tx) (omega arith)
    handle_all-empty (irq ∷ irqs) u (room, w) enough =
        handle_all-empty irqs (handler queue irq u) w (omega (arith, handler-fewer irq u))

    -- All that `write` takes is sent: after as many interrupts with room in the FIFO as bytes
    -- wait, exactly the earlier bytes and those taken have been stored to `dr`, in this order.
    pub write-sent :
        (waits : ℕ → List Irq) (writable : ℕ) (buffer : List ℕ) (u : Uart Q) (irqs : List Irq)
        → let (count, u') = write queue waits writable buffer u in
          Writable irqs
          → length (queue.contents u'.tx) ≤ length irqs
          → (handle_all queue irqs u').dr ≡ line u ++ take count buffer
    write-sent waits writable buffer u irqs w enough =
        let (count, u') = write queue waits writable buffer u in
        let u'' = handle_all queue irqs u' in
        let empty = handle_all-empty irqs u' w enough in
        sym (append-nil u''.dr)
        ∙ ap (λ l. u''.dr ++ l) (sym empty)
        ∙ (write-line waits writable buffer u irqs).1
