-- ===== src/Uart.antt =====
-- src/uart/PicoOsUart.cpp and .h: the serial port with its two queues and its interrupt handler.
pub mod Rtos
pub mod Order
pub mod Reading
mod Tests
use pico_drone.Common.{
  ℕ, zero, suc, ◌+◌, ◌/◌, ◌^◌, Option, none, some, Bool, true, false, List, [], ◌∷◌, ◌++◌, ◌==◌,
  ltb, if◌then◌else◌, get_elem?, bit_and, bit_or, ◌>>>◌,
}
use pico_drone.Uart.Rtos.{Queue}

-- The queues of the object, the TX bit of `imsc`, and the bytes stored to `dr`, in their order.
pub record Uart (Q : Type 0) : Type 0 where
  pub tx : Q
  pub rx : Q
  pub tx_irq : Bool
  pub dr : List ℕ
  pub speed : ℕ

-- What an interrupt meets: the bytes that `uart_is_readable` announces, and how often
-- `uart_is_writable` answers true in a row.
pub record Irq : Type 0 where
  pub readable : List ℕ
  pub writable : ℕ

module _ {Q : Type 0} (queue : Queue Q) where
  -- `while (uart_is_writable (uart) && xQueueReceive (tx, &ch, 0) == pdTRUE) dr = ch`
  unfoldable pub fill : ℕ → Uart Q → Uart Q
  fill zero u = u
  fill (suc writable) u = elim (queue.receive u.tx) [
    | none ↦ u
    | some (ch, tx') ↦ fill writable (record u { tx = tx'; dr = u.dr ++ ch ∷ [] })
  ]

  unfoldable pub uart_irq_tx : ℕ → Uart Q → Uart Q
  uart_irq_tx writable u =
      let u' = fill writable u in
      if queue.waiting u'.tx == 0 then record u' { tx_irq = false } else u'

  -- A byte that finds the queue full is dropped.
  unfoldable pub uart_irq_rx : List ℕ → Uart Q → Uart Q
  uart_irq_rx [] u = u
  uart_irq_rx (c ∷ cs) u = elim (queue.send u.rx c) [
    | none ↦ uart_irq_rx cs u
    | some rx' ↦ uart_irq_rx cs (record u { rx = rx' })
  ]

  -- The two interrupts of an object.
  unfoldable pub handler : Irq → Uart Q → Uart Q
  handler irq u = uart_irq_tx irq.writable (uart_irq_rx irq.readable u)

  -- Both handlers of the SDK, with what `pu0` or `pu1` points at, and whether their interrupt
  -- stays enabled.
  unfoldable pub pico_uart_handler : Irq → Option (Uart Q) → Option (Uart Q) × Bool
  pico_uart_handler irq none = (none, false)
  pico_uart_handler irq (some u) = (some (handler irq u), true)

  unfoldable pub handle_all : List Irq → Uart Q → Uart Q
  handle_all [] u = u
  handle_all (irq ∷ irqs) u = handle_all irqs (handler irq u)

  -- The first loop of `write`; `waits i` are the interrupts while it waits with byte `i`. Those
  -- between the last byte and the end of the loop would come before `begin_sending`.
  unfoldable pub enqueue : (ℕ → List Irq) → ℕ → List ℕ → Uart Q → ℕ × Uart Q
  enqueue waits count [] u = (count, u)
  enqueue waits count (b ∷ bs) u =
      let u' = handle_all (waits count) u in
      elim (queue.send u'.tx b) [
        | none ↦ (count, u')
        | some tx' ↦ enqueue waits (count + 1) bs (record u' { tx = tx' })
      ]

  -- `write` with its interrupt off, from the test of `imsc` on.
  unfoldable pub begin_sending : ℕ → Uart Q → Uart Q
  begin_sending writable u =
      let u' = fill writable u in
      if u.tx_irq
      then u
      else if ltb 0 (queue.waiting u'.tx)
      then record u' { tx_irq = true }
      else u'

  unfoldable pub write : (ℕ → List Irq) → ℕ → List ℕ → Uart Q → ℕ × Uart Q
  write waits writable buffer u =
      let (count, u') = enqueue waits 0 buffer u in (count, begin_sending writable u')

  -- Both versions of `send`, which return 0.
  unfoldable pub send : (ℕ → List Irq) → ℕ → List ℕ → Uart Q → ℕ × Uart Q
  send waits writable str u = (0, (write waits writable str u).1)

  -- The bytes that `read` stores, with the interrupts before each.
  unfoldable pub read : (ℕ → List Irq) → ℕ → Uart Q → List ℕ × Uart Q
  read waits zero u = ([], u)
  read waits (suc size) u =
      let u' = handle_all (waits size) u in
      elim (queue.receive u'.rx) [
        | none ↦ ([], u')
        | some (b, rx') ↦ let (bs, u'') = read waits size (record u' { rx = rx' }) in (b ∷ bs, u'')
      ]

  -- `flush`, with fuel for its rounds.
  unfoldable pub flush : ℕ → ℕ → Uart Q → Option (ℕ × Uart Q)
  flush zero count u = none
  flush (suc fuel) count u = elim (queue.receive u.rx) [
    | none ↦ some (count, u)
    | some (dummy, rx') ↦ flush fuel (count + 1) (record u { rx = rx' })
  ]

  -- The constructor, up to the pins and the format; `create` is `xQueueCreate`.
  unfoldable pub construct : (ℕ → Q) → ℕ → ℕ → ℕ → Uart Q
  construct create speed tx_size rx_size = record {
    tx = create tx_size;
    rx = create rx_size;
    tx_irq = false;
    dr = [];
    speed = speed;
  }

-- `UART_UARTLCR_H_FEN_BITS`
abbrev pub fen_bits : ℕ
fen_bits = 0x10

abbrev pub flv : List ℕ
flv = 4 ∷ 8 ∷ 16 ∷ 24 ∷ 28 ∷ 0 ∷ 0 ∷ 0 ∷ 0 ∷ []

-- `get_fifo_level` at the registers `lcr_h` and `ifls`; `none` reads behind the table.
unfoldable pub get_fifo_level : ℕ → ℕ → Option ℕ
get_fifo_level lcr_h ifls =
    let fcr = bit_and (ifls >>> 3) 0x7 in
    get_elem? flv (if bit_or lcr_h fen_bits == 0 then 8 else fcr)
