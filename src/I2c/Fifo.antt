-- ===== src/I2c/Fifo.antt =====
-- src/i2c/PicoI2C.cpp: the FIFOs, the interrupt handler and a transaction.
use pico_drone.Common.{
  ℕ, zero, suc, ◌+◌, ◌-◌, ◌^◌, Option, none, some, Bool, true, false, not, ◌&&◌, List, [], ◌∷◌,
  ◌++◌, ◌==◌, ltb, if◌then◌else◌, length, u32,
}
use pico_drone.Common.Memory.{◌>>=◌}

-- A value that is stored to `data_cmd`: its RESTART, STOP and CMD bits, and its byte.
pub record Command : Type 0 where
  pub restart : Bool
  pub stop : Bool
  pub is_read : Bool
  pub byte : ℕ

-- The bits of `intr_mask`.
pub record Mask : Type 0 where
  pub stop_det : Bool
  pub tx_empty : Bool
  pub rx_full : Bool

-- The members of the class and the registers that it writes. `wbuf` holds the bytes from the
-- pointer on, `rbuf` those that are stored, `data_cmd` the commands in their order, `notified` the
-- notification of `task_to_notify`.
pub record Driver : Type 0 where
  pub tar : ℕ
  pub wbuf : List ℕ
  pub wctr : ℕ
  pub rbuf : List ℕ
  pub rctr : ℕ
  pub rcnt : ℕ
  pub restart_on_next : Bool
  pub intr_mask : Mask
  pub data_cmd : List Command
  pub notified : Bool

-- What an interrupt meets: the received bytes, the raw bits, and how often
-- `i2c_get_write_available` finds room in a row.
pub record Irq : Type 0 where
  pub rx : List ℕ
  pub tx_empty : Bool
  pub stop_det : Bool
  pub room : ℕ

-- What a round of `tx_fill_fifo` stores to `data_cmd`.
unfoldable pub tx_command : Driver → ℕ → Command
tx_command d b = record {
  restart = d.restart_on_next;
  stop = d.wctr == 1 && d.rctr == 0;
  is_read = false;
  byte = b;
}

-- One round of `tx_fill_fifo`.
unfoldable pub tx_put : Driver → ℕ → List ℕ → Driver
tx_put d b bs = record d {
  wbuf = bs;
  wctr = d.wctr - 1;
  restart_on_next = d.wctr == 1 && not (d.rctr == 0);
  data_cmd = d.data_cmd ++ tx_command d b ∷ [];
}

unfoldable pub tx_fill_fifo : ℕ → Driver → Option Driver
tx_fill_fifo zero d = some d
tx_fill_fifo (suc room) d = elim (ltb 0 d.wctr) [
  | false ↦ some d
  | true ↦ elim d.wbuf [ [] ↦ none | b ∷ bs ↦ tx_fill_fifo room (tx_put d b bs) ]
]

-- What a round of `rx_fill_fifo` stores to `data_cmd`.
unfoldable pub rx_command : Driver → Command
rx_command d = record { restart = d.restart_on_next; stop = d.rctr == 1; is_read = true; byte = 0 }

-- One round of `rx_fill_fifo`.
unfoldable pub rx_put : Driver → Driver
rx_put d = record d {
  restart_on_next = false;
  rctr = d.rctr - 1;
  data_cmd = d.data_cmd ++ rx_command d ∷ [];
}

unfoldable pub rx_fill_fifo : ℕ → Driver → Driver
rx_fill_fifo zero d = d
rx_fill_fifo (suc room) d = elim (ltb 0 d.rctr) [ false ↦ d | true ↦ rx_fill_fifo room (rx_put d) ]

-- The first loop of `isr`: a byte is taken while one is expected.
unfoldable pub receive : List ℕ → Driver → Driver
receive [] d = d
receive (b ∷ bs) d = elim (ltb 0 d.rcnt) [
  | false ↦ d
  | true ↦ receive bs (record d { rbuf = d.rbuf ++ b ∷ []; rcnt = d.rcnt - 1 })
]

unfoldable pub drained : Driver → Driver
drained d =
    if d.wctr == 0 && d.rctr == 0
    then record d { intr_mask = record { stop_det = true; tx_empty = false; rx_full = true } }
    else d

-- The branch of `isr` for TX_EMPTY.
unfoldable pub refill : ℕ → Driver → Option Driver
refill room d =
    let filled =
      if ltb 0 d.wctr
      then tx_fill_fifo room d
      else some (if ltb 0 d.rctr then rx_fill_fifo room d else d) in
    filled >>= λ d'. some (drained d')

-- The branch of `isr` for STOP_DET.
unfoldable pub finish : Bool → Driver → Driver
finish stop_det d =
    if stop_det && d.intr_mask.stop_det
    then record d {
      intr_mask = record { stop_det = false; tx_empty = false; rx_full = false };
      notified = true;
    }
    else d

unfoldable pub isr : Driver → Irq → Option Driver
isr d irq =
    let d1 = receive irq.rx d in
    (if irq.tx_empty && d1.intr_mask.tx_empty then refill irq.room d1 else some d1) >>= λ d2.
    some (finish irq.stop_det d2)

unfoldable pub run : List Irq → Driver → Option Driver
run [] d = some d
run (irq ∷ irqs) d = isr d irq >>= λ d'. run irqs d'

-- The registers and the members as `transaction` sets them.
unfoldable pub set_up : Driver → ℕ → List ℕ → ℕ → Driver
set_up d addr wbuffer rlength = record d {
  tar = addr;
  intr_mask = record { stop_det = true; tx_empty = true; rx_full = true };
  restart_on_next = false;
  wbuf = wbuffer;
  wctr = length wbuffer;
  rbuf = [];
  rctr = rlength;
  rcnt = rlength;
}

-- `transaction` up to the wait; `room` is what the first fill finds.
unfoldable pub start : Driver → ℕ → List ℕ → ℕ → ℕ → Option Driver
start d addr wbuffer rlength room =
    let d' = set_up d addr wbuffer rlength in
    if ltb 0 (length wbuffer) then tx_fill_fifo room d' else some (rx_fill_fifo room d')

-- `count` behind the wait, which ends by a notification or by its time.
unfoldable pub counted : ℕ → Driver → ℕ
counted total d = if d.notified then u32 (u32 total + 2 ^ 32 - u32 (d.rcnt + d.wctr)) else 0

-- `transaction`, with the interrupts that are handled until the wait ends. The code asserts that it
-- is not empty. The wait is taken to end with a notification of this transaction.
unfoldable pub transaction : Driver → ℕ → List ℕ → ℕ → ℕ → List Irq → Option (ℕ × Driver)
transaction d addr wbuffer rlength room irqs = start d addr wbuffer rlength room >>= λ d1.
    run irqs d1 >>= λ d2.
    some (counted (length wbuffer + rlength) d2, record d2 { notified = false })

unfoldable pub write : Driver → ℕ → List ℕ → ℕ → List Irq → Option (ℕ × Driver)
write d addr buffer room irqs = transaction d addr buffer 0 room irqs

unfoldable pub read : Driver → ℕ → ℕ → ℕ → List Irq → Option (ℕ × Driver)
read d addr rlength room irqs = transaction d addr [] rlength room irqs
