-- ===== src/I2c/Instance.antt =====
-- src/i2c/PicoI2C.cpp: the constructor, and the handlers that find the object of their bus.
use pico_drone.Common.{ℕ, Option, none, some, Bool, false, List, [], ◌∷◌, ◌==◌, if◌then◌else◌}
use pico_drone.I2c.Fifo.{Driver, Irq, isr}

-- The calls of the SDK and the registers that the constructor sets, in their order; an interrupt
-- is numbered by its bus.
pub data Call : Type 0 where
  gpio_init gpio_pull_up gpio_set_function : ℕ → Call
  irq_set_enabled : ℕ → Bool → Call
  irq_set_exclusive_handler : ℕ → ℕ → Call
  i2c_init : ℕ → ℕ → Call
  tx_tl rx_tl : ℕ → Call

-- `i2c0_instance` and `i2c1_instance`.
pub record Instances : Type 0 where
  pub i2c0_instance : Option Driver
  pub i2c1_instance : Option Driver

-- A driver as its initialisers leave it; its registers are those of a reset.
abbrev pub fresh : Driver
fresh = record {
  tar = 0;
  wbuf = [];
  wctr = 0;
  rbuf = [];
  rctr = 0;
  rcnt = 0;
  restart_on_next = false;
  intr_mask = record { stop_det = false; tx_empty = false; rx_full = false };
  data_cmd = [];
  notified = false;
}

abbrev pub set_up_calls : ℕ → ℕ → ℕ → ℕ → List Call
set_up_calls bus scl sda speed =
    gpio_init scl
    ∷ gpio_pull_up scl
    ∷ gpio_init sda
    ∷ gpio_pull_up sda
    ∷ irq_set_enabled bus false
    ∷ irq_set_exclusive_handler bus bus
    ∷ i2c_init bus speed
    ∷ gpio_set_function sda
    ∷ gpio_set_function scl
    ∷ tx_tl 0
    ∷ rx_tl 14
    ∷ []

-- The constructor; `none` is its panic.
unfoldable pub construct : ℕ → ℕ → Instances → Option (Instances × List Call)
construct bus speed i =
    if bus == 0
    then some (record i { i2c0_instance = some fresh }, set_up_calls 0 9 8 speed)
    else if bus == 1
    then some (record i { i2c1_instance = some fresh }, set_up_calls 1 15 14 speed)
    else none

-- `i2c0_irq`: `none` for the object takes the interrupt off.
unfoldable pub i2c0_irq : Irq → Instances → Option (Instances × List Call)
i2c0_irq irq i = elim i.i2c0_instance [
  | none ↦ some (i, irq_set_enabled 0 false ∷ [])
  | some d ↦ elim (isr d irq) [
    | none ↦ none
    | some d' ↦ some (record i { i2c0_instance = some d' }, [])
  ]
]

unfoldable pub i2c1_irq : Irq → Instances → Option (Instances × List Call)
i2c1_irq irq i = elim i.i2c1_instance [
  | none ↦ some (i, irq_set_enabled 1 false ∷ [])
  | some d ↦ elim (isr d irq) [
    | none ↦ none
    | some d' ↦ some (record i { i2c1_instance = some d' }, [])
  ]
]
