-- ===== src/I2c/Tests.antt =====
-- Transfers on the I2C bus, and their theorems at them.
use pico_drone.Common.{
  ◌⊎◌, ◌-◌, ◌+◌, ◌⊎◌, ◌-◌, ℕ, ◌≤◌, ◌≡◌, refl, some, true, false, List, [], ◌∷◌, ◌++◌, length, arith,
}
use pico_drone.I2c.Fifo.{
  Driver, Irq, Command, tx_fill_fifo, rx_fill_fifo, tx_put, rx_put, tx_command, rx_command, receive,
  drained, refill, finish, isr, run, start, set_up, counted, transaction,
}
use pico_drone.I2c.Instance.{fresh}
use pico_drone.I2c.Commands.{left, commands}
use pico_drone.I2c.Transfer.{transaction-commands, transaction-full}

-- Time and again TX_EMPTY with room for one command; the third interrupt brings a byte.
abbrev fills : List Irq
fills =
    record { rx = []; tx_empty = true; stop_det = false; room = 1 }
    ∷ record { rx = []; tx_empty = true; stop_det = false; room = 2 }
    ∷ record { rx = 7 ∷ []; tx_empty = true; stop_det = false; room = 1 }
    ∷ []

abbrev stop : Irq
stop = record { rx = 8 ∷ []; tx_empty = false; stop_det = true; room = 0 }

abbrev nothing : Irq
nothing = record { rx = []; tx_empty = false; stop_det = true; room = 0 }

abbrev put : ℕ → Command
put b = record { restart = false; stop = false; is_read = false; byte = b }

abbrev get : Command
get = record { restart = false; stop = false; is_read = true; byte = 0 }

-- The address of a register is written, and two bytes are read behind a RESTART.
transaction-register :
    transaction fresh 0x50 (5 ∷ []) 2 1 (fills ++ stop ∷ [])
    ≡ some (
      3,
      record fresh {
        tar = 0x50;
        rbuf = 7 ∷ 8 ∷ [];
        data_cmd = put 5 ∷ record get { restart = true } ∷ record get { stop = true } ∷ [];
      },
    )
unfolding transaction start set_up run isr tx_fill_fifo rx_fill_fifo tx_put rx_put tx_command
    rx_command receive refill drained finish counted
transaction-register = refl

transaction-commands_example :
    (count : ℕ) × (d' : Driver) × (transaction fresh 0x50 (5 ∷ []) 2 0 fills ≡ some (count, d'))
    × (d'.data_cmd ++ left d' ≡ commands (5 ∷ []) 2)
    × (length d'.rbuf ≤ 2)
    × ((count ≡ 0) ⊎ (count + (length d'.wbuf + (2 - length d'.rbuf)) ≡ 3))
transaction-commands_example = transaction-commands fresh 0x50 (5 ∷ []) 2 0 fills (omega arith)

transaction-full_example :
    (d' : Driver) × (transaction fresh 0x50 (5 ∷ []) 2 0 (fills ++ stop ∷ []) ≡ some (3, d'))
    × (d'.data_cmd ≡ commands (5 ∷ []) 2)
    × (d'.rbuf ≡ 7 ∷ 8 ∷ [])
transaction-full_example =
    transaction-full fresh 0x50 (5 ∷ []) 2 0 fills stop (omega arith) (omega arith)
      (refl, refl, omega arith, (refl, refl, omega arith, (refl, refl, omega arith, tt))) refl refl
