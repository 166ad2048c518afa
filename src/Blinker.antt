-- ===== src/Blinker.antt =====
-- src/blinker.cpp and .h: the LED task and the two operations that notify it.
pub mod Blinking
mod Tests
use pico_drone.Common.{ℕ, zero, suc, u32, ◌-◌, ◌^◌, Bool, true, false, not, ◌==◌, if◌then◌else◌}

-- The members, the value of the task's notification (0 is none), the local `on` of `run`, and the
-- output level of the LED's pin.
pub record Blinker : Type 0 where
  pub delay : ℕ
  pub notified : ℕ
  pub is_on : Bool
  pub level : Bool

abbrev pub off_command : ℕ
off_command = 2 ^ 32 - 1

-- The constructor, whose task starts with `on = false`.
abbrev pub fresh : Blinker
fresh = record { delay = 300; notified = 0; is_on = false; level = false }

unfoldable pub off : Blinker → Blinker
off b = record b { notified = off_command }

unfoldable pub on : ℕ → Blinker → Blinker
on delay b = record b { notified = u32 delay }

-- The `switch` of `run`.
unfoldable pub obey : ℕ → Blinker → Blinker
obey cmd b =
    if cmd == 0
    then b
    else if cmd == off_command
    then record b { is_on = false }
    else record b { delay = cmd; is_on = true }

-- One round of the loop of `run`, behind `ulTaskNotifyTake`, which hands the value over and clears
-- it.
unfoldable pub run_round : Blinker → Blinker
run_round b =
    let b' = obey b.notified (record b { notified = 0 }) in
    record b' { level = if b'.is_on then not b'.level else false }

unfoldable pub run : ℕ → Blinker → Blinker
run zero b = b
run (suc n) b = run n (run_round b)
