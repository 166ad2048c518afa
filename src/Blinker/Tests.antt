-- ===== src/Blinker/Tests.antt =====
-- The theorem on the LED at a delay of 200.
use pico_drone.Common.{◌≡◌, true, false, arith}
use pico_drone.Blinker.{fresh, off, on, run}
use pico_drone.Blinker.Blinking.{run-on_off}

run-on_off_example :
    (run 3 (on 200 fresh) ≡ record { delay = 200; notified = 0; is_on = true; level = true })
    × (run 2 (off (run 3 (on 200 fresh)))
        ≡ record { delay = 200; notified = 0; is_on = false; level = false })
run-on_off_example = run-on_off fresh 200 2 1 (omega arith) (omega arith)
