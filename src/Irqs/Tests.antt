-- ===== src/Irqs/Tests.antt =====
-- A run of the buttons, and their theorem at it.
use pico_drone.Common.{ℕ, ◌≡◌, refl, false, List, [], ◌∷◌, arith}
use pico_drone.Irqs.{Irq, button_press_event_0, button_press_event_1, callback, run, button, rotary}
use pico_drone.Irqs.Debounce.{Spaced, run-Spaced}

abbrev at : ℕ → ℕ → Irq
at gpio t = record { gpio = gpio; at_ms = t; rot_a = false; rot_b = false }

-- A bounce at 350, and button 1 too early at 450, as the delay is shared.
abbrev presses : List Irq
presses = at 9 300 ∷ at 9 350 ∷ at 8 450 ∷ at 8 501 ∷ []

run-presses :
    run 0 presses
    ≡ (300, button_press_event_0 ∷ [])
      ∷ (350, [])
      ∷ (450, [])
      ∷ (501, button_press_event_1 ∷ [])
      ∷ []
unfolding run callback button rotary
run-presses = refl

run-Spaced_example :
    Spaced 0 (run 0 presses) × (callback 0 (at 9 201) ≡ (201, button_press_event_0 ∷ []))
run-Spaced_example =
    run-Spaced presses 0 (at 9 201) button_press_event_0 (omega arith) refl (omega arith)
      (omega arith)
