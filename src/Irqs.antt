-- ===== src/Irqs.antt =====
-- src/src/SwIRQ/irqs.cpp and src/src/irqs.h: the interrupt handler of the buttons and the rotary
-- encoder. What it sends to the queue of FreeRTOS is its output, in order.
pub mod Branches
pub mod Debounce
mod Tests
use pico_drone.Common.{
  ℕ, ◌+◌, ◌-◌, ◌^◌, Bool, true, false, not, ◌||◌, List, [], ◌∷◌, ◌++◌, ltb, ◌==◌, if◌then◌else◌,
  u32,
}

abbrev pub rot_sw_pin : ℕ
rot_sw_pin = 12

abbrev pub rot_a_pin : ℕ
rot_a_pin = 10

abbrev pub rot_b_pin : ℕ
rot_b_pin = 11

abbrev pub button_0 : ℕ
button_0 = 9

abbrev pub button_1 : ℕ
button_1 = 8

abbrev pub button_2 : ℕ
button_2 = 7

abbrev pub debounce_delay_ms : ℕ
debounce_delay_ms = 200

pub data EventType : Type 0 where
  button_press_event rotary_encoder_cw_event rotary_encoder_ccw_event : EventType
  button_press_event_0 button_press_event_1 button_press_event_2 : EventType

-- An interrupt: its pin, the milliseconds since the boot (which `to_ms_since_boot` gives modulo
-- 2^32), and the levels of the encoder's pins.
pub record Irq : Type 0 where
  pub gpio : ℕ
  pub at_ms : ℕ
  pub rot_a : Bool
  pub rot_b : Bool

abbrev pub differ : Bool → Bool → Bool
differ true b = not b
differ false b = b

-- The branch of one button: `lastButtonPressTime` afterwards, and what is sent.
unfoldable pub button : ℕ → EventType → Irq → ℕ → ℕ × List EventType
button pin event irq last =
    let now = u32 irq.at_ms in
    if not (irq.gpio == pin)
    then (last, [])
    else if ltb debounce_delay_ms (u32 (now + 2 ^ 32 - last))
    then (now, event ∷ [])
    else (last, [])

unfoldable pub rotary : Irq → List EventType
rotary irq =
    if irq.gpio == rot_a_pin || irq.gpio == rot_b_pin
    then (if differ irq.rot_a irq.rot_b
        then rotary_encoder_cw_event ∷ []
        else rotary_encoder_ccw_event ∷ [])
    else []

-- `callback`, with `lastButtonPressTime` before and afterwards.
unfoldable pub callback : ℕ → Irq → ℕ × List EventType
callback last irq =
    let (last0, sent0) = button rot_sw_pin button_press_event irq last in
    let (last1, sent1) = button button_0 button_press_event_0 irq last0 in
    let (last2, sent2) = button button_1 button_press_event_1 irq last1 in
    let (last3, sent3) = button button_2 button_press_event_2 irq last2 in
    (last3, sent0 ++ (sent1 ++ (sent2 ++ (sent3 ++ rotary irq))))

-- A run of interrupts: what each one sent, with its time.
unfoldable pub run : ℕ → List Irq → List (ℕ × List EventType)
run last [] = []
run last (irq ∷ irqs) = let (last', sent) = callback last irq in (irq.at_ms, sent) ∷ run last' irqs
