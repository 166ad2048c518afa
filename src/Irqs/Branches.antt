-- ===== src/Irqs/Branches.antt =====
-- Each pin takes one branch of the handler, and what that branch does.
use mathlib.Core.List.{append-nil}
use pico_drone.Common.{
  Option, ◌||◌, some, none, ℕ, ◌+◌, ◌-◌, ◌^◌, ◌<◌, ◌≤◌, ◌≡◌, refl, ◌⊎◌, inl, inr, Bool, true, false,
  [], ◌∷◌, arith, ltb, ◌==◌, if◌then◌else◌, u32, Bool-cases,
}
use pico_drone.Irqs.{
  EventType, button_press_event, rotary_encoder_cw_event, rotary_encoder_ccw_event,
  button_press_event_0, button_press_event_1, button_press_event_2, Irq, rot_sw_pin, rot_a_pin,
  rot_b_pin, button_0, button_1, button_2, debounce_delay_ms, differ, button, rotary, callback,
}

abbrev pub is_press : EventType → Bool
is_press rotary_encoder_cw_event = false
is_press rotary_encoder_ccw_event = false
is_press button_press_event = true
is_press button_press_event_0 = true
is_press button_press_event_1 = true
is_press button_press_event_2 = true

-- The event of a button's pin.
abbrev pub event_of : ℕ → Option EventType
event_of gpio =
    if gpio == rot_sw_pin
    then some button_press_event
    else if gpio == button_0
    then some button_press_event_0
    else if gpio == button_1
    then some button_press_event_1
    else if gpio == button_2
    then some button_press_event_2
    else none

pub button_here :
    (pin : ℕ) (event : EventType) (irq : Irq) (tl : ℕ)
    → irq.gpio ≡ pin
    → tl ≤ irq.at_ms
    → (button pin event irq (u32 tl) ≡ (u32 tl, []))
      ⊎ ((tl + debounce_delay_ms < irq.at_ms)
          × (button pin event irq (u32 tl) ≡ (u32 irq.at_ms, event ∷ [])))
unfolding button
button_here pin event irq tl e later =
    let here : (irq.gpio == pin) ≡ true = ground arith in
    elim (Bool-cases (ltb debounce_delay_ms (u32 (u32 irq.at_ms + 2 ^ 32 - u32 tl)))) [
      | inl late ↦ inr (ground arith, rw (here, late) refl)
      | inr early ↦ inl (rw (here, early) refl)
    ]

pub button_late :
    (pin : ℕ) (event : EventType) (irq : Irq) (tl : ℕ)
    → irq.gpio ≡ pin
    → tl + debounce_delay_ms < irq.at_ms
    → irq.at_ms < tl + 2 ^ 32
    → button pin event irq (u32 tl) ≡ (u32 irq.at_ms, event ∷ [])
unfolding button
button_late pin event irq tl e late soon =
    let here : (irq.gpio == pin) ≡ true = ground arith in
    let due : ltb debounce_delay_ms (u32 (u32 irq.at_ms + 2 ^ 32 - u32 tl)) ≡ true = ground arith in
    rw (here, due) refl

button_other :
    (pin : ℕ) (event : EventType) (irq : Irq) (last : ℕ)
    → (irq.gpio == pin) ≡ false
    → button pin event irq last ≡ (last, [])
unfolding button
button_other pin event irq last other = rw other refl

rotary_other :
    (irq : Irq)
    → (irq.gpio == rot_a_pin) ≡ false
    → (irq.gpio == rot_b_pin) ≡ false
    → rotary irq ≡ []
unfolding rotary
rotary_other irq p q = rw (p, q) refl

pub rotary_cases :
    (irq : Irq)
    → (rotary irq ≡ []) ⊎ ((e : EventType) × (is_press e ≡ false) × (rotary irq ≡ e ∷ []))
unfolding rotary
rotary_cases irq = elim (Bool-cases ((irq.gpio == rot_a_pin) || (irq.gpio == rot_b_pin))) [
  | inl turned ↦ elim (Bool-cases (differ irq.rot_a irq.rot_b)) [
    | inl cw ↦ inr (rotary_encoder_cw_event, refl, rw (turned, cw) refl)
    | inr ccw ↦ inr (rotary_encoder_ccw_event, refl, rw (turned, ccw) refl)
  ]
  | inr other ↦ inl (rw other refl)
]

-- Each pin takes one branch.
module _ (irq : Irq) (last : ℕ) where
  callback_at_rot_sw_pin :
      irq.gpio ≡ rot_sw_pin → callback last irq ≡ button rot_sw_pin button_press_event irq last
  unfolding callback
  callback_at_rot_sw_pin e =
      let b = button rot_sw_pin button_press_event irq last in
      rw
        (
          button_other button_0 button_press_event_0 irq b.0 (ground arith),
          button_other button_1 button_press_event_1 irq b.0 (ground arith),
          button_other button_2 button_press_event_2 irq b.0 (ground arith),
          rotary_other irq (ground arith) (ground arith),
          append-nil b.1,
        )
        refl

  callback_at_button_0 :
      irq.gpio ≡ button_0 → callback last irq ≡ button button_0 button_press_event_0 irq last
  unfolding callback
  callback_at_button_0 e =
      let b = button button_0 button_press_event_0 irq last in
      rw
        (
          button_other rot_sw_pin button_press_event irq last (ground arith),
          button_other button_1 button_press_event_1 irq b.0 (ground arith),
          button_other button_2 button_press_event_2 irq b.0 (ground arith),
          rotary_other irq (ground arith) (ground arith),
          append-nil b.1,
        )
        refl

  callback_at_button_1 :
      irq.gpio ≡ button_1 → callback last irq ≡ button button_1 button_press_event_1 irq last
  unfolding callback
  callback_at_button_1 e =
      let b = button button_1 button_press_event_1 irq last in
      rw
        (
          button_other rot_sw_pin button_press_event irq last (ground arith),
          button_other button_0 button_press_event_0 irq last (ground arith),
          button_other button_2 button_press_event_2 irq b.0 (ground arith),
          rotary_other irq (ground arith) (ground arith),
          append-nil b.1,
        )
        refl

  callback_at_button_2 :
      irq.gpio ≡ button_2 → callback last irq ≡ button button_2 button_press_event_2 irq last
  unfolding callback
  callback_at_button_2 e =
      let b = button button_2 button_press_event_2 irq last in
      rw
        (
          button_other rot_sw_pin button_press_event irq last (ground arith),
          button_other button_0 button_press_event_0 irq last (ground arith),
          button_other button_1 button_press_event_1 irq last (ground arith),
          rotary_other irq (ground arith) (ground arith),
          append-nil b.1,
        )
        refl

  callback_elsewhere : event_of irq.gpio ≡ none → callback last irq ≡ (last, rotary irq)
  unfolding callback
  callback_elsewhere e =
      rw
        (
          button_other rot_sw_pin button_press_event irq last (ground arith),
          button_other button_0 button_press_event_0 irq last (ground arith),
          button_other button_1 button_press_event_1 irq last (ground arith),
          button_other button_2 button_press_event_2 irq last (ground arith),
        )
        refl

  pub branches :
      ((pin : ℕ) × (event : EventType) × (irq.gpio ≡ pin)
        × (event_of pin ≡ some event)
        × (is_press event ≡ true)
        × (callback last irq ≡ button pin event irq last))
      ⊎ ((event_of irq.gpio ≡ none) × (callback last irq ≡ (last, rotary irq)))
  branches = elim (Bool-cases (irq.gpio == rot_sw_pin)) [
    | inl here ↦
        (let e : irq.gpio ≡ rot_sw_pin = ground arith in
          inl (rot_sw_pin, button_press_event, e, refl, refl, callback_at_rot_sw_pin e))
    | inr not_0 ↦ elim (Bool-cases (irq.gpio == button_0)) [
      | inl here ↦
          (let e : irq.gpio ≡ button_0 = ground arith in
            inl (button_0, button_press_event_0, e, refl, refl, callback_at_button_0 e))
      | inr not_1 ↦ elim (Bool-cases (irq.gpio == button_1)) [
        | inl here ↦
            (let e : irq.gpio ≡ button_1 = ground arith in
              inl (button_1, button_press_event_1, e, refl, refl, callback_at_button_1 e))
        | inr not_2 ↦ elim (Bool-cases (irq.gpio == button_2)) [
          | inl here ↦
              (let e : irq.gpio ≡ button_2 = ground arith in
                inl (button_2, button_press_event_2, e, refl, refl, callback_at_button_2 e))
          | inr not_3 ↦
              (let e : event_of irq.gpio ≡ none = ground arith in inr (e, callback_elsewhere e))
        ]
      ]
    ]
  ]
