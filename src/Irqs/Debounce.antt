-- ===== src/Irqs/Debounce.antt =====
-- The debouncing of the buttons, over the wrap of the 32-bit clock.
use mathlib.Core.Option.{some-injective}
use pico_drone.Common.{
  some, ℕ, ◌+◌, ◌^◌, ◌<◌, ◌≤◌, ◌≡◌, refl, sym, ap, ◌∙◌, ◌⊎◌, inl, inr, true, false, List, [], ◌∷◌,
  arith, u32,
}
use pico_drone.Irqs.{EventType, Irq, debounce_delay_ms, callback, run}
use pico_drone.Irqs.Branches.{is_press, event_of, button_here, button_late, rotary_cases, branches}

-- A press of a button more than the delay, and less than a wrap of the clock, after the last one
-- that was sent is sent.
callback_late :
    (irq : Irq) (tl : ℕ) (event : EventType)
    → event_of irq.gpio ≡ some event
    → tl + debounce_delay_ms < irq.at_ms
    → irq.at_ms < tl + 2 ^ 32
    → callback (u32 tl) irq ≡ (u32 irq.at_ms, event ∷ [])
callback_late irq tl event e late soon = elim (branches irq (u32 tl)) [
  | inr (none_here, other) ↦ absurd (cc (e, none_here))
  | inl (pin, event', at_pin, is_event, kind, taken) ↦
      taken
      ∙ button_late pin event' irq tl at_pin late soon
      ∙ ap (λ v. (u32 irq.at_ms, v ∷ []))
          (some-injective _ _ (sym is_event ∙ ap event_of (sym at_pin) ∙ e))
]

-- The times go on.
abbrev pub InOrder : ℕ → List Irq → Type 0
InOrder t [] = Unit
InOrder t (irq ∷ irqs) = (t ≤ irq.at_ms) × InOrder irq.at_ms irqs

-- The presses of a trace are more than the delay apart, the first one from `tl`; an interrupt sends
-- one event at most.
abbrev pub Spaced : ℕ → List (ℕ × List EventType) → Type 0
Spaced tl [] = Unit
Spaced tl ((t, []) ∷ rest) = Spaced tl rest
Spaced tl ((t, e ∷ e' ∷ es) ∷ rest) = ⊥
Spaced tl ((t, e ∷ []) ∷ rest) =
    ((is_press e ≡ true) × (tl + debounce_delay_ms < t) × Spaced t rest)
    ⊎ ((is_press e ≡ false) × Spaced tl rest)

run_nil : (tl : ℕ) → Spaced tl (run (u32 tl) [])
unfolding run
run_nil tl = tt

run_step :
    (last : ℕ) (irq : Irq) (irqs : List Irq) (r : ℕ × List EventType)
    → callback last irq ≡ r
    → run last (irq ∷ irqs) ≡ (irq.at_ms, r.1) ∷ run r.0 irqs
unfolding run
run_step last irq irqs r e = rw e refl

run-Spaced_from :
    (irqs : List Irq) (tl t : ℕ) → tl ≤ t → InOrder t irqs → Spaced tl (run (u32 tl) irqs)
run-Spaced_from [] tl t le order = run_nil tl
run-Spaced_from (irq ∷ irqs) tl t le (later, order) = elim (branches irq (u32 tl)) [
  | inl (pin, event, at_pin, is_event, kind, taken) ↦
      elim (button_here pin event irq tl at_pin (omega arith)) [
        | inl early ↦
            rw (run_step (u32 tl) irq irqs (u32 tl, []) (taken ∙ early))
              (run-Spaced_from irqs tl irq.at_ms (omega arith) order)
        | inr (late, sent) ↦
            rw (run_step (u32 tl) irq irqs (u32 irq.at_ms, event ∷ []) (taken ∙ sent))
              (inl (kind, late, run-Spaced_from irqs irq.at_ms irq.at_ms (omega arith) order))
      ]
  | inr (none_here, other) ↦
      let rest = run-Spaced_from irqs tl irq.at_ms (omega arith) order in
      elim (rotary_cases irq) [
        | inl nothing ↦
            rw (run_step (u32 tl) irq irqs (u32 tl, []) (other ∙ ap (λ l. (u32 tl, l)) nothing))
              rest
        | inr (e, kind, turned) ↦
            rw (run_step (u32 tl) irq irqs (u32 tl, e ∷ []) (other ∙ ap (λ l. (u32 tl, l)) turned))
              (inr (kind, rest))
      ]
]

-- For interrupts in the order of their times, each sends one event at most, and the presses sent, of
-- all four buttons together, are more than 200 ms apart, the first one from `tl`, over the wraps of
-- the clock. A press of a button more than 200 ms after the last one sent, and less than a wrap
-- later, is sent.
pub run-Spaced :
    (irqs : List Irq) (tl : ℕ) (irq : Irq) (event : EventType)
    → InOrder tl irqs
    → event_of irq.gpio ≡ some event
    → tl + debounce_delay_ms < irq.at_ms
    → irq.at_ms < tl + 2 ^ 32
    → Spaced tl (run (u32 tl) irqs) × (callback (u32 tl) irq ≡ (u32 irq.at_ms, event ∷ []))
run-Spaced irqs tl irq event order e late soon =
    (run-Spaced_from irqs tl tl (omega arith) order, callback_late irq tl event e late soon)
