-- ===== src/Blinker/Blinking.antt =====
-- src/blinker.cpp: the LED blinks between `on` and `off`.
use pico_drone.Common.{
  ℕ, zero, suc, u32, ◌<◌, ◌≡◌, refl, ap, ◌∙◌, Bool, true, false, not, ◌==◌, arith,
}
use pico_drone.Blinker.{Blinker, off_command, off, on, obey, run_round, run}

-- A level that is inverted a number of times.
abbrev pub inverted : ℕ → Bool → Bool
inverted zero level = level
inverted (suc n) level = inverted n (not level)

run-lit :
    (n d : ℕ) (level : Bool)
    → run n (record { delay = d; notified = 0; is_on = true; level = level })
      ≡ record { delay = d; notified = 0; is_on = true; level = inverted n level }
unfolding run run_round obey
run-lit zero d level = refl
run-lit (suc n) d level = run-lit n d (not level)

run-dark :
    (n d : ℕ)
    → run n (record { delay = d; notified = 0; is_on = false; level = false })
      ≡ record { delay = d; notified = 0; is_on = false; level = false }
unfolding run run_round obey
run-dark zero d = refl
run-dark (suc n) d = run-dark n d

-- Behind `on` with a delay that is neither 0 nor the largest number, the LED changes in each round,
-- with that delay; behind `off` it goes dark in the next round and stays dark, with the delay kept.
pub run-on_off :
    (b : Blinker) (d n m : ℕ)
    → 0 < d
    → d < off_command
    → let lit = run (suc n) (on d b) in
      (lit ≡ record { delay = d; notified = 0; is_on = true; level = inverted (suc n) b.level })
      × (run (suc m) (off lit) ≡ record { delay = d; notified = 0; is_on = false; level = false })
unfolding run run_round obey on off
run-on_off b d n m some_ small =
    let same : u32 d ≡ d = omega arith in
    let first : (d == 0) ≡ false = ground arith in
    let second : (d == off_command) ≡ false = ground arith in
    let lit : run (suc n) (on d b)
        ≡ record { delay = d; notified = 0; is_on = true; level = inverted n (not b.level) } =
      rw (same, first, second) (run-lit n d (not b.level)) in
    (lit, ap (λ c. run (suc m) (off c)) lit ∙ run-dark m d)
