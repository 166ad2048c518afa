-- ===== src/Rtc/Tests.antt =====
-- Runs of the clock driver, and its theorems at an input.
use pico_drone.Common.{ℕ, ◌+◌, ◌*◌, ◌≡◌, refl, true, List, [], ◌∷◌, arith, ap, replicate}
use pico_drone.I2c.{Bus}
use pico_drone.Rtc.{Time, mcp79410_addr, dec_to_bcd, time_frame, set_time, get_time}
use pico_drone.Rtc.Setting.{KeepsTime, IsTime, set_time-get_time}

-- A chip that keeps the registers behind the address byte.
abbrev registers : List ℕ → List ℕ → List ℕ
registers dev [] = dev
registers dev (reg ∷ bytes) = bytes

abbrev bus : Bus (List ℕ)
bus = record {
  write = λ dev a bytes. registers dev bytes;
  read = λ dev a n. (dev, dev);
  transaction = λ dev a bytes n. (dev, dev);
}

bus-KeepsTime : KeepsTime bus
bus-KeepsTime dev s m h w d mo y = (w, 0, same)
  where
    same : s ∷ m ∷ h ∷ w ∷ d ∷ mo ∷ y ∷ [] ≡ s ∷ m ∷ h ∷ w ∷ d ∷ (mo + 0 * 32) ∷ y ∷ []
    same = ap (λ n. s ∷ m ∷ h ∷ w ∷ d ∷ n ∷ y ∷ []) {x = mo} {y = mo + 0 * 32} (omega arith)

-- 23:59:58 on 31.12.25.
abbrev evening : Time
evening = record { seconds = 58; minutes = 59; hours = 23; day = 31; month = 12; year = 25 }

frame_runs : time_frame evening ≡ 0 ∷ 0xD8 ∷ 0x59 ∷ 0x23 ∷ 0x09 ∷ 0x31 ∷ 0x12 ∷ 0x25 ∷ []
unfolding time_frame dec_to_bcd
frame_runs = refl

evening-IsTime : IsTime evening
evening-IsTime = record {
  seconds = omega arith;
  minutes = omega arith;
  hours = omega arith;
  day = omega arith;
  month = omega arith;
  year = omega arith;
}

set_time-get_time_example :
    (get_time bus mcp79410_addr true
      (replicate 7 0)
      (set_time bus mcp79410_addr true [] evening)
      (record evening { year = 0 })).0
    ≡ evening
set_time-get_time_example =
    set_time-get_time bus [] evening (record evening { year = 0 }) (replicate 7 0) bus-KeepsTime
      evening-IsTime refl
