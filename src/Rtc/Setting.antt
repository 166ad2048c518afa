-- ===== src/Rtc/Setting.antt =====
-- Setting the clock and reading it.
use pico_drone.Common.{
  ℕ, zero, suc, Bool, false, ◌==◌, ==_iff, if◌then◌else◌, ◌+◌, ◌*◌, ◌%◌, ◌^◌, ◌<◌, ◌≤◌, ◌≡◌, refl,
  ap, ◌∙◌, arith, bit_or, u8, true, List, [], ◌∷◌, blit, length, drop,
}
use pico_drone.Common.Append.{blit_start}
use pico_drone.I2c.{Bus}
use pico_drone.Rtc.{
  Time, mcp79410_addr, rtcsec, dec_to_bcd, bcd_to_dec, time_frame, time_of, set_time, get_time,
}
use pico_drone.Rtc.Bcd.{dec_to_bcd_lem, dec_to_bcd-bcd_to_dec}

-- What the chip promises within the second in which it is set: the seven registers read as they
-- were written, but for the status bits beside the weekday and above the month.
abbrev pub KeepsTime : {Dev : Type 0} → Bus Dev → Type 0
KeepsTime {Dev} bus =
    (dev : Dev) (s m h w d mo y : ℕ)
    → (w' : ℕ) × (leap : ℕ) × ((bus.transaction
          (bus.write dev mcp79410_addr (rtcsec ∷ s ∷ m ∷ h ∷ w ∷ d ∷ mo ∷ y ∷ [])) mcp79410_addr
          (rtcsec ∷ []) 7).0
        ≡ s ∷ m ∷ h ∷ w' ∷ d ∷ (mo + leap * 32) ∷ y ∷ [])

pub record IsTime (t : Time) : Type 0 where
  pub seconds : t.seconds < 60
  pub minutes : t.minutes < 60
  pub hours : t.hours < 24
  pub day : t.day ≤ 31
  pub month : t.month ≤ 12
  pub year : t.year < 100

-- A test at the numbers below `n`, by evaluation.
passes : ℕ → (ℕ → Bool) → Bool
passes zero test = true
passes (suc n) test = if test n then passes n test else false

passes_at : (n k : ℕ) (test : ℕ → Bool) → k < n → passes n test ≡ true → test k ≡ true
unfolding passes
passes_at zero k test lt e = elim lt [ ]
passes_at (suc n) k test lt e = ground (arith, passes_at n k test)

started_table : passes 60 (λ n. u8 (bit_or (dec_to_bcd n) 0x80) % 2 ^ 7 == dec_to_bcd n) ≡ true
unfolding passes dec_to_bcd
started_table = refl

-- The start bit beside the seconds is masked again.
started :
    (seconds : ℕ)
    → seconds < 60
    → u8 (bit_or (dec_to_bcd seconds) 0x80) % 2 ^ 7 ≡ dec_to_bcd seconds
started seconds h =
    (==_iff (u8 (bit_or (dec_to_bcd seconds) 0x80) % 2 ^ 7) (dec_to_bcd seconds)).0 (
      passes_at 60 seconds (λ n. u8 (bit_or (dec_to_bcd n) 0x80) % 2 ^ 7 == dec_to_bcd n) h
        started_table)

-- The registers after `set_time` spell the time that was set.
time_of_lem :
    (t : Time) (w leap : ℕ) (rest : List ℕ)
    → IsTime t
    → time_of (
        u8 (bit_or (dec_to_bcd t.seconds) 0x80)
        ∷ dec_to_bcd t.minutes
        ∷ dec_to_bcd t.hours
        ∷ w
        ∷ dec_to_bcd t.day
        ∷ (dec_to_bcd t.month + leap * 32)
        ∷ dec_to_bcd t.year
        ∷ rest)
      ≡ t
unfolding time_of
time_of_lem t w leap rest v =
    let back : (n : ℕ) → n < 100 → bcd_to_dec (dec_to_bcd n) ≡ n =
      λ n h. (dec_to_bcd-bcd_to_dec n 0 0 h (omega arith) (omega arith)).0 in
    let day : dec_to_bcd t.day % 2 ^ 6 ≡ dec_to_bcd t.day =
      omega (arith, dec_to_bcd_lem t.day (omega (arith, v.day)), v.day) in
    let month : (dec_to_bcd t.month + leap * 32) % 2 ^ 5 ≡ dec_to_bcd t.month =
      omega (arith, dec_to_bcd_lem t.month (omega (arith, v.month)), v.month) in
    rw
      (
        started t.seconds v.seconds,
        day,
        month,
        back t.seconds (omega (arith, v.seconds)),
        back t.minutes (omega (arith, v.minutes)),
        back t.hours (omega (arith, v.hours)),
        back t.day (omega (arith, v.day)),
        back t.month (omega (arith, v.month)),
        back t.year v.year,
      )
      refl

-- On a chip at its fixed address that keeps the seven registers but for status bits, and with the
-- mutex got: a valid time that has been set is read back as it was.
pub set_time-get_time :
    {Dev : Type 0} (bus : Bus Dev) (dev : Dev) (t old : Time) (stack : List ℕ)
    → KeepsTime bus
    → IsTime t
    → length stack ≡ 7
    → (get_time bus mcp79410_addr true stack (set_time bus mcp79410_addr true dev t) old).0 ≡ t
unfolding set_time get_time time_frame
set_time-get_time bus dev t old stack keeps v seven =
    let (w, leap, e) =
      keeps dev (u8 (bit_or (dec_to_bcd t.seconds) 0x80)) (dec_to_bcd t.minutes)
        (dec_to_bcd t.hours) (bit_or 0x08 0x01) (dec_to_bcd t.day) (dec_to_bcd t.month)
        (dec_to_bcd t.year) in
    ap (λ l. time_of (blit stack 0 l)) e
    ∙ ap time_of (
        blit_start stack
          (u8 (bit_or (dec_to_bcd t.seconds) 0x80)
            ∷ dec_to_bcd t.minutes
            ∷ dec_to_bcd t.hours
            ∷ w
            ∷ dec_to_bcd t.day
            ∷ (dec_to_bcd t.month + leap * 32)
            ∷ dec_to_bcd t.year
            ∷ [])
          (omega arith))
    ∙ time_of_lem t w leap (drop 7 stack) v
