-- ===== src/Rtc.antt =====
-- src/src/RTC/RTC.cpp: the clock chip MCP79410 on the I2C bus. Its registers hold decimal digits.
pub mod Bcd
pub mod Setting
mod Tests
use pico_drone.Common.{
  ℕ, ◌+◌, ◌*◌, ◌/◌, ◌%◌, ◌^◌, Bool, List, [], ◌∷◌, if◌then◌else◌, bit_or, u8, ◌<<◌, ◌>>>◌, get_or,
  Option, none, some, blit,
}
use pico_drone.I2c.{Bus}

abbrev pub mcp79410_addr : ℕ
mcp79410_addr = 0x6F

abbrev pub rtcsec : ℕ
rtcsec = 0x00

abbrev pub rtcwkday : ℕ
rtcwkday = 0x03

abbrev pub control : ℕ
control = 0x07

unfoldable pub dec_to_bcd : ℕ → ℕ
dec_to_bcd dec = u8 (bit_or ((dec / 10) << 4) (dec % 10))

-- `bcd & 0x0F` is the low digit.
unfoldable pub bcd_to_dec : ℕ → ℕ
bcd_to_dec bcd = u8 ((bcd >>> 4) * 10 + bcd % 2 ^ 4)

pub record Time : Type 0 where
  pub seconds : ℕ
  pub minutes : ℕ
  pub hours : ℕ
  pub day : ℕ
  pub month : ℕ
  pub year : ℕ

-- The eight bytes that `set_time` sends.
unfoldable pub time_frame : Time → List ℕ
time_frame t =
    rtcsec
    ∷ u8 (bit_or (dec_to_bcd t.seconds) 0x80)
    ∷ dec_to_bcd t.minutes
    ∷ dec_to_bcd t.hours
    ∷ bit_or 0x08 0x01
    ∷ dec_to_bcd t.day
    ∷ dec_to_bcd t.month
    ∷ dec_to_bcd t.year
    ∷ []

-- The masks 0x7F, 0x3F and 0x1F keep the low 7, 6 and 5 bits.
unfoldable pub time_of : List ℕ → Time
time_of buffer = record {
  seconds = bcd_to_dec (get_or buffer 0 0 % 2 ^ 7);
  minutes = bcd_to_dec (get_or buffer 1 0);
  hours = bcd_to_dec (get_or buffer 2 0);
  day = bcd_to_dec (get_or buffer 4 0 % 2 ^ 6);
  month = bcd_to_dec (get_or buffer 5 0 % 2 ^ 5);
  year = bcd_to_dec (get_or buffer 6 0);
}

module _ {Dev : Type 0} (bus : Bus Dev) (device_address : ℕ) where
  -- `taken` says whether the mutex is got.
  unfoldable pub init : Bool → Dev → Dev
  init taken dev =
      if taken
      then bus.write (bus.write dev device_address (rtcsec ∷ 0x80 ∷ [])) device_address
          (rtcwkday ∷ 0x08 ∷ [])
      else dev

  unfoldable pub set_time : Bool → Dev → Time → Dev
  set_time taken dev t = if taken then bus.write dev device_address (time_frame t) else dev

  -- The time stored through the pointers, which keep what they had (`old`) without the mutex;
  -- `stack` is what `buffer` holds before. The address is the chip's, not `device_address`.
  unfoldable pub get_time : Bool → List ℕ → Dev → Time → Time × Dev
  get_time taken stack dev old =
      if taken
      then (let (bytes, dev') = bus.transaction dev mcp79410_addr (rtcsec ∷ []) 7 in
          (time_of (blit stack 0 bytes), dev'))
      else (old, dev)

  unfoldable pub set_alarm : Bool → Dev → ℕ → ℕ → ℕ → ℕ → ℕ → Dev
  set_alarm taken dev seconds minutes hours day date =
      if taken
      then bus.write dev device_address (
          0x0A
          ∷ u8 (bit_or (dec_to_bcd seconds) 0x80)
          ∷ dec_to_bcd minutes
          ∷ dec_to_bcd hours
          ∷ dec_to_bcd day
          ∷ dec_to_bcd date
          ∷ [])
      else dev

  unfoldable pub clear_alarm : Bool → Dev → Dev
  clear_alarm taken dev = if taken then bus.write dev device_address (control ∷ 0x00 ∷ []) else dev
