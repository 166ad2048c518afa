-- ===== src/I2c.antt =====
-- src/i2c/PicoI2C.cpp and .h: the bus as its drivers see it; the children model how it works.
pub mod Fifo
pub mod Commands
pub mod Steps
pub mod Transfer
pub mod Instance
mod Tests
use pico_drone.Common.{ℕ, List}

-- `write`, `read` and `transaction` with the address of the device; the counts that they return
-- are looked at by no driver.
pub record Bus (Dev : Type 0) : Type 0 where
  pub write : Dev → ℕ → List ℕ → Dev
  pub read : Dev → ℕ → ℕ → List ℕ × Dev
  pub transaction : Dev → ℕ → List ℕ → ℕ → List ℕ × Dev
