-- ===== src/Common/Pbuf.antt =====
-- A received packet buffer of lwIP, seen through the two things that the servers use of it: its
-- total length, and `pbuf_copy_partial (p, dst, n, off)`, given as the bytes that it delivers.
use Prim.Native.Nat.{ℕ, ◌-◌, min}
use mathlib.Core.Path.{◌≡◌}
use mathlib.Core.List.{List}
use native.Mathlib.Omega.{arith}
use pico_drone.Common.Lists.{length, take, drop, length-take, length-drop}

pub record Pbuf : Type 0 where
  pub tot_len : ℕ
  pub copy_partial : ℕ → ℕ → List ℕ

-- What lwIP documents: the copy delivers `n` bytes, or what is left behind the offset if less.
abbrev pub IsPbuf : Pbuf → Type 0
IsPbuf p = (n off : ℕ) → length (p.copy_partial n off) ≡ min n (p.tot_len - off)

-- The packet of given bytes; its copies satisfy the documented behaviour.
abbrev pub pbuf_of : List ℕ → Pbuf
pbuf_of bytes = record { tot_len = length bytes; copy_partial = λ n off. take n (drop off bytes) }

pub pbuf_of-IsPbuf : (bytes : List ℕ) → IsPbuf (pbuf_of bytes)
pbuf_of-IsPbuf bytes n off = omega (arith, length-take n (drop off bytes), length-drop off bytes)
