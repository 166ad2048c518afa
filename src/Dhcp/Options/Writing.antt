-- ===== src/Dhcp/Options/Writing.antt =====
-- The `opt_write` functions append an encoded option at the write position.
use pico_drone.Common.{
  ℕ, ◌+◌, ◌<◌, ◌≡◌, refl, ap, ◌∙◌, List, [], ◌∷◌, ◌++◌, arith, u8, ◌>>>◌, length, take, blit,
  length-append,
}
use pico_drone.Common.Blit.{blit-blit, set-eq-blit}
use pico_drone.Dhcp.Options.{Cursor, put, opt_write_n, opt_write_u8, opt_write_u32}

-- From `c` to `c'` the bytes are copied in, and the position moves behind them.
pub record Writes (c : Cursor) (bytes : List ℕ) (c' : Cursor) : Type 0 where
  pub mem : c'.mem ≡ blit c.mem c.opt bytes
  pub opt : c'.opt ≡ c.opt + length bytes

pub Writes-append :
    {c c' c'' : Cursor} (xs ys : List ℕ)
    → Writes c xs c'
    → Writes c' ys c''
    → Writes c (xs ++ ys) c''
Writes-append {c} {c'} {c''} xs ys w v = record {
  mem = v.mem ∙ ap (λ m. blit m c'.opt ys) w.mem ∙ blit-blit c.mem c.opt xs ys c'.opt w.opt;
  opt = omega (arith, v.opt, w.opt, length-append xs ys);
}

pub put-Writes : (c : Cursor) (v : ℕ) → v < 256 → Writes c (v ∷ []) (put c v)
put-Writes c v small = record {
  mem = set-eq-blit c.mem c.opt (u8 v) ∙ ap (λ b. blit c.mem c.opt (b ∷ [])) (omega arith);
  opt = omega arith;
}

take-length : (xs : List ℕ) → take (length xs) xs ≡ xs
take-length [] = refl
take-length (x ∷ xs) = ap (λ l. x ∷ l) (take-length xs)

-- `opt_write_n` appends the code, the length and the value.
pub opt_write_n-Writes :
    (c : Cursor) (cmd : ℕ) (value : List ℕ)
    → cmd < 256
    → length value < 256
    → Writes c (cmd ∷ length value ∷ value) (opt_write_n c cmd (length value) value)
unfolding opt_write_n
opt_write_n-Writes c cmd value small short =
    Writes-append (cmd ∷ length value ∷ []) value
      (Writes-append (cmd ∷ []) (length value ∷ []) (put-Writes c cmd small)
        (put-Writes (put c cmd) (length value) short))
      (record { mem = ap (blit _ _) (take-length value); opt = refl })

pub opt_write_u8-Writes :
    (c : Cursor) (cmd val : ℕ)
    → cmd < 256
    → val < 256
    → Writes c (cmd ∷ 1 ∷ val ∷ []) (opt_write_u8 c cmd val)
unfolding opt_write_u8
opt_write_u8-Writes c cmd val small fits =
    Writes-append (cmd ∷ 1 ∷ []) (val ∷ [])
      (Writes-append (cmd ∷ []) (1 ∷ []) (put-Writes c cmd small)
        (put-Writes (put c cmd) 1 (omega arith)))
      (put-Writes (put (put c cmd) 1) val fits)

cast-Writes : (c : Cursor) (v : ℕ) → Writes c (u8 v ∷ []) (put c v)
cast-Writes c v = record { mem = set-eq-blit c.mem c.opt (u8 v); opt = refl }

-- The four bytes of a `uint32_t`, the highest first.
abbrev pub be32 : ℕ → List ℕ
be32 val = u8 (val >>> 24) ∷ u8 (val >>> 16) ∷ u8 (val >>> 8) ∷ u8 val ∷ []

pub opt_write_u32-Writes :
    (c : Cursor) (cmd val : ℕ) → cmd < 256 → Writes c (cmd ∷ 4 ∷ be32 val) (opt_write_u32 c cmd val)
unfolding opt_write_u32
opt_write_u32-Writes c cmd val small =
    let a = put (put c cmd) 4 in
    let b = put (put a (val >>> 24)) (val >>> 16) in
    Writes-append (cmd ∷ 4 ∷ []) (be32 val)
      (Writes-append (cmd ∷ []) (4 ∷ []) (put-Writes c cmd small)
        (put-Writes (put c cmd) 4 (omega arith)))
      (Writes-append (u8 (val >>> 24) ∷ u8 (val >>> 16) ∷ []) (u8 (val >>> 8) ∷ u8 val ∷ [])
        (Writes-append (u8 (val >>> 24) ∷ []) (u8 (val >>> 16) ∷ []) (cast-Writes a _)
          (cast-Writes (put a (val >>> 24)) _))
        (Writes-append (u8 (val >>> 8) ∷ []) (u8 val ∷ []) (cast-Writes b _)
          (cast-Writes (put b (val >>> 8)) _)))
