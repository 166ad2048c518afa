-- ===== src/Dhcp/Options.antt =====
-- src/ipstack/dhcpserver.c: `opt_find` and the three `opt_write` functions. A pointer into the message
-- is an index of its bytes.
pub mod Encoding
pub mod Bounds
pub mod Writing
use pico_drone.Common.{
  ℕ, zero, suc, ◌+◌, Option, none, some, true, false, List, [], ◌∷◌, ltb, ◌==◌, u8, ◌>>>◌,
  get_elem?, set, take, blit,
}

abbrev pub opt_end : ℕ
opt_end = 255

-- The loop looks at `opt[0]` to `opt[307]`: what lies behind the magic cookie.
abbrev pub opt_limit : ℕ
opt_limit = 308

-- How `opt_find` ends: `&opt[i]`, NULL, or a read behind the message. `stuck` is the loop cut short.
pub data Search : Type 0 where
  found : ℕ → Search
  null overrun stuck : Search

-- The loop at `i`. Each round goes on by 2 at least, so `opt_rounds` rounds are enough.
unfoldable pub opt_find_from : ℕ → List ℕ → ℕ → ℕ → ℕ → Search
opt_find_from zero msg opt cmd i = stuck
opt_find_from (suc rounds) msg opt cmd i = elim (ltb i opt_limit) [
  | false ↦ null
  | true ↦ elim (get_elem? msg (opt + i)) [
    | none ↦ overrun
    | some code ↦ elim (code == opt_end) [
      | true ↦ null
      | false ↦ elim (code == cmd) [
        | true ↦ found i
        | false ↦ elim (get_elem? msg (opt + i + 1)) [
          | none ↦ overrun
          | some len ↦ opt_find_from rounds msg opt cmd (i + 2 + len)
        ]
      ]
    ]
  ]
]

abbrev pub opt_rounds : ℕ
opt_rounds = 155

unfoldable pub opt_find : List ℕ → ℕ → ℕ → Search
opt_find msg opt cmd = opt_find_from opt_rounds msg opt cmd 0

-- The message and the write position, which the functions advance through `uint8_t **opt`.
pub record Cursor : Type 0 where
  pub mem : List ℕ
  pub opt : ℕ

-- `*o++ = v`
abbrev pub put : Cursor → ℕ → Cursor
put c v = record { mem = set c.mem c.opt (u8 v); opt = c.opt + 1 }

unfoldable pub opt_write_n : Cursor → ℕ → ℕ → List ℕ → Cursor
opt_write_n c cmd n bytes =
    let o = put (put c cmd) n in record { mem = blit o.mem o.opt (take n bytes); opt = o.opt + n }

unfoldable pub opt_write_u8 : Cursor → ℕ → ℕ → Cursor
opt_write_u8 c cmd val = put (put (put c cmd) 1) val

unfoldable pub opt_write_u32 : Cursor → ℕ → ℕ → Cursor
opt_write_u32 c cmd val =
    put (put (put (put (put (put c cmd) 4) (val >>> 24)) (val >>> 16)) (val >>> 8)) val
