-- ===== src/Dhcp/Options/Bounds.antt =====
-- `opt_find` ends, and which reads it makes, whatever the message holds.
use pico_drone.Common.{
  ℕ, zero, suc, ◌+◌, ◌-◌, ◌*◌, ◌≤◌, ◌<◌, ◌≡◌, some, inl, inr, List, arith, Option-cases, length,
  get_elem?, get_elem?-some,
}
use pico_drone.Dhcp.Options.{
  Search, found, null, overrun, stuck, opt_limit, opt_find_from, opt_rounds, opt_find,
}

-- What each way out of the loop tells.
abbrev pub Explains : List ℕ → ℕ → ℕ → Search → Type 0
Explains msg opt cmd (found i) = (i < opt_limit) × (get_elem? msg (opt + i) ≡ some cmd)
Explains msg opt cmd null = Unit
Explains msg opt cmd overrun = length msg ≤ opt + opt_limit
Explains msg opt cmd stuck = ⊥

opt_find_from-Explains :
    (rounds : ℕ) (msg : List ℕ) (opt cmd i : ℕ)
    → (opt_limit - i) + 2 ≤ 2 * rounds
    → Explains msg opt cmd (opt_find_from rounds msg opt cmd i)
unfolding opt_find_from
opt_find_from-Explains zero msg opt cmd i r = absurd (omega arith)
opt_find_from-Explains (suc rounds) msg opt cmd i r =
    elim (Option-cases (get_elem? msg (opt + i + 1))) [
      | inl at_end ↦ ground (arith, get_elem?-some msg (opt + i + 1) 0)
      | inr (len, at_len) ↦ ground (
        arith,
        get_elem?-some msg (opt + i) 0,
        opt_find_from-Explains rounds msg opt cmd (i + 2 + len),
      )
    ]

-- `opt_find` ends within its 155 rounds; an offset that it returns is below 308 and holds the code
-- asked for; and it reads behind the message only if that ends within the byte behind the 308.
pub opt_find-Explains : (msg : List ℕ) (opt cmd : ℕ) → Explains msg opt cmd (opt_find msg opt cmd)
unfolding opt_find
opt_find-Explains msg opt cmd = opt_find_from-Explains opt_rounds msg opt cmd 0 (omega arith)
