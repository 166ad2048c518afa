-- ===== src/Dhcp/Leases/Choice.antt =====
-- Which slot the DHCPDISCOVER loop chooses, and what it does to the table.
use mathlib.Core.Path.{subst₂}
use pico_drone.Common.{
  ℕ, zero, suc, ◌+◌, ◌≤◌, ◌<◌, ◌≡◌, ◌≢◌, ◌⊎◌, inl, inr, refl, sym, ap, ◌∙◌, Option, none, some,
  true, false, ◌||◌, List, [], ◌∷◌, arith, ◌==◌, if◌then◌else◌, Bool-cases, Option-cases, length,
  get_elem?,
}
use pico_drone.Dhcp.Leases.{Lease, max_ip, no_mac, bytes_eq, is_expired, probe, scan}

-- The first slot, counted from `i`, that is the client's.
abbrev pub known : List ℕ → ℕ → List Lease → Option ℕ
known mac i [] = none
known mac i (l ∷ ls) = if bytes_eq l.mac mac then some i else known mac (suc i) ls

-- The first slot that is free, or whose lease is over when the loop looks at it.
abbrev pub vacant : (ℕ → ℕ) → ℕ → List Lease → ℕ
vacant clock i [] = max_ip
vacant clock i (l ∷ ls) =
    if bytes_eq l.mac no_mac || is_expired (clock i) l then i else vacant clock (suc i) ls

abbrev pub or_else : Option ℕ → ℕ → ℕ
or_else none k = k
or_else (some i) k = i

or_else_ne : (o : Option ℕ) (d k : ℕ) → d ≢ k → or_else o d ≡ k → o ≡ some k
or_else_ne none d k ne e = absurd (ne e)
or_else_ne (some i) d k ne e = ap some e

-- A lease that the loop leaves alone, or one that is over and that it takes from its client.
abbrev pub Swept : List ℕ → ℕ → Lease → Option Lease → Type 0
Swept mac now l after =
    (after ≡ some l)
    ⊎ ((is_expired now l ≡ true)
        × (bytes_eq l.mac mac ≡ false)
        × (after ≡ some (record l { mac = no_mac })))

-- A slot of the client's, or a free one.
abbrev pub Open : List ℕ → Option Lease → Type 0
Open mac none = ⊥
Open mac (some l) = (bytes_eq l.mac mac ≡ true) ⊎ (bytes_eq l.mac no_mac ≡ true)

module _ (clock : ℕ → ℕ) (mac : List ℕ) where
  -- Once a slot is chosen, the loop only looks for one of the client's.
  scan_chosen :
      (i yi : ℕ) (ls : List Lease)
      → yi ≢ max_ip
      → scan clock mac i yi ls ≡ (or_else (known mac i ls) yi, ls)
  unfolding scan
  scan_chosen i yi [] ne = refl
  scan_chosen i yi (l ∷ ls) ne = ground (arith, scan_chosen (suc i) yi ls ne)

  -- The loop of DHCPDISCOVER over at most `DHCPS_MAX_IP` slots chooses the first slot that is the
  -- client's, or else the first one that is free or expired, or else `DHCPS_MAX_IP`.
  pub scan_choice :
      (i : ℕ) (ls : List Lease)
      → i + length ls ≤ max_ip
      → (scan clock mac i max_ip ls).0 ≡ or_else (known mac i ls) (vacant clock i ls)
  unfolding scan probe
  scan_choice i [] fits = refl
  scan_choice i (l ∷ ls) fits = ground (arith, scan_choice (suc i) ls, scan_chosen (suc i) i ls)

  -- One round, for a lease of the client and for another.
  scan_own :
      (i yi : ℕ) (l : Lease) (ls : List Lease)
      → bytes_eq l.mac mac ≡ true
      → scan clock mac i yi (l ∷ ls) ≡ (i, l ∷ ls)
  unfolding scan
  scan_own i yi l ls own = rw (own, scan)

  abbrev round : ℕ → ℕ → Lease → ℕ × Lease
  round i yi l = if yi == max_ip then probe (clock i) i l else (yi, l)

  scan_other :
      (i yi : ℕ) (l : Lease) (ls : List Lease)
      → bytes_eq l.mac mac ≡ false
      → scan clock mac i yi (l ∷ ls) ≡ (
        (scan clock mac (suc i) (round i yi l).0 ls).0,
        (round i yi l).1 ∷ (scan clock mac (suc i) (round i yi l).0 ls).1,
      )
  unfolding scan
  scan_other i yi l ls other = rw (other, scan)

  round-Swept :
      (i yi : ℕ) (l : Lease)
      → bytes_eq l.mac mac ≡ false
      → Swept mac (clock i) l (some (round i yi l).1)
  unfolding probe
  round-Swept i yi l other = ground arith

  -- The loop changes no lease but one that is over: of that it clears the MAC address.
  pub scan-Swept :
      (i yi k : ℕ) (ls : List Lease) (l : Lease) (j : ℕ)
      → k ≡ i + j
      → get_elem? ls j ≡ some l
      → Swept mac (clock k) l (get_elem? (scan clock mac i yi ls).1 j)
  scan-Swept i yi k [] l j e at_j = cc
  scan-Swept i yi k (x ∷ ls) l zero e at_j = elim (Bool-cases (bytes_eq x.mac mac)) [
    | inl own ↦ rw (scan_own i yi x ls own) (inl at_j)
    | inr other ↦ rw (scan_other i yi x ls other) (
        let same : x ≡ l = ground arith in
        subst₂ (λ m x'. Swept mac (clock m) x' (some (round i yi x).1)) {x = i} {y = k}
          (omega arith) same (round-Swept i yi x other))
  ]
  scan-Swept i yi k (x ∷ ls) l (suc j) e at_j = elim (Bool-cases (bytes_eq x.mac mac)) [
    | inl own ↦ rw (scan_own i yi x ls own) (inl at_j)
    | inr other ↦
        rw (scan_other i yi x ls other)
          (scan-Swept (suc i) (round i yi x).0 k ls l j (omega arith) at_j)
  ]

  known_lower : (i k : ℕ) (ls : List Lease) → known mac i ls ≡ some k → i ≤ k
  known_lower i k [] e = cc
  known_lower i k (l ∷ ls) e = ground (arith, known_lower (suc i) k ls)

  vacant_lower : (i : ℕ) (ls : List Lease) → i + length ls ≤ max_ip → i ≤ vacant clock i ls
  vacant_lower i [] h = omega arith
  vacant_lower i (l ∷ ls) h = ground (arith, vacant_lower (suc i) ls)

  known-Open :
      (i j k : ℕ) (ls : List Lease)
      → k ≡ i + j
      → known mac i ls ≡ some k
      → Open mac (get_elem? ls j)
  known-Open i j k [] e h = cc
  known-Open i zero k (l ∷ ls) e h = ground (arith, known_lower (suc i) k ls)
  known-Open i (suc j) k (l ∷ ls) e h = elim (Bool-cases (bytes_eq l.mac mac)) [
    | inl own ↦ absurd (ground arith)
    | inr other ↦ known-Open (suc i) j k ls (omega arith) (rw other at h)
  ]

  scan_lower :
      (i : ℕ) (ls : List Lease) → i + length ls ≤ max_ip → i ≤ (scan clock mac i max_ip ls).0
  scan_lower i ls h = elim (Option-cases (known mac i ls)) [
    | inl none_known ↦ ground (arith, scan_choice i ls h, vacant_lower i ls h)
    | inr (k, e) ↦ ground (arith, scan_choice i ls h, known_lower i k ls e)
  ]

  scan_nil : (i : ℕ) → scan clock mac i max_ip [] ≡ (max_ip, [])
  unfolding scan
  scan_nil i = refl

  round_cases :
      (i : ℕ) (l : Lease)
      → ((round i max_ip l).0 ≡ max_ip)
        ⊎ (((round i max_ip l).0 ≡ i) × (bytes_eq (round i max_ip l).1.mac no_mac ≡ true))
  unfolding probe
  round_cases i l = ground arith

  -- A slot that the loop chooses is one of the client's, or is free afterwards.
  pub scan-Open :
      (i j k : ℕ) (ls : List Lease)
      → i + length ls ≤ max_ip
      → k ≡ i + j
      → k < max_ip
      → (scan clock mac i max_ip ls).0 ≡ k
      → Open mac (get_elem? (scan clock mac i max_ip ls).1 j)
  scan-Open i j k [] fits e lt h = absurd (omega (arith, h, ap (λ p. p.0) (scan_nil i)))
  scan-Open i zero k (l ∷ ls) fits e lt h = elim (Bool-cases (bytes_eq l.mac mac)) [
    | inl own ↦ rw (scan_own i max_ip l ls own) (inl own)
    | inr other ↦ rw (scan_other i max_ip l ls other) (elim (round_cases i l) [
      | inl still ↦ absurd (ground (arith, scan_other i max_ip l ls other, scan_lower (suc i) ls))
      | inr (chosen, free) ↦ inr free
    ])
  ]
  scan-Open i (suc j) k (l ∷ ls) fits e lt h = elim (Bool-cases (bytes_eq l.mac mac)) [
    | inl own ↦ absurd (ground (arith, scan_own i max_ip l ls own))
    | inr other ↦
        let later : (scan clock mac (suc i) (round i max_ip l).0 ls).0 ≡ k =
          ap (λ p. p.0) (sym (scan_other i max_ip l ls other)) ∙ h in
        rw (scan_other i max_ip l ls other) (elim (round_cases i l) [
          | inl still ↦
              rw still (scan-Open (suc i) j k ls (omega arith) (omega arith) lt (rw still at later))
          | inr (chosen, free) ↦
              let ne : (round i max_ip l).0 ≢ max_ip = omega arith in
              rw (scan_chosen (suc i) (round i max_ip l).0 ls ne) (
                known-Open (suc i) j k ls (omega arith) (
                  or_else_ne (known mac (suc i) ls) (round i max_ip l).0 k (omega arith)
                    (ap (λ p. p.0) (sym (scan_chosen (suc i) (round i max_ip l).0 ls ne)) ∙ later)))
        ])
  ]

  known_upper : (i k : ℕ) (ls : List Lease) → known mac i ls ≡ some k → k < i + length ls
  known_upper i k [] e = cc
  known_upper i k (l ∷ ls) e = ground (arith, known_upper (suc i) k ls)

  vacant_upper : (i : ℕ) (ls : List Lease) → i + length ls ≤ max_ip → vacant clock i ls ≤ max_ip
  vacant_upper i [] h = omega arith
  vacant_upper i (l ∷ ls) h = ground (arith, vacant_upper (suc i) ls)

  pub scan_upper :
      (i : ℕ) (ls : List Lease) → i + length ls ≤ max_ip → (scan clock mac i max_ip ls).0 ≤ max_ip
  scan_upper i ls h = elim (Option-cases (known mac i ls)) [
    | inl none_known ↦ ground (arith, scan_choice i ls h, vacant_upper i ls h)
    | inr (k, e) ↦ ground (arith, scan_choice i ls h, known_upper i k ls e)
  ]
