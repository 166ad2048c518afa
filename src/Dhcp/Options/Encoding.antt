-- ===== src/Dhcp/Options/Encoding.antt =====
-- The options field as a list of tagged values, against `opt_find`.
use pico_drone.Common.{
  ℕ, zero, suc, ◌+◌, ◌*◌, ◌≤◌, ◌<◌, ◌≡◌, ◌≢◌, ap, ◌∙◌, some, List, [], ◌∷◌, ◌++◌, arith, ◌==◌,
  if◌then◌else◌, length, get_elem?, get_elem?-none, length-append,
}
use mathlib.Core.Path.{subst}
use mathlib.Core.List.{append_assoc}
use native.Mathlib.Nat.{add-zero}
use pico_drone.Common.Blit.{Holds, Holds-right}
use pico_drone.Dhcp.Options.{
  Search, found, null, overrun, opt_end, opt_limit, opt_find_from, opt_rounds, opt_find,
}

-- An option is its code and its value.
abbrev pub Opt : Type 0
Opt = ℕ × List ℕ

abbrev pub encode : List Opt → List ℕ
encode [] = []
encode ((code, value) ∷ os) = code ∷ length value ∷ value ++ encode os

-- Where the first option of a code stands, counted from `i`.
abbrev pub locate : ℕ → ℕ → List Opt → Search
locate cmd i [] = null
locate cmd i ((code, value) ∷ os) =
    if code == cmd then found i else locate cmd (i + 2 + length value) os

-- The bytes that the options take.
abbrev pub width : List Opt → ℕ
width [] = 0
width ((code, value) ∷ os) = 2 + length value + width os

length-encode-width : (os : List Opt) → length (encode os) ≡ width os
length-encode-width [] = omega arith
length-encode-width ((code, value) ∷ os) =
    omega (arith, length-encode-width os, length-append value (encode os))

pub length_field : (os : List Opt) (last : ℕ) → length (encode os ++ last ∷ []) ≡ width os + 1
length_field os last = omega (arith, length-encode-width os, length-append (encode os) (last ∷ []))

abbrev pub NoEnd : List Opt → Type 0
NoEnd [] = Unit
NoEnd ((code, value) ∷ os) = (code ≢ opt_end) × NoEnd os

opt_find_from_round :
    (rounds : ℕ) (msg : List ℕ) (opt cmd i code len : ℕ)
    → i < opt_limit
    → get_elem? msg (opt + i) ≡ some code
    → get_elem? msg (opt + i + 1) ≡ some len
    → code ≢ opt_end
    → opt_find_from (suc rounds) msg opt cmd i
      ≡ (if code == cmd then found i else opt_find_from rounds msg opt cmd (i + 2 + len))
unfolding opt_find_from
opt_find_from_round rounds msg opt cmd i code len lt at_code at_len ne = ground arith

opt_find_from_end :
    (rounds : ℕ) (msg : List ℕ) (opt cmd i : ℕ)
    → i < opt_limit
    → get_elem? msg (opt + i) ≡ some opt_end
    → opt_find_from (suc rounds) msg opt cmd i ≡ null
unfolding opt_find_from
opt_find_from_end rounds msg opt cmd i lt at_code = ground arith

-- What stands behind the first option.
Holds-tail :
    (msg : List ℕ) (k m code : ℕ) (value rest : List ℕ)
    → m ≡ k + 2 + length value
    → Holds msg k (code ∷ length value ∷ value ++ rest)
    → Holds msg m rest
Holds-tail msg k m code value rest e h =
    Holds-right msg k m (code ∷ length value ∷ value) rest (omega arith) h

opt_find_from-encode :
    (os : List Opt) (rounds : ℕ) (msg : List ℕ) (opt cmd i : ℕ)
    → length os < rounds
    → NoEnd os
    → i + length (encode os) < opt_limit
    → Holds msg (opt + i) (encode os ++ opt_end ∷ [])
    → opt_find_from rounds msg opt cmd i ≡ locate cmd i os
opt_find_from-encode os zero msg opt cmd i r ne fits h = elim r [ ]
opt_find_from-encode [] (suc rounds) msg opt cmd i r ne fits h =
    opt_find_from_end rounds msg opt cmd i (omega arith)
      (ap (get_elem? msg) (omega arith) ∙ h 0 (omega arith))
opt_find_from-encode ((code, value) ∷ os) (suc rounds) msg opt cmd i r ne fits h =
    opt_find_from_round rounds msg opt cmd i code (length value) (omega arith)
      (ap (get_elem? msg) (omega arith) ∙ h 0 (omega arith)) (h 1 (omega arith)) ne.0
    ∙ ap (λ s. if code == cmd then found i else s)
        (opt_find_from-encode os rounds msg opt cmd (i + 2 + length value) (omega arith) ne.1
          (omega (arith, length-append value (encode os)))
          (Holds-tail msg (opt + i) (opt + (i + 2 + length value)) code value
            (encode os ++ opt_end ∷ []) (omega arith)
            (subst (Holds msg (opt + i))
              (ap (λ l. code ∷ length value ∷ l) (append_assoc value (encode os) (opt_end ∷ [])))
              h)))

length-encode : (os : List Opt) → 2 * length os ≤ length (encode os)
length-encode [] = omega arith
length-encode ((code, value) ∷ os) =
    omega (arith, length-encode os, length-append value (encode os))

-- On a field that holds a list of options, none of them an end mark, and the end mark within the
-- 308 bytes that the loop looks at, `opt_find` returns the first option of the code, or NULL if
-- there is none.
pub opt_find-encode :
    (os : List Opt) (msg : List ℕ) (opt cmd : ℕ)
    → NoEnd os
    → length (encode os) < opt_limit
    → Holds msg opt (encode os ++ opt_end ∷ [])
    → opt_find msg opt cmd ≡ locate cmd 0 os
unfolding opt_find
opt_find-encode os msg opt cmd ne fits h =
    opt_find_from-encode os opt_rounds msg opt cmd 0 (omega (arith, length-encode os)) ne
      (omega arith) (rw add-zero h)

abbrev pub Lacks : ℕ → List Opt → Type 0
Lacks cmd [] = Unit
Lacks cmd ((code, value) ∷ os) = (code ≢ cmd) × Lacks cmd os

opt_find_from_last :
    (rounds : ℕ) (msg : List ℕ) (opt cmd i code : ℕ)
    → i < opt_limit
    → get_elem? msg (opt + i) ≡ some code
    → length msg ≤ opt + i + 1
    → code ≢ opt_end
    → code ≢ cmd
    → opt_find_from (suc rounds) msg opt cmd i ≡ overrun
unfolding opt_find_from
opt_find_from_last rounds msg opt cmd i code lt at_code short ne nc =
    ground (arith, get_elem?-none msg (opt + i + 1))

opt_find_from_overrun :
    (os : List Opt) (rounds : ℕ) (msg : List ℕ) (opt cmd i last : ℕ)
    → length os < rounds
    → NoEnd os
    → Lacks cmd os
    → last ≢ opt_end
    → last ≢ cmd
    → i + length (encode os) + 1 ≡ opt_limit
    → length msg ≡ opt + opt_limit
    → Holds msg (opt + i) (encode os ++ last ∷ [])
    → opt_find_from rounds msg opt cmd i ≡ overrun
opt_find_from_overrun os zero msg opt cmd i last r ne lacks e c fits len h = elim r [ ]
opt_find_from_overrun [] (suc rounds) msg opt cmd i last r ne lacks e c fits len h =
    opt_find_from_last rounds msg opt cmd i last (omega arith)
      (ap (get_elem? msg) (omega arith) ∙ h 0 (omega arith)) (omega arith) e c
opt_find_from_overrun ((code, value) ∷ os) (suc rounds) msg opt cmd i last r ne lacks e c fits len
      h =
    opt_find_from_round rounds msg opt cmd i code (length value)
      (omega (arith, length-append value (encode os)))
      (ap (get_elem? msg) (omega arith) ∙ h 0 (omega arith)) (h 1 (omega arith)) ne.0
    ∙ ground (
      arith,
      lacks.0,
      opt_find_from_overrun os rounds msg opt cmd (i + 2 + length value) last (omega arith) ne.1
          lacks.1 e c (omega (arith, length-append value (encode os))) len
          (Holds-tail msg (opt + i) (opt + (i + 2 + length value)) code value
            (encode os ++ last ∷ []) (omega arith)
            (subst (Holds msg (opt + i))
              (ap (λ l. code ∷ length value ∷ l) (append_assoc value (encode os) (last ∷ []))) h)),
    )

-- If options that are neither the code asked for nor an end mark fill the 308 bytes behind the
-- cookie but one, and the last byte is neither of the two, then `opt_find` reads the byte behind
-- the message.
pub opt_find_overrun :
    (os : List Opt) (msg : List ℕ) (opt cmd last : ℕ)
    → NoEnd os
    → Lacks cmd os
    → last ≢ opt_end
    → last ≢ cmd
    → length (encode os) + 1 ≡ opt_limit
    → length msg ≡ opt + opt_limit
    → Holds msg opt (encode os ++ last ∷ [])
    → opt_find msg opt cmd ≡ overrun
unfolding opt_find
opt_find_overrun os msg opt cmd last ne lacks e c fits len h =
    opt_find_from_overrun os opt_rounds msg opt cmd 0 last (omega (arith, length-encode os)) ne
      lacks e c (omega arith) len (rw add-zero h)
