-- ===== src/Mqtt/Message.antt =====
-- src/src/MqttWifiManager.cpp: what a message leaves, by the number and the words in it.
use pico_drone.Common.Ints.{ℤ, pos, negsuc, neg, print_int, IsInt}
use pico_drone.Common.{
  ℕ, ◌<◌, ◌≡◌, refl, ap, ◌∙◌, ◌⊎◌, inl, inr, none, some, Bool, true, false, ◌&&◌, List, [], ◌∷◌,
  ◌++◌, leb, length, arith, Option-cases, suc,
}
use pico_drone.Common.Append.{drop-append}
use pico_drone.Common.Text.{
  strncmp, strstr, scan_digits, digits, print_d, HasNoNul, codes, skip_space, skip_sign, isspace,
}
use pico_drone.Common.Scan.{
  AreDigits, digits-AreDigits, scan_digits-append, scan_digits-digits, NotIn, strstr-append,
  c_string-all, digits_cons, head_lem,
}
use pico_drone.Common.Find.{Contains, strstr-some, strstr-none, strstr_absent}
use pico_drone.Mqtt.{
  Manager, sscanf_d, pressure_key, speed_key, automatic_of, read_value, value_of, message_arrived,
}

-- A byte that is no digit.
abbrev pub NoDigit : ℕ → Type 0
NoDigit c = (c < 48) ⊎ (57 < c)

scan_stop : (a c : ℕ) (rest : List ℕ) → NoDigit c → scan_digits a (c ∷ rest) ≡ a
unfolding scan_digits
scan_stop a c rest (inl low) = ground arith
scan_stop a c rest (inr high) = ground arith

sscanf_d-AreDigits :
    (t : List ℕ) (c : ℕ) (rest : List ℕ)
    → AreDigits t
    → 0 < length t
    → NoDigit c
    → sscanf_d (t ++ c ∷ rest) ≡ some (pos (scan_digits 0 t))
unfolding sscanf_d
sscanf_d-AreDigits [] c rest h some_ stop = absurd (omega arith)
sscanf_d-AreDigits (d ∷ ds) c rest h some_ stop =
    let (space, sign, minus) = head_lem (d ∷ ds) (c ∷ rest) h some_ in
    let first : (leb b'0' d && leb d b'9') ≡ true = ground (arith, h.0, h.1) in
    let value =
      scan_digits-append 0 (d ∷ ds) (c ∷ rest) h ∙ scan_stop (scan_digits 0 (d ∷ ds)) c rest stop in
    rw (space, sign, first, sscanf_d) (rw (space, minus) (ap (λ n. some (pos n)) value))

sscanf_d-minus :
    (t : List ℕ) (c : ℕ) (rest : List ℕ)
    → AreDigits t
    → 0 < length t
    → NoDigit c
    → sscanf_d (b'-' ∷ (t ++ c ∷ rest)) ≡ some (neg (scan_digits 0 t))
unfolding sscanf_d skip_space isspace skip_sign
sscanf_d-minus [] c rest h some_ stop = absurd (omega arith)
sscanf_d-minus (d ∷ ds) c rest h some_ stop =
    let first : (leb b'0' d && leb d b'9') ≡ true = ground (arith, h.0, h.1) in
    let value =
      scan_digits-append 0 (d ∷ ds) (c ∷ rest) h ∙ scan_stop (scan_digits 0 (d ∷ ds)) c rest stop in
    rw (first, sscanf_d) (ap (λ n. some (neg n)) value)

sscanf_d-print_int :
    (v : ℤ) (c : ℕ) (rest : List ℕ)
    → IsInt v
    → NoDigit c
    → sscanf_d (print_int v ++ c ∷ rest) ≡ some v
unfolding print_d
sscanf_d-print_int (pos n) c rest small stop =
    let (d, ds, e) = digits_cons 9 n in
    sscanf_d-AreDigits (digits 10 n) c rest (digits-AreDigits 10 n) (omega (arith, ap length e))
      stop
    ∙ ap (λ v. some (pos v)) (scan_digits-digits 10 n (omega arith))
sscanf_d-print_int (negsuc n) c rest small stop =
    let (d, ds, e) = digits_cons 9 (suc n) in
    sscanf_d-minus (digits 10 (suc n)) c rest (digits-AreDigits 10 (suc n))
      (omega (arith, ap length e)) stop
    ∙ ap (λ v. some (neg v)) (scan_digits-digits 10 (suc n) (omega arith))

abbrev pub key_of : Bool → List ℕ
key_of true = pressure_key
key_of false = speed_key

-- A key, a printed number and what follows it.
abbrev pub field : Bool → ℤ → ℕ → List ℕ → List ℕ
field is_pressure v c after = key_of is_pressure ++ (print_int v ++ c ∷ after)

strstr-field :
    (is_pressure : Bool) (v : ℤ) (c : ℕ) (after : List ℕ)
    → strstr (field is_pressure v c after) (key_of is_pressure) ≡ some (field is_pressure v c after)
unfolding strstr strncmp
strstr-field true v c after = refl
strstr-field false v c after = refl

read_value-field :
    (is_pressure : Bool) (v : ℤ) (c : ℕ) (after : List ℕ)
    → IsInt v
    → NoDigit c
    → read_value (key_of is_pressure) (field is_pressure v c after) ≡ some v
unfolding read_value
read_value-field is_pressure v c after small stop =
    ap sscanf_d (
      drop-append (length (key_of is_pressure)) (key_of is_pressure) (print_int v ++ c ∷ after)
        refl)
    ∙ sscanf_d-print_int v c after small stop

value_of-pressure :
    (text found : List ℕ) (before : ℤ)
    → strstr text pressure_key ≡ some found
    → value_of text before ≡ read_value pressure_key found
unfolding value_of
value_of-pressure text found before e = rw (e, value_of) refl

value_of-speed :
    (text found : List ℕ) (before : ℤ)
    → strstr text pressure_key ≡ none
    → strstr text speed_key ≡ some found
    → value_of text before ≡ read_value speed_key found
unfolding value_of
value_of-speed text found before e e' = rw (e, e', value_of) refl

arrived-value :
    (m : Manager) (payload : List ℕ) (v : ℤ)
    → HasNoNul payload
    → value_of payload m.mqtt_value ≡ some v
    → message_arrived m payload
      ≡ some (record {
        automatic = automatic_of payload m.automatic;
        notification = true;
        mqtt_value = v;
      })
unfolding message_arrived
arrived-value m payload v nuls e =
    let text = c_string-all payload nuls in rw (text, e, message_arrived) (rw text refl)

value_lem :
    (m : Manager) (is_pressure : Bool) (v : ℤ) (c : ℕ) (before after : List ℕ)
    → IsInt v
    → NoDigit c
    → NotIn (key_of is_pressure) before (field is_pressure v c after)
    → (is_pressure ≡ true) ⊎ (¬ Contains pressure_key (before ++ field is_pressure v c after))
    → value_of (before ++ field is_pressure v c after) m.mqtt_value ≡ some v
value_lem m true v c before after small stop first only =
    let found =
      strstr-append pressure_key before (field true v c after) first
      ∙ strstr-field true v c after in
    value_of-pressure (before ++ field true v c after) (field true v c after) m.mqtt_value found
    ∙ read_value-field true v c after small stop
value_lem m false v c before after small stop first (inl wrong) = absurd (cc wrong)
value_lem m false v c before after small stop first (inr absent) =
    let found =
      strstr-append speed_key before (field false v c after) first ∙ strstr-field false v c after in
    value_of-speed (before ++ field false v c after) (field false v c after) m.mqtt_value
      (strstr_absent (before ++ field false v c after) pressure_key absent) found
    ∙ read_value-field false v c after small stop

-- The automatic mode behind a text, by whether it holds `true` and `false`, and by the mode before.
abbrev pub IsMode : List ℕ → Bool → Bool → Type 0
IsMode t before after =
    (Contains (codes "true") t × (after ≡ true))
    ⊎ (((¬ Contains (codes "true") t) × Contains (codes "false") t × (after ≡ false))
        ⊎ ((¬ Contains (codes "true") t) × (¬ Contains (codes "false") t) × (after ≡ before)))

automatic_of-IsMode : (t : List ℕ) (before : Bool) → IsMode t before (automatic_of t before)
unfolding automatic_of
automatic_of-IsMode t before = elim (Option-cases (strstr t (codes "true"))) [
  | inr (r, e) ↦ inl (strstr-some t (codes "true") r e, rw (e, automatic_of) refl)
  | inl absent ↦ elim (Option-cases (strstr t (codes "false"))) [
    | inr (r, e) ↦ inr (
        inl (
          strstr-none t (codes "true") absent,
          strstr-some t (codes "false") r e,
          rw (absent, e, automatic_of) refl,
        ))
    | inl absent' ↦ inr (
        inr (
          strstr-none t (codes "true") absent,
          strstr-none t (codes "false") absent',
          rw (absent, absent', automatic_of) refl,
        ))
  ]
]

-- What a message leaves: the given value, the mode of its text, and a notification.
abbrev pub Leaves : Manager → List ℕ → ℤ → Type 0
Leaves m payload v =
    (m' : Manager) × (message_arrived m payload ≡ some m')
    × (m'.mqtt_value ≡ v)
    × (m'.notification ≡ true)
    × IsMode payload m.automatic m'.automatic

arrived-Leaves :
    (m : Manager) (payload : List ℕ) (v : ℤ)
    → HasNoNul payload
    → value_of payload m.mqtt_value ≡ some v
    → Leaves m payload v
arrived-Leaves m payload v nuls e = (
  record { automatic = automatic_of payload m.automatic; notification = true; mqtt_value = v },
  arrived-value m payload v nuls e,
  refl,
  refl,
  automatic_of-IsMode payload m.automatic,
)

-- A message whose text holds `"pressure":`, at the first place of the key with the decimal text of
-- an `int` behind it (a minus sign if it is below 0) and then no digit, or `"speed":` so and no
-- pressure, sets the value to this `int`; one whose text holds neither key leaves the value. Both
-- turn the automatic mode on if the text holds `true`, off if it holds `false` and not `true`, leave
-- it if it holds none of them, and leave a notification.
pub message_arrived-value :
    (m : Manager) (is_pressure : Bool) (v : ℤ) (c : ℕ) (before after other : List ℕ)
    → IsInt v
    → NoDigit c
    → HasNoNul (before ++ field is_pressure v c after)
    → NotIn (key_of is_pressure) before (field is_pressure v c after)
    → (is_pressure ≡ true) ⊎ (¬ Contains pressure_key (before ++ field is_pressure v c after))
    → HasNoNul other
    → ¬ Contains pressure_key other
    → ¬ Contains speed_key other
    → Leaves m (before ++ field is_pressure v c after) v × Leaves m other m.mqtt_value
unfolding value_of
message_arrived-value m is_pressure v c before after other small stop nuls first only nuls' absent
      absent' =
    (
      arrived-Leaves m (before ++ field is_pressure v c after) v nuls
          (value_lem m is_pressure v c before after small stop first only),
      arrived-Leaves m other m.mqtt_value nuls' (
          rw
            (
              strstr_absent other pressure_key absent,
              strstr_absent other speed_key absent',
              value_of,
            )
            refl),
    )
