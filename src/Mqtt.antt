-- ===== src/Mqtt.antt =====
-- src/src/MqttWifiManager.cpp and .h: what a message of the broker does to the shared settings.
pub mod Message
mod Tests
use pico_drone.Common.{
  ℕ, zero, suc, ◌+◌, Option, none, some, Bool, true, false, not, ◌&&◌, List, [], ◌∷◌, ◌++◌, ◌==◌,
  leb, if◌then◌else◌, drop, length,
}
use pico_drone.Common.Ints.{ℤ, pos, neg}
use pico_drone.Common.Text.{codes, c_string, strstr, skip_space, skip_sign, is_minus, scan_digits}

-- The static members that a message changes.
pub record Manager : Type 0 where
  pub automatic : Bool
  pub notification : Bool
  pub mqtt_value : ℤ

abbrev pub fresh : Manager
fresh = record { automatic = false; notification = false; mqtt_value = pos 0 }

-- `sscanf (t, "%d", …)`: the number that it stores, if it stores one. A number beyond `int` is
-- undefined in C.
unfoldable pub sscanf_d : List ℕ → Option ℤ
sscanf_d t =
    let number = skip_space t in
    elim (skip_sign number) [
      | [] ↦ none
      | c ∷ cs ↦
          let value = scan_digits 0 (c ∷ cs) in
          if leb b'0' c && leb c b'9'
          then some (if is_minus number then neg value else pos value)
          else none
    ]

abbrev pub pressure_key : List ℕ
pressure_key = codes "\"pressure\":"

abbrev pub speed_key : List ℕ
speed_key = codes "\"speed\":"

abbrev pub is_some : Option (List ℕ) → Bool
is_some none = false
is_some (some x) = true

-- `automatic` behind a text.
unfoldable pub automatic_of : List ℕ → Bool → Bool
automatic_of text before =
    if is_some (strstr text (codes "true"))
    then true
    else if is_some (strstr text (codes "false"))
    then false
    else before

-- The number behind a key that is found; `none` is an `int` that `sscanf` leaves uninitialised.
unfoldable pub read_value : List ℕ → List ℕ → Option ℤ
read_value key found = sscanf_d (drop (length key) found)

-- `MqttValue` behind a text.
unfoldable pub value_of : List ℕ → ℤ → Option ℤ
value_of text before = elim (strstr text pressure_key) [
  | some found ↦ read_value pressure_key found
  | none ↦ elim (strstr text speed_key) [
    | some found ↦ read_value speed_key found
    | none ↦ some before
  ]
]

-- `messageArrivedCallback` with the bytes of the payload.
unfoldable pub message_arrived : Manager → List ℕ → Option Manager
message_arrived m payload =
    let text = c_string payload in
    elim (value_of text m.mqtt_value) [
      | none ↦ none
      | some value ↦ some (record {
        automatic = automatic_of text m.automatic;
        notification = true;
        mqtt_value = value;
      })
    ]

unfoldable pub set_notification : Manager → Bool → Manager
set_notification m value = record m { notification = value }
