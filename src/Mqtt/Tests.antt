-- ===== src/Mqtt/Tests.antt =====
-- Messages of the broker, and the theorem at them.
use pico_drone.Common.Ints.{pos, negsuc, neg}
use pico_drone.Common.{◌≡◌, refl, inl, inr, some, none, true, [], arith}
use pico_drone.Common.Text.{
  codes, c_string, strstr, strncmp, skip_space, skip_sign, scan_digits, isspace, digits, print_d,
}
use pico_drone.Mqtt.{
  fresh, automatic_of, value_of, read_value, sscanf_d, message_arrived, pressure_key, speed_key,
}
use pico_drone.Common.Find.{Contains, strstr-none}
use pico_drone.Mqtt.Message.{Leaves, message_arrived-value}

-- A number below 0, and a field without a number, which leaves an `int` uninitialised.
message_arrived-runs :
    message_arrived fresh (codes "{\"auto\":true,\"speed\": -5}")
    ≡ some (record { automatic = true; notification = true; mqtt_value = neg 5 })
unfolding message_arrived value_of read_value sscanf_d automatic_of c_string strstr strncmp
    skip_space skip_sign scan_digits isspace
message_arrived-runs = refl

message_arrived-none : message_arrived fresh (codes "{\"speed\":null}") ≡ none
unfolding message_arrived value_of read_value sscanf_d c_string strstr strncmp skip_space skip_sign
    isspace
message_arrived-none = refl

no_pressure : ¬ Contains pressure_key (codes "on")
unfolding strstr strncmp
no_pressure = strstr-none (codes "on") pressure_key refl

no_speed : ¬ Contains speed_key (codes "on")
unfolding strstr strncmp
no_speed = strstr-none (codes "on") speed_key refl

message_arrived-value_example :
    Leaves fresh (codes "{\"pressure\":-42}") (negsuc 41) × Leaves fresh (codes "on") (pos 0)
unfolding strncmp digits print_d
message_arrived-value_example =
    message_arrived-value fresh true (negsuc 41) b'}' (codes "{") [] (codes "on") (omega arith)
      (inr (omega arith)) (omega arith) (refl, tt) (inl refl) (omega arith) no_pressure no_speed
