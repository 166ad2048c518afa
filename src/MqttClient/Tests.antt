-- ===== src/MqttClient/Tests.antt =====
-- A run of the task of src/main.cpp, and the theorem at it.
use pico_drone.Common.{◌≡◌, refl, none, some, true, false, [], ◌∷◌, ◌++◌, arith}
use pico_drone.Common.Text.{codes, strcmp}
use pico_drone.Network as Network
use pico_drone.MqttClient.{
  Client, mqtt_subscribe, disconnect, mqtt_disconnect, mqtt_client_free, altcp_tls_free_config,
  task_delay, networks, mqtts, Form, World, internet_task, at_form, publishing,
}
use pico_drone.MqttClient.Internet.{broker_calls, published, internet_task-order}

abbrev fresh : Client
fresh = record { client = none; tls_config = none; resolved_addr = [] }

abbrev no_password : Form
no_password = (codes "ssid", codes "a") ∷ []

abbrev form : Form
form = (codes "ssid", codes "a") ∷ (codes "password", codes "b") ∷ []

abbrev other_form : Form
other_form = (codes "password", codes "d") ∷ (codes "ssid", codes "c") ∷ []

-- A form without a password, a delay with two complete forms, and an empty one before the join.
abbrev world : World
world = record {
  udp_new = some 1;
  early = [];
  forms = (no_password ∷ []) ∷ (form ∷ other_form ∷ []) ∷ [];
  late = no_password ∷ [];
  join_fails = false;
  env = record {
    clients = none ∷ some 7 ∷ [];
    lookups = some (10 ∷ 0 ∷ 0 ∷ 1 ∷ []) ∷ [];
    tls = some 9;
  };
  rounds = false ∷ true ∷ [];
}

disconnect-frees :
    disconnect (record { client = some 7; tls_config = some 9; resolved_addr = [] })
    ≡ mqtt_disconnect 7 ∷ mqtt_client_free 7 ∷ altcp_tls_free_config 9 ∷ []
unfolding disconnect
disconnect-frees = refl

internet_task-order_example :
    let (dhcp, up) = Network.ap_init (some 1) in
    (internet_task (record world { forms = (no_password ∷ []) ∷ [] }) Network.fresh fresh ≡ at_form)
    × (internet_task world Network.fresh fresh
        ≡ publishing (
            networks up
            ++ ((task_delay 1000 ∷ task_delay 1000 ∷ [])
                ++ (networks (
                      Network.disable_ap_mode
                      ∷ Network.enable_sta_mode
                      ∷ Network.connect_timeout_ms (codes "c") (codes "d") 30000
                      ∷ [])
                    ++ (mqtts (
                          broker_calls 1 0 7 9 (10 ∷ 0 ∷ 0 ∷ 1 ∷ [])
                          ++ mqtt_subscribe 7 (codes "me") ∷ [])
                        ++ published 7 (false ∷ true ∷ []))))))
unfolding strcmp Network.are_credentials_set
internet_task-order_example =
    internet_task-order Network.fresh fresh (some 1) [] (form ∷ other_form ∷ []) (no_password ∷ [])
      ((no_password ∷ []) ∷ []) [] (codes "c") (codes "d") (codes "c") (codes "d") false 1 0 7 9
      (10 ∷ 0 ∷ 0 ∷ 1 ∷ []) [] [] (false ∷ true ∷ []) (refl, refl, refl) tt refl
      ((omega arith, refl, tt)) (omega arith) refl (omega arith) refl
