-- ===== src/MqttClient.antt =====
-- src/src/MQTT/MQTTClient.cpp and .h, and the task of src/main.cpp that uses it with NetworkClass.
pub mod Waiting
pub mod Internet
mod Tests
use pico_drone.Common.{
  ℕ, zero, suc, Option, none, some, Bool, true, false, List, [], ◌∷◌, ◌++◌, if◌then◌else◌,
}
use pico_drone.Common.Text.{codes}
use pico_drone.Network as Network

-- The members of the class; `none` is a pointer that is NULL.
pub record Client : Type 0 where
  pub client : Option ℕ
  pub tls_config : Option ℕ
  pub resolved_addr : List ℕ

-- What the client asks of lwIP and of the RTOS, in its order.
pub data Call : Type 0 where
  mqtt_client_new altcp_tls_create_config_client : Call
  dns_gethostbyname : List ℕ → Call
  delay : ℕ → Call
  mbedtls_ssl_conf_authmode mqtt_set_inpub_callback mqtt_disconnect mqtt_client_free : ℕ → Call
  altcp_tls_free_config : ℕ → Call
  mqtt_client_connect : ℕ → List ℕ → ℕ → Call
  mqtt_subscribe : ℕ → List ℕ → Call
  mqtt_publish : ℕ → List ℕ → List ℕ → Call

-- What they answer: each new client, each lookup of the name (`none` is any error), the TLS
-- configuration.
pub record Env : Type 0 where
  pub clients : List (Option ℕ)
  pub lookups : List (Option (List ℕ))
  pub tls : Option ℕ

abbrev pub hostname : List ℕ
hostname = codes " ff561b0054334ef6b26016f2463e72e8.s1.eu.hivemq.cloud"

-- `init`, with what `mqtt_client_new` gives.
unfoldable pub init : Option ℕ → Client → ℕ × (Client × List Call)
init answer c =
    let c' = record c { client = answer } in
    elim answer [
      | none ↦ (0, (c', mqtt_client_new ∷ []))
      | some h ↦ (1, (c', mqtt_client_new ∷ []))
    ]

-- The loop of `connect` around `init`; `none` is a loop that goes on.
unfoldable pub init_loop : List (Option ℕ) → Client → Option (Client × List Call)
init_loop [] c = none
init_loop (answer ∷ answers) c =
    let (ret, (c', calls)) = init answer c in
    let rest = init_loop answers c' in
    elim ret [
      | zero ↦ elim rest [ none ↦ none | some (c'', more) ↦ some (c'', calls ++ more) ]
      | suc one ↦ some (c', calls)
    ]

-- `mqtt_dns_found`; `none` is a loop that goes on.
unfoldable pub mqtt_dns_found :
    List ℕ → List (Option (List ℕ)) → Client → Option (Client × List Call)
mqtt_dns_found name [] c = none
mqtt_dns_found name (answer ∷ answers) c =
    let calls = dns_gethostbyname name ∷ delay 2000 ∷ [] in
    let rest = mqtt_dns_found name answers c in
    elim answer [
      | none ↦ elim rest [ none ↦ none | some (c', more) ↦ some (c', calls ++ more) ]
      | some addr ↦ some (record c { resolved_addr = addr }, calls)
    ]

-- `connect` behind the lookup.
unfoldable pub connect_resolved : Option ℕ → Client → ℕ × (Client × List Call)
connect_resolved tls c =
    let c' = record c { tls_config = tls } in
    let made = altcp_tls_create_config_client ∷ [] in
    elim tls [
      | none ↦ (0, (c', made))
      | some t ↦ elim c.client [
        | none ↦ (1, (c', made ++ mbedtls_ssl_conf_authmode t ∷ []))
        | some h ↦ (
          1,
          (
            c',
            made
                ++ (mbedtls_ssl_conf_authmode t
                    ∷ mqtt_set_inpub_callback h
                    ∷ mqtt_client_connect h c.resolved_addr 8883
                    ∷ []),
          ),
        )
      ]
    ]

-- `connect`; `none` is one that has not returned yet.
unfoldable pub connect : Env → Client → Option (ℕ × (Client × List Call))
connect env c = elim (init_loop env.clients c) [
  | none ↦ none
  | some (c1, news) ↦ elim (mqtt_dns_found hostname env.lookups c1) [
    | none ↦ none
    | some (c2, lookups) ↦
        let (ret, (c3, calls)) = connect_resolved env.tls c2 in
        some (ret, (c3, news ++ (lookups ++ calls)))
  ]
]

-- The calls on the client; lwIP takes no NULL.
unfoldable pub subscribe : Client → List ℕ → List Call
subscribe c topic = elim c.client [ none ↦ [] | some h ↦ mqtt_subscribe h topic ∷ [] ]

unfoldable pub publish : Client → List ℕ → List ℕ → List Call
publish c topic data_ = elim c.client [ none ↦ [] | some h ↦ mqtt_publish h topic data_ ∷ [] ]

unfoldable pub disconnect : Client → List Call
disconnect c =
    let freed : List Call = elim c.tls_config [
      | none ↦ []
      | some t ↦ altcp_tls_free_config t ∷ []
    ] in
    elim c.client [ none ↦ freed | some h ↦ mqtt_disconnect h ∷ mqtt_client_free h ∷ freed ]

-- What `internet_task` does: calls of NetworkClass, of the client, and its own delays.
pub data Event : Type 0 where
  network : Network.Call → Event
  mqtt : Call → Event
  task_delay : ℕ → Event

abbrev pub networks : List Network.Call → List Event
networks [] = []
networks (c ∷ cs) = network c ∷ networks cs

abbrev pub mqtts : List Call → List Event
mqtts [] = []
mqtts (c ∷ cs) = mqtt c ∷ mqtts cs

-- How the loop that waits for the credentials ends, or that it goes on.
pub data Waited : Type 0 where
  ready : Network.Network → List Event → Waited
  waiting overrun : Waited

abbrev pub Form : Type 0
Form = List (List ℕ × List ℕ)

-- Forms that come, in their order; `none` writes behind an array.
unfoldable pub submitted : List Form → Network.Network → Option Network.Network
submitted [] s = some s
submitted (form ∷ forms) s = elim (Network.cgi_handler s form) [
  | none ↦ none
  | some (page, s') ↦ submitted forms s'
]

unfoldable pub delayed : Waited → Waited
delayed (ready s events) = ready s (task_delay 1000 ∷ events)
delayed waiting = waiting
delayed overrun = overrun

-- The first loop of `internet_task`, with the forms that come in each delay.
unfoldable pub wait_credentials : List (List Form) → Network.Network → Waited
wait_credentials [] s = if Network.are_credentials_set s then ready s [] else waiting
wait_credentials (forms ∷ rounds) s = elim (Network.are_credentials_set s) [
  | true ↦ ready s []
  | false ↦ elim (submitted forms s) [
    | none ↦ overrun
    | some s' ↦ delayed (wait_credentials rounds s')
  ]
]

-- The last loop, with whether the client is connected in each round.
unfoldable pub publish_loop : Client → List Bool → List Event
publish_loop c [] = []
publish_loop c (is_connected ∷ rounds) =
    let rest = publish_loop c rounds in
    let calls = publish c (codes "me2") (codes "Hello from Pico") in
    (if is_connected then mqtts calls else []) ++ (task_delay 10000 ∷ rest)

-- The answers of the Wi-Fi chip and of lwIP to `internet_task`, and the forms that come: before the
-- first test of the loop, in each delay, and behind the loop until `connect` reads the credentials.
pub record World : Type 0 where
  pub udp_new : Option ℕ
  pub early : List Form
  pub forms : List (List Form)
  pub late : List Form
  pub join_fails : Bool
  pub env : Env
  pub rounds : List Bool

-- `internet_task` behind the wait: its MQTT part, which `none` leaves unfinished in `connect`.
unfoldable pub run_mqtt : World → Client → Option (List Event)
run_mqtt w c = elim (connect w.env c) [
  | none ↦ none
  | some (ret, (c', calls)) ↦
      some (mqtts (calls ++ subscribe c' (codes "me")) ++ publish_loop c' w.rounds)
]

-- How far `internet_task` is: in its last loop, in the loop that waits for a form, in the `connect`
-- of the client; or a form has been written behind an array.
pub data Progress : Type 0 where
  publishing : List Event → Progress
  at_form at_broker outside : Progress

unfoldable pub internet_task : World → Network.Network → Client → Progress
internet_task w s c =
    let (dhcp_server, up) = Network.ap_init w.udp_new in
    let (is_down, down) = Network.ap_disconnect in
    elim (submitted w.early s) [
      | none ↦ outside
      | some s1 ↦ elim (wait_credentials w.forms s1) [
        | ready s2 waits ↦ elim (submitted w.late s2) [
          | none ↦ outside
          | some s3 ↦
              let (joined, calls) = Network.connect w.join_fails s3 in
              let switched = if Network.are_credentials_set s2 then down ++ calls else [] in
              elim (run_mqtt w c) [
                | none ↦ at_broker
                | some events ↦ publishing (networks up ++ (waits ++ (networks switched ++ events)))
              ]
        ]
        | waiting ↦ at_form
        | overrun ↦ outside
      ]
    ]
