-- ===== src/MqttClient/Internet.antt =====
-- src/main.cpp: what `internet_task` does, from the access point to the broker, and in which order.
use mathlib.Core.Path.{subst}
use pico_drone.Common.{
  ℕ, zero, suc, ◌≡◌, refl, ap, ◌∙◌, Option, none, some, Bool, true, false, List, [], ◌∷◌, ◌++◌,
  length, replicate,
}
use pico_drone.Common.Text.{codes}
use pico_drone.Network as Network
use pico_drone.Network.{ssid_size, password_size}
use pico_drone.MqttClient.{
  Client, Call, mqtt_client_new, altcp_tls_create_config_client, dns_gethostbyname, delay,
  mbedtls_ssl_conf_authmode, mqtt_set_inpub_callback, mqtt_client_connect, mqtt_subscribe,
  mqtt_publish, hostname, init, init_loop, mqtt_dns_found, connect_resolved, connect, subscribe,
  Event, mqtt, task_delay, networks, mqtts, Form, publish, publish_loop, run_mqtt, internet_task,
  at_form, publishing, World,
}
use pico_drone.MqttClient.Waiting.{
  AllTexts, last_complete, AreIdle, Knows, submitted-Knows, delays, delays-ready,
  wait_credentials-idle, wait_credentials-waiting, wait_credentials_complete,
}

init_loop-fails :
    (n h : ℕ) (others : List (Option ℕ)) (c : Client)
    → init_loop (replicate n none ++ some h ∷ others) c
      ≡ some (record c { client = some h }, replicate (suc n) mqtt_client_new)
unfolding init_loop init
init_loop-fails zero h others c = refl
init_loop-fails (suc n) h others c =
    rw (init_loop-fails n h others (record c { client = none })) refl

abbrev pub lookups : ℕ → List Call
lookups zero = []
lookups (suc n) = dns_gethostbyname hostname ∷ delay 2000 ∷ lookups n

mqtt_dns_found-fails :
    (n : ℕ) (addr : List ℕ) (others : List (Option (List ℕ))) (c : Client)
    → mqtt_dns_found hostname (replicate n none ++ some addr ∷ others) c
      ≡ some (record c { resolved_addr = addr }, lookups (suc n))
unfolding mqtt_dns_found
mqtt_dns_found-fails zero addr others c = refl
mqtt_dns_found-fails (suc n) addr others c = rw (mqtt_dns_found-fails n addr others c) refl

-- What the client asks in `connect`, behind `n` failures to make a client and `k`
-- failures to find the name.
abbrev pub broker_calls : ℕ → ℕ → ℕ → ℕ → List ℕ → List Call
broker_calls n k h t addr =
    replicate (suc n) mqtt_client_new
    ++ (lookups (suc k)
        ++ (altcp_tls_create_config_client
            ∷ mbedtls_ssl_conf_authmode t
            ∷ mqtt_set_inpub_callback h
            ∷ mqtt_client_connect h addr 8883
            ∷ []))

connect-fails :
    (n k h t : ℕ) (addr : List ℕ) (more : List (Option ℕ)) (more' : List (Option (List ℕ)))
    (c : Client)
    → connect
        (record {
          clients = replicate n none ++ some h ∷ more;
          lookups = replicate k none ++ some addr ∷ more';
          tls = some t;
        })
        c
      ≡ some (
        1,
        (
          record { client = some h; tls_config = some t; resolved_addr = addr },
          broker_calls n k h t addr,
        ),
      )
unfolding connect connect_resolved
connect-fails n k h t addr more more' c =
    rw
      (
        init_loop-fails n h more c,
        mqtt_dns_found-fails k addr more' (record c { client = some h }),
        connect,
      )
      refl

-- What the last loop does in each round, by whether the client is connected in it.
abbrev pub published : ℕ → List Bool → List Event
published h [] = []
published h (true ∷ rounds) =
    mqtt (mqtt_publish h (codes "me2") (codes "Hello from Pico"))
    ∷ task_delay 10000
    ∷ published h rounds
published h (false ∷ rounds) = task_delay 10000 ∷ published h rounds

publish_loop-published :
    (c : Client) (h : ℕ) (rounds : List Bool)
    → c.client ≡ some h
    → publish_loop c rounds ≡ published h rounds
unfolding publish_loop publish
publish_loop-published c h [] e = refl
publish_loop-published c h (true ∷ rounds) e = rw (e, publish_loop-published c h rounds e) refl
publish_loop-published c h (false ∷ rounds) e = rw (publish_loop-published c h rounds e) refl

joined_lem :
    (failed : Bool) (s : Network.Network) (v w : List ℕ)
    → Knows s (some (v, w))
    → (Network.connect failed s).1
      ≡ Network.enable_sta_mode ∷ Network.connect_timeout_ms v w 30000 ∷ []
unfolding Network.connect
joined_lem failed s v w h = rw (h.0.1, h.1.1) refl

-- With no complete form (one with a name and a password that are not empty) before the first test
-- and in the delays that come, the task stays at its first loop. Behind the first delay with
-- complete forms it goes on. It takes the access point down, joins with the first 31 and 63 bytes
-- of the texts of the last complete form up to `connect` (and goes on if that fails), asks for a
-- client until it gets one and looks the broker up until there is an address. Where the TLS
-- configuration is made, it connects to that address on port 8883, subscribes to `me`, and
-- publishes in each round in which the client is connected.
pub internet_task-order :
    (s : Network.Network) (c : Client) (udp_new : Option ℕ) (early forms late : List Form)
    (idle later : List (List Form)) (v w v' w' : List ℕ) (failed : Bool) (n k h t : ℕ)
    (addr : List ℕ) (more : List (Option ℕ)) (more' : List (Option (List ℕ))) (rounds : List Bool)
    → Knows s none
    → AllTexts early
    → last_complete early none ≡ none
    → AreIdle idle
    → AllTexts forms
    → last_complete forms none ≡ some (v, w)
    → AllTexts late
    → last_complete late (some (v, w)) ≡ some (v', w')
    → let (dhcp, up) = Network.ap_init udp_new in
      let world : World = record {
        udp_new = udp_new;
        early = early;
        forms = idle ++ forms ∷ later;
        late = late;
        join_fails = failed;
        env = record {
          clients = replicate n none ++ some h ∷ more;
          lookups = replicate k none ++ some addr ∷ more';
          tls = some t;
        };
        rounds = rounds;
      } in
      (internet_task (record world { forms = idle }) s c ≡ at_form)
      × (internet_task world s c
          ≡ publishing (
              networks up
              ++ ((replicate (length idle) (task_delay 1000) ++ task_delay 1000 ∷ [])
                  ++ (networks (
                        Network.disable_ap_mode
                        ∷ Network.enable_sta_mode
                        ∷ Network.connect_timeout_ms v' w' 30000
                        ∷ [])
                      ++ (mqtts (broker_calls n k h t addr ++ mqtt_subscribe h (codes "me") ∷ [])
                          ++ published h rounds)))))
unfolding internet_task run_mqtt subscribe Network.ap_disconnect
internet_task-order s c udp_new early forms late idle later v w v' w' failed n k h t addr more more'
      rounds unset texts none_ is texts' found texts'' last_ =
    let (s1, done1, known) = submitted-Knows s early none unset texts in
    let known1 : Knows s1 none = subst (λ k. Knows s1 k) none_ known in
    let (s2, known2, waits) = wait_credentials-idle s1 idle (forms ∷ later) known1 is in
    let (s3, known3, complete) = wait_credentials_complete s2 forms later v w known2 texts' found in
    let (s4, done4, known) = submitted-Knows s3 late (some (v, w)) known3 texts'' in
    let known4 : Knows s4 (some (v', w')) = subst (λ k. Knows s4 k) last_ known in
    let waited =
      waits
      ∙ ap (delays (length idle)) complete
      ∙ delays-ready (length idle) s3 (task_delay 1000 ∷ []) in
    let still = wait_credentials-waiting s1 idle known1 is in
    let broker = connect-fails n k h t addr more more' c in
    let last =
      publish_loop-published (record { client = some h; tls_config = some t; resolved_addr = addr })
        h rounds refl in
    (
      rw (done1, still, internet_task) refl,
      rw
          (
            done1,
            waited,
            done4,
            broker,
            known3.2,
            joined_lem failed s4 v' w' known4,
            last,
            internet_task,
          )
          refl,
    )
