-- ===== src/TcpServer/Wifi.antt =====
-- src/src/Network/tcpserver.cpp: the task that opens the access point and its servers.
pub mod Stopping
use mathlib.Core.List.{append-nil}
use pico_drone.Common.{
  ℕ, ◌≡◌, ◌≢◌, refl, ◌∙◌, Option, none, some, Bool, true, false, not, ◌||◌, List, [], ◌∷◌, ◌++◌,
  ◌==◌, if◌then◌else◌, arith, zero, suc, ◌<◌, ap, replicate, inl, inr, Bool-cases, Option-cases,
}
use pico_drone.Common.Text.{codes}
use pico_drone.Common.Udp as Udp
use pico_drone.Dhcp.Server as Dhcp
use pico_drone.TcpServer.{
  Call, tcp_arg, tcp_accept, tcp_close, Server, Net, tcp_server_open, tcp_server_close,
}

-- What the task asks of the Wi-Fi chip, of the console and of lwIP, in its order.
pub data Action : Type 0 where
  arch_init arch_deinit disable_ap_mode notify_keys : Action
  enable_ap_mode : List ℕ → List ℕ → Action
  udp : Udp.Call → Action
  tcp : Call → Action

-- What it is answered: memory, the start of the chip, and lwIP's pcbs.
pub record Env : Type 0 where
  pub has_memory : Bool
  pub init_err : ℕ
  pub udp_new : Option ℕ
  pub net : Net

-- How a run ends: by a return with or without the clean-up, or it is still in the loop.
pub data Ended : Type 0 where
  returned finished waiting : Ended

-- `key_pressed_func` with the key, if there is one.
unfoldable pub key_pressed_func : Option ℕ → Server → Server × List Action
key_pressed_func none s = (s, [])
key_pressed_func (some key) s =
    if key == b'd' || key == b'D'
    then (record s { complete = true }, disable_ap_mode ∷ [])
    else (s, [])

unfoldable pub press_all : List (Option ℕ) → Server → Server × List Action
press_all [] s = (s, [])
press_all (key ∷ keys) s =
    let (s1, actions) = key_pressed_func key s in
    let (s2, more) = press_all keys s1 in (s2, actions ++ more)

-- What each call of the callback reads (`none` if no key is there), by when it is called: up to
-- `enable_ap_mode`, to `dhcp_server_init`, to `tcp_server_open`, and until `complete` is cleared;
-- in each second of the loop; and behind the loop up to `tcp_server_close`, to
-- `dhcp_server_deinit`, and to `cyw43_arch_deinit`.
pub record Keys : Type 0 where
  pub started : List (Option ℕ)
  pub in_ap : List (Option ℕ)
  pub served : List (Option ℕ)
  pub opened : List (Option ℕ)
  pub rounds : List (List (Option ℕ))
  pub stopped : List (Option ℕ)
  pub closed : List (Option ℕ)
  pub freed : List (Option ℕ)

abbrev pub led_by : List Action → Option (Server × List Action) → Option (Server × List Action)
led_by actions none = none
led_by actions (some (s, more)) = some (s, actions ++ more)

-- The loop of `wifi_task`, with the keys of each second; `none` is a loop that goes on.
unfoldable pub wait : List (List (Option ℕ)) → Server → Option (Server × List Action)
wait [] s = if s.complete then some (s, []) else none
wait (keys ∷ rounds) s =
    let (s', actions) = press_all keys s in
    let rest = wait rounds s' in if s.complete then some (s, []) else led_by actions rest

abbrev pub udps : List Udp.Call → List Action
udps [] = []
udps (c ∷ cs) = udp c ∷ udps cs

abbrev pub tcps : List Call → List Action
tcps [] = []
tcps (c ∷ cs) = tcp c ∷ tcps cs

abbrev pub gw : List ℕ
gw = 192 ∷ 168 ∷ 4 ∷ 1 ∷ []

abbrev pub mask : List ℕ
mask = 255 ∷ 255 ∷ 255 ∷ 0 ∷ []

abbrev pub fresh : Server
fresh = record { server_pcb = none; complete = false; gw = codes "192.168.4.1" }

-- `wifi_task` behind a server that is open.
unfoldable pub serve : Keys → Server → Dhcp.Server → Ended × List Action
serve keys s dhcp = elim (wait keys.rounds (record s { complete = false })) [
  | none ↦ (waiting, [])
  | some (s', actions) ↦
      let (s1, a1) = press_all keys.stopped s' in
      let (s2, tcp_calls) = tcp_server_close s1 in
      let (s3, a2) = press_all keys.closed s2 in
      let (dhcp', udp_calls) = Dhcp.deinit dhcp in
      let (s4, a3) = press_all keys.freed s3 in
      (
        finished,
        actions ++ (a1 ++ (tcps tcp_calls ++ (a2 ++ (udps udp_calls ++ (a3 ++ arch_deinit ∷ []))))),
      )
]

-- `wifi_task`
unfoldable pub wifi_task : Env → Keys → Ended × List Action
wifi_task env keys =
    let (s0, a0) = press_all keys.started fresh in
    let (s1, a1) = press_all keys.in_ap s0 in
    let (dhcp, udp_calls) = Dhcp.init env.udp_new gw mask in
    let (s2, a2) = press_all keys.served s1 in
    let (is_open, (s3, tcp_calls)) = tcp_server_open env.net s2 in
    let (s4, a4) = press_all keys.opened s3 in
    let ap = enable_ap_mode (codes "picow_test") (codes "password") in
    let up = arch_init ∷ notify_keys ∷ (a0 ++ (ap ∷ (a1 ++ (udps udp_calls ++ a2)))) in
    let (ended, rest) = serve keys s4 dhcp in
    if not env.has_memory
    then (returned, [])
    else if not (env.init_err == 0)
    then (returned, arch_init ∷ [])
    else if is_open
    then (ended, up ++ ((tcps tcp_calls ++ a4) ++ rest))
    else (returned, up ++ tcps tcp_calls)
