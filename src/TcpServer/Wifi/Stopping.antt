-- ===== src/TcpServer/Wifi/Stopping.antt =====
-- src/src/Network/tcpserver.cpp: when `wifi_task` ends, and what it has done by then.
use mathlib.Core.List.{append-nil}
use pico_drone.Common.{
  ℕ, ◌≡◌, ◌≢◌, refl, ◌∙◌, Option, none, some, Bool, true, false, not, ◌||◌, List, [], ◌∷◌, ◌++◌,
  ◌==◌, if◌then◌else◌, arith, suc, ◌<◌, ap, replicate, inl, inr, Bool-cases,
}
use pico_drone.Common.Text.{codes}
use pico_drone.Common.Udp as Udp
use pico_drone.Dhcp.Server as Dhcp
use pico_drone.TcpServer.{
  tcp_arg, tcp_accept, tcp_close, Server, Net, tcp_server_open, tcp_server_close,
}
use pico_drone.TcpServer.Wifi.{
  Action, arch_init, arch_deinit, disable_ap_mode, notify_keys, enable_ap_mode, udp, tcp, Env, Keys,
  returned, finished, waiting, key_pressed_func, press_all, led_by, wait, gw, mask, fresh, serve,
  wifi_task,
}

-- A press of `d` or `D`.
abbrev pub is_stop : Option ℕ → Bool
is_stop none = false
is_stop (some key) = key == b'd' || key == b'D'

-- How many of them there are.
abbrev pub stops : List (Option ℕ) → ℕ
stops [] = 0
stops (key ∷ keys) = if is_stop key then suc (stops keys) else stops keys

abbrev pub NoStop : List (List (Option ℕ)) → Type 0
NoStop [] = Unit
NoStop (keys ∷ rounds) = (stops keys ≡ 0) × NoStop rounds

abbrev pub disables : List (Option ℕ) → List Action
disables keys = replicate (stops keys) disable_ap_mode

abbrev marked : ℕ → Server → Server
marked n s = record s { complete = not (n == 0) || s.complete }

key_lem : (key : Option ℕ) (s : Server) → is_stop key ≡ false → key_pressed_func key s ≡ (s, [])
unfolding key_pressed_func
key_lem none s e = refl
key_lem (some key) s e = rw e refl

stop_lem :
    (key : Option ℕ) (s : Server)
    → is_stop key ≡ true
    → key_pressed_func key s ≡ (record s { complete = true }, disable_ap_mode ∷ [])
unfolding key_pressed_func
stop_lem none s e = absurd (cc e)
stop_lem (some key) s e = rw e refl

or_true : (b : Bool) → (b || true) ≡ true
or_true true = refl
or_true false = refl

press_all-stops :
    (keys : List (Option ℕ)) (s : Server)
    → press_all keys s ≡ (marked (stops keys) s, disables keys)
unfolding press_all
press_all-stops [] s = refl
press_all-stops (key ∷ keys) s = elim (Bool-cases (is_stop key)) [
  | inl stop ↦
      let some_ : (suc (stops keys) == 0) ≡ false = ground arith in
      rw (stop_lem key s stop, press_all-stops keys (record s { complete = true }), stop, some_)
        (rw (or_true (not (stops keys == 0))) refl)
  | inr quiet ↦ rw (key_lem key s quiet, press_all-stops keys s, quiet) refl
]

wait-ended :
    (rounds : List (List (Option ℕ))) (s : Server)
    → s.complete ≡ true
    → wait rounds s ≡ some (s, [])
unfolding wait
wait-ended [] s e = rw (e, wait) refl
wait-ended (keys ∷ rounds) s e = rw (e, wait) refl

led_by-nil : (r : Option (Server × List Action)) → led_by [] r ≡ r
led_by-nil none = refl
led_by-nil (some (s, more)) = refl

-- One second without a stop, and one with stops.
wait-quiet :
    (keys : List (Option ℕ)) (rounds : List (List (Option ℕ))) (s : Server)
    → s.complete ≡ false
    → stops keys ≡ 0
    → wait (keys ∷ rounds) s ≡ wait rounds s
unfolding wait
wait-quiet keys rounds s open_ quiet =
    let pressed : press_all keys s ≡ (s, []) = press_all-stops keys s ∙ rw quiet refl in
    ap
      (λ b.
        if b then some (s, []) else led_by (press_all keys s).1 (wait rounds (press_all keys s).0))
      open_
    ∙ ap (λ r. led_by r.1 (wait rounds r.0)) pressed
    ∙ led_by-nil (wait rounds s)

wait-stop :
    (keys : List (Option ℕ)) (rounds : List (List (Option ℕ))) (s : Server)
    → s.complete ≡ false
    → 0 < stops keys
    → wait (keys ∷ rounds) s ≡ some (record s { complete = true }, disables keys)
unfolding wait
wait-stop keys rounds s open_ some_ =
    let any : (stops keys == 0) ≡ false = ground arith in
    let pressed : press_all keys s ≡ (record s { complete = true }, disables keys) =
      press_all-stops keys s ∙ rw any refl in
    rw (pressed, wait-ended rounds (record s { complete = true }) refl, open_, wait)
      (ap (λ l. some (record s { complete = true }, l)) (append-nil (disables keys)))

wait-none :
    (rounds : List (List (Option ℕ))) (s : Server)
    → s.complete ≡ false
    → NoStop rounds
    → wait rounds s ≡ none
wait-none [] s open_ h = unfold wait in rw (open_, wait) refl
wait-none (keys ∷ rounds) s open_ (q, h) =
    wait-quiet keys rounds s open_ q ∙ wait-none rounds s open_ h

wait-some :
    (before after : List (List (Option ℕ))) (keys : List (Option ℕ)) (s : Server)
    → s.complete ≡ false
    → NoStop before
    → 0 < stops keys
    → wait (before ++ keys ∷ after) s ≡ some (record s { complete = true }, disables keys)
wait-some [] after keys s open_ h stop = wait-stop keys after s open_ stop
wait-some (k ∷ before) after keys s open_ (q, h) stop =
    wait-quiet k (before ++ keys ∷ after) s open_ q ∙ wait-some before after keys s open_ h stop

-- A chip that starts, and pcbs `u`, `h` and `l` from lwIP; `e` is what `tcp_bind` returns.
abbrev pub ready : Net → ℕ → ℕ → ℕ → ℕ → Env
ready net u h l e = record {
  has_memory = true;
  init_err = 0;
  udp_new = some u;
  net = record net { new_pcb = some h; bind_err = e; listen_pcb = some l };
}

-- The actions up to `tcp_server_open`, those from it to the loop, and those behind the loop.
abbrev pub up : ℕ → Keys → List Action
up u keys =
    arch_init
    ∷ notify_keys
    ∷ (disables keys.started
        ++ (enable_ap_mode (codes "picow_test") (codes "password")
            ∷ (disables keys.in_ap
                ++ (udp (Udp.receive_by u) ∷ udp (Udp.bind u 67) ∷ disables keys.served))))

abbrev pub tcp_up : ℕ → Keys → List Action
tcp_up l keys = tcp (tcp_arg l true) ∷ tcp (tcp_accept l true) ∷ disables keys.opened

abbrev pub down : ℕ → ℕ → Keys → List Action
down u l keys =
    disables keys.stopped
    ++ (tcp (tcp_arg l false)
        ∷ tcp (tcp_close l)
        ∷ (disables keys.closed
            ++ (udp (Udp.remove u) ∷ (disables keys.freed ++ arch_deinit ∷ []))))

-- The task behind a server that is open, up to the end and in the loop.
serve-stops :
    (keys : Keys) (s : Server) (u l : ℕ) (dhcp : Dhcp.Server) (quiet later : List (List (Option ℕ)))
    (last : List (Option ℕ))
    → s.server_pcb ≡ some l
    → dhcp.udp ≡ some u
    → NoStop quiet
    → 0 < stops last
    → serve (record keys { rounds = quiet ++ last ∷ later }) s dhcp
      ≡ (finished, disables last ++ down u l keys)
unfolding serve tcp_server_close Dhcp.deinit
serve-stops keys s u l dhcp quiet later last pcb handle no_stop stop =
    let open_ : Server = record s { complete = false } in
    let done : Server = record s { complete = true } in
    rw (wait-some quiet later last open_ refl no_stop stop, serve)
      (rw (press_all-stops keys.stopped done) (
        rw (pcb, handle)
          (rw
            (press_all-stops keys.closed
              (record (marked (stops keys.stopped) done) { server_pcb = none }))
            (rw
              (press_all-stops keys.freed (
                marked (stops keys.closed)
                  (record (marked (stops keys.stopped) done) { server_pcb = none })))
              refl))))

serve-waits :
    (keys : Keys) (s : Server) (dhcp : Dhcp.Server) (quiet : List (List (Option ℕ)))
    → NoStop quiet
    → serve (record keys { rounds = quiet }) s dhcp ≡ (waiting, [])
unfolding serve
serve-waits keys s dhcp quiet no_stop =
    rw (wait-none quiet (record s { complete = false }) refl no_stop, serve) refl

-- With memory, a chip that starts and pcbs from lwIP, the task starts the access point, the DHCP
-- server and the TCP server in this order, and waits through any seconds without a press of `d` or
-- `D`; behind the first second with presses it closes both servers and stops the chip. Each press
-- takes the access point down where it comes. Presses before the loop do not end the wait, and
-- those before the access point is enabled leave it enabled. If the port cannot be bound, the task
-- returns with the DHCP server registered and the chip running.
pub wifi_task-stops :
    (net : Net) (u h l e : ℕ) (keys : Keys) (quiet later : List (List (Option ℕ)))
    (last : List (Option ℕ))
    → NoStop quiet
    → 0 < stops last
    → e ≢ 0
    → (wifi_task (ready net u h l 0) (record keys { rounds = quiet ++ last ∷ later })
        ≡ (finished, up u keys ++ (tcp_up l keys ++ (disables last ++ down u l keys))))
      × (wifi_task (ready net u h l 0) (record keys { rounds = quiet })
          ≡ (waiting, up u keys ++ tcp_up l keys))
      × (wifi_task (ready net u h l e) keys ≡ (returned, up u keys))
unfolding wifi_task serve tcp_server_open tcp_server_close Dhcp.init Dhcp.deinit
wifi_task-stops net u h l e keys quiet later last no_stop stop bad =
    let fails : (e == 0) ≡ false = ground arith in
    let before = press_all-stops keys.started fresh in
    let s0 = marked (stops keys.started) fresh in
    let in_ap = press_all-stops keys.in_ap s0 in
    let s1 = marked (stops keys.in_ap) s0 in
    let served = press_all-stops keys.served s1 in
    let s2 = record (marked (stops keys.served) s1) { server_pcb = some l } in
    let opened = press_all-stops keys.opened s2 in
    let s4 = marked (stops keys.opened) s2 in
    let dhcp = (Dhcp.init (some u) gw mask).0 in
    (
      rw
          (
            before,
            in_ap,
            served,
            opened,
            serve-stops keys s4 u l dhcp quiet later last refl refl no_stop stop,
          )
          refl,
      rw (before, in_ap, served, opened, serve-waits keys s4 dhcp quiet no_stop)
          (ap (λ actions. (waiting, up u keys ++ actions)) (append-nil (tcp_up l keys))),
      rw (before, in_ap, served, fails)
          (ap (λ actions. (returned, actions)) (append-nil (up u keys))),
    )
