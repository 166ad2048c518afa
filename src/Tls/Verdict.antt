-- ===== src/Tls/Verdict.antt =====
-- src/ipstack/tls_common.c: when a run of the client counts as a success.
use pico_drone.Common.Pbuf.{Pbuf}
use pico_drone.Common.{
  ℕ, ◌≡◌, ◌≢◌, refl, ap, ◌∙◌, ◌⊎◌, inl, inr, Option, none, some, Bool, true, false, List, [], ◌∷◌,
  ◌++◌, ◌==◌, arith, Bool-cases, Option-cases, ◌+◌,
}
use pico_drone.Tls.{
  Client, ClientError, no_error, timeout, Net, Resolved, cached, in_progress, failed, Event,
  dns_found, connected, poll, err, recv, returned, waiting, tls_client_close, tls_client_connected,
  send_request, request_connection, tls_client_poll, tls_client_err, tls_client_recv,
  tls_client_connect_to_server_ip, tls_client_dns_found, set_up, tls_client_open, step, wait,
  has_no_error, verdict, init, run_tls_client_test, ended, going, lost, pbuf_free, Err, ok,
  altcp_recved, extract_co2_setpoint,
}

-- A timeout of the poll, or an error of the connection.
abbrev pub is_trouble : Event → Bool
is_trouble poll = true
is_trouble (err early) = true
is_trouble e = false

abbrev pub NoTrouble : List Event → Type 0
NoTrouble [] = Unit
NoTrouble (e ∷ events) = (is_trouble e ≡ false) × NoTrouble events

close-error : (net : Net) (s : Client) → (tls_client_close net s).1.error ≡ s.error
unfolding tls_client_close
close-error net s = elim (Option-cases s.pcb) [
  | inl e ↦ rw (e, tls_client_close) refl
  | inr (h, e) ↦ elim (Bool-cases (net.close_err == 0)) [
    | inl z ↦ rw (e, z, tls_client_close) refl
    | inr z ↦ rw (e, z, tls_client_close) refl
  ]
]

close-complete : (net : Net) (s : Client) → (tls_client_close net s).1.complete ≡ true
unfolding tls_client_close
close-complete net s = elim (Option-cases s.pcb) [
  | inl e ↦ rw (e, tls_client_close) refl
  | inr (h, e) ↦ elim (Bool-cases (net.close_err == 0)) [
    | inl z ↦ rw (e, z, tls_client_close) refl
    | inr z ↦ rw (e, z, tls_client_close) refl
  ]
]

send-error : (s : Client) → (send_request s).error ≡ s.error
unfolding send_request
send-error s = ground arith

request-error : (ipaddr : List ℕ) (s : Client) → (request_connection ipaddr s).error ≡ s.error
unfolding request_connection
request-error ipaddr s = ground arith

connect-error :
    (net : Net) (ipaddr : List ℕ) (s : Client)
    → (tls_client_connect_to_server_ip net ipaddr s).error ≡ s.error
unfolding tls_client_connect_to_server_ip
connect-error net ipaddr s =
    ground (arith, request-error ipaddr s, close-error net (request_connection ipaddr s))

recv-some :
    (net : Net) (s : Client) (h : ℕ) (p : Pbuf)
    → ((n : ℕ) → net.malloc n ≡ true)
    → (r : Err × Client) × (tls_client_recv net s h (some p) ≡ some r) × (r.1.error ≡ s.error)
unfolding tls_client_recv
recv-some net s h p memory =
    let setpoint : ℕ = elim (extract_co2_setpoint (p.copy_partial p.tot_len 0)) [
      | none ↦ s.co2_setpoint
      | some v ↦ v
    ] in
    let calls = s.calls ++ altcp_recved h p.tot_len ∷ pbuf_free ∷ [] in
    elim (Bool-cases (p.tot_len == 0)) [
      | inl z ↦
          ((ok, record s { calls = s.calls ++ pbuf_free ∷ [] }), rw (z, tls_client_recv) refl, refl)
      | inr z ↦ (
        (ok, record s { co2_setpoint = setpoint; calls = calls }),
        rw (z, memory (p.tot_len + 1), tls_client_recv) refl,
        refl,
      )
    ]

recv-error :
    (net : Net) (s : Client) (h : ℕ) (p : Option Pbuf)
    → ((n : ℕ) → net.malloc n ≡ true)
    → (s' : Client) × (step net s (recv h p) ≡ some s') × (s'.error ≡ s.error)
unfolding step tls_client_recv
recv-error net s h none memory = ((tls_client_close net s).1, refl, close-error net s)
recv-error net s h (some p) memory =
    let (r, e, same) = recv-some net s h p memory in (r.1, rw (e, step) refl, same)

-- Only a timeout and an error of the connection set `error`.
step-error :
    (net : Net) (s : Client) (e : Event)
    → ((n : ℕ) → net.malloc n ≡ true)
    → is_trouble e ≡ false
    → (s' : Client) × (step net s e ≡ some s') × (s'.error ≡ s.error)
unfolding step tls_client_dns_found tls_client_connected
step-error net s (dns_found none) memory quiet =
    ((tls_client_close net s).1, refl, close-error net s)
step-error net s (dns_found (some ipaddr)) memory quiet =
    (tls_client_connect_to_server_ip net ipaddr s, refl, connect-error net ipaddr s)
step-error net s (connected e) memory quiet = (
  (tls_client_connected net s e).1,
  refl,
  ground (arith, close-error net s, close-error net (send_request s), send-error s),
)
step-error net s poll memory quiet = absurd (cc quiet)
step-error net s (err early) memory quiet = absurd (cc quiet)
step-error net s (recv h p) memory quiet = recv-error net s h p memory

-- An error whose second store comes behind the test of the loop.
abbrev pub is_early : Event → Bool
is_early (err early) = early
is_early e = false

step-trouble :
    (net : Net) (s : Client) (e : Event)
    → is_trouble e ≡ true
    → s.error ≡ no_error
    → (s' : Client) × (step net s e ≡ some s')
      × (s'.complete ≡ true)
      × (has_no_error s'.error ≡ is_early e)
unfolding step tls_client_poll tls_client_err
step-trouble net s (dns_found ipaddr) t fine = absurd (cc t)
step-trouble net s (connected e) t fine = absurd (cc t)
step-trouble net s poll t fine =
    let late = record s { error = timeout } in
    (
      (tls_client_close net late).1,
      refl,
      close-complete net late,
      ap has_no_error (close-error net late),
    )
step-trouble net s (err true) t fine = (
  (tls_client_close net s).1,
  refl,
  close-complete net s,
  ap has_no_error (close-error net s ∙ fine),
)
step-trouble net s (err false) t fine = (tls_client_err net s, refl, close-complete net s, refl)
step-trouble net s (recv h p) t fine = absurd (cc t)

wait-ended :
    (net : Net) (events : List Event) (s : Client) → s.complete ≡ true → wait net events s ≡ ended s
unfolding wait
wait-ended net [] s done = ground arith
wait-ended net (e ∷ events) s done =
    ap
      (λ b. elim b [
        | true ↦ ended s
        | false ↦ elim (step net s e) [ none ↦ lost | some s' ↦ wait net events s' ]
      ])
      done

wait-step :
    (net : Net) (e : Event) (events : List Event) (s s' : Client)
    → s.complete ≡ false
    → step net s e ≡ some s'
    → wait net (e ∷ events) s ≡ wait net events s'
unfolding wait
wait-step net e events s s' open_ stepped =
    ap
      (λ b. elim b [
        | true ↦ ended s
        | false ↦ elim (step net s e) [ none ↦ lost | some s' ↦ wait net events s' ]
      ])
      open_
    ∙ ap (λ o. elim o [ none ↦ lost | some s' ↦ wait net events s' ]) stepped

wait-open : (net : Net) (s : Client) → s.complete ≡ false → wait net [] s ≡ going
unfolding wait
wait-open net s open_ = ground arith

-- Without trouble the loop ends without an error or goes on; trouble then ends it, with an error
-- unless it is stored too late.
wait-verdict :
    (net : Net) (events rest : List Event) (e : Event) (s : Client)
    → ((n : ℕ) → net.malloc n ≡ true)
    → NoTrouble events
    → is_trouble e ≡ true
    → s.error ≡ no_error
    → ((c : Client) × (wait net events s ≡ ended c) × (c.error ≡ no_error))
      ⊎ ((wait net events s ≡ going)
          × ((c : Client) × (wait net (events ++ e ∷ rest) s ≡ ended c)
              × (has_no_error c.error ≡ is_early e)))
wait-verdict net [] rest e s memory quiet t fine = elim (Bool-cases s.complete) [
  | inl done ↦ inl (s, wait-ended net [] s done, fine)
  | inr open_ ↦
      let (s', stepped, done, bad) = step-trouble net s e t fine in
      inr (
        wait-open net s open_,
        (s', wait-step net e rest s s' open_ stepped ∙ wait-ended net rest s' done, bad),
      )
]
wait-verdict net (x ∷ events) rest e s memory (q, quiet) t fine = elim (Bool-cases s.complete) [
  | inl done ↦ inl (s, wait-ended net (x ∷ events) s done, fine)
  | inr open_ ↦
      let (s', stepped, same) = step-error net s x memory q in
      elim (wait-verdict net events rest e s' memory quiet t (same ∙ fine)) [
        | inl (c, done, no_err) ↦ inl (c, wait-step net x events s s' open_ stepped ∙ done, no_err)
        | inr (more, (c, done, bad)) ↦ inr (
          wait-step net x events s s' open_ stepped ∙ more,
          (c, wait-step net x (events ++ e ∷ rest) s s' open_ stepped ∙ done, bad),
        )
      ]
]

Resolved-cases : (r : Resolved) → r ≢ failed → ((a : List ℕ) × (r ≡ cached a)) ⊎ (r ≡ in_progress)
Resolved-cases (cached a) other = inl (a, refl)
Resolved-cases in_progress other = inr refl
Resolved-cases failed other = absurd (other refl)

open-lem :
    (net : Net) (server : List ℕ) (s : Client) (h : ℕ)
    → net.new_pcb ≡ some h
    → net.resolved ≢ failed
    → (s' : Client) × (tls_client_open net server s ≡ some (true, s')) × (s'.error ≡ s.error)
unfolding tls_client_open set_up
open-lem net server s h pcb other = elim (Resolved-cases net.resolved other) [
  | inl (a, e) ↦ (
    tls_client_connect_to_server_ip net a (set_up h server s),
    ground (arith, pcb, e),
    connect-error net a (set_up h server s),
  )
  | inr e ↦ (set_up h server s, ground (arith, pcb, e), refl)
]

run-wait :
    (net : Net) (server request : List ℕ) (setpoint : ℕ) (events : List Event) (s : Client)
    → net.has_config ≡ true
    → net.has_memory ≡ true
    → tls_client_open net server (init request setpoint) ≡ some (true, s)
    → run_tls_client_test net server request setpoint events ≡ verdict (wait net events s)
unfolding run_tls_client_test
run-wait net server request setpoint events s config memory opened =
    ground (arith, config, memory, opened)

-- With a TLS configuration, memory, a pcb, and a name that is resolved or looked up: whatever
-- callbacks come but the timeout of the poll and the error callback, a run that ends returns true,
-- so also if no address is found, the connection is refused or the request cannot be written. While
-- it goes on, a timeout makes it return false, and so does an error, unless the loop tests
-- `complete` between the two stores of the error callback: then it returns true.
pub run-verdict :
    (net : Net) (server request : List ℕ) (setpoint h : ℕ) (events rest : List Event) (e : Event)
    → net.has_config ≡ true
    → net.has_memory ≡ true
    → ((n : ℕ) → net.malloc n ≡ true)
    → net.new_pcb ≡ some h
    → net.resolved ≢ failed
    → NoTrouble events
    → is_trouble e ≡ true
    → let run = run_tls_client_test net server request setpoint in
      ((c : Client) × (run events ≡ returned true c))
      ⊎ ((run events ≡ waiting)
          × ((c : Client) × (run (events ++ e ∷ rest) ≡ returned (is_early e) c)))
run-verdict net server request setpoint h events rest e config memory buffers pcb other quiet
      trouble =
    let (s, opened, no_err) = open-lem net server (init request setpoint) h pcb other in
    let ran = λ (es : List Event). run-wait net server request setpoint es s config memory opened in
    elim (wait-verdict net events rest e s buffers quiet trouble no_err) [
      | inl (c, done, fine) ↦ inl (
        c,
        ran events ∙ ap verdict done ∙ ap (λ (x : ClientError). returned (has_no_error x) c) fine,
      )
      | inr (more, (c, done, bad)) ↦ inr (
        ran events ∙ ap verdict more,
        (c, ran (events ++ e ∷ rest) ∙ ap verdict done ∙ ap (λ (v : Bool). returned v c) bad),
      )
    ]
