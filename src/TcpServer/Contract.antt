-- ===== src/TcpServer/Contract.antt =====
-- src/src/Network/tcpserver.cpp, src/ipstack/picow_access_point.c: how the callbacks end a
-- connection.
use mathlib.Core.List.{append_assoc}
use pico_drone.Common.{
  ℕ, ◌+◌, ◌-◌, ◌≡◌, ◌≢◌, inl, inr, refl, ap, sym, ◌∙◌, Option, none, some, Bool, true, false, not,
  ◌&&◌, List, [], ◌∷◌, ◌++◌, ◌==◌, ltb, leb, if◌then◌else◌, arith, Bool-cases, Option-cases, drop,
}
use pico_drone.Common.Pbuf.{Pbuf}
use pico_drone.Common.Text.{codes, c_string, strncmp, snprintf}
use pico_drone.TcpServer.{
  Err, err_mem, err_val, ok, err_abrt, err_clsd, lwip, Call, tcp_write, tcp_recved, tcp_close,
  tcp_abort, pbuf_free, free, gpio_set, Connection, Outcome, Net, hooks_off, respond,
  tcp_close_client_connection, tcp_server_sent, tcp_server_poll,
}
use pico_drone.TcpServer.Config
use pico_drone.TcpServer.Pages.{response_headers}
use pico_drone.TcpServer.AccessPoint

abbrev pub is_quiet_call : Call → Bool
is_quiet_call (tcp_write h bytes) = true
is_quiet_call (tcp_recved h n) = true
is_quiet_call pbuf_free = true
is_quiet_call (gpio_set on) = true
is_quiet_call call = false

-- Whether calls leave the connection alone: none closes, aborts or frees it or touches its
-- callbacks.
abbrev pub is_quiet : List Call → Bool
is_quiet [] = true
is_quiet (call ∷ calls) = is_quiet_call call && is_quiet calls

-- The calls that end a connection.
abbrev pub closing : Net → ℕ → List Call
closing net h =
    hooks_off h ++ tcp_close h ∷ (if net.close_err == 0 then [] else tcp_abort h ∷ []) ++ free ∷ []

abbrev pub is_abrt : Err → Bool
is_abrt err_abrt = true
is_abrt e = false

is_abrt-other : (e : Err) → e ≢ err_abrt → is_abrt e ≡ false
is_abrt-other err_abrt other = absurd (other refl)
is_abrt-other ok other = refl
is_abrt-other err_mem other = refl
is_abrt-other err_val other = refl
is_abrt-other err_clsd other = refl
is_abrt-other (lwip e) other = refl

-- A callback goes on with the same pcb and returns ERR_OK, or it ends the connection: as its last
-- calls it takes all callbacks off, closes the pcb, aborts it if that fails, and frees the state,
-- and it returns ERR_ABRT exactly if it aborts.
pub data Follows (net : Net) (h : ℕ) (o : Outcome) : Type 0 where
  goes_on :
      (con : Connection)
      → o.con ≡ some con
      → con.pcb ≡ h
      → o.err ≡ ok
      → is_quiet o.calls ≡ true
      → Follows net h o
  ends :
      (before : List Call)
      → o.con ≡ none
      → o.calls ≡ before ++ closing net h
      → is_quiet before ≡ true
      → is_abrt o.err ≡ not (net.close_err == 0)
      → Follows net h o

close-Follows :
    (net : Net) (h : ℕ) (e : Err)
    → e ≢ err_abrt
    → Follows net h (tcp_close_client_connection net h e)
unfolding tcp_close_client_connection
close-Follows net h e other = elim (Bool-cases (net.close_err == 0)) [
  | inl z ↦
      rw (z, tcp_close_client_connection)
        (ends [] refl (rw z refl) refl (rw z (is_abrt-other e other)))
  | inr z ↦ rw (z, tcp_close_client_connection) (ends [] refl (rw z refl) refl (rw z refl))
]

is_quiet-append :
    (xs ys : List Call) → is_quiet xs ≡ true → is_quiet ys ≡ true → is_quiet (xs ++ ys) ≡ true
is_quiet-append [] ys hx hy = hy
is_quiet-append (x ∷ xs) ys hx hy = ground (arith, is_quiet-append xs ys)

-- Quiet calls before those of a callback change nothing.
before-Follows :
    (net : Net) (h : ℕ) (o : Outcome) (before : List Call)
    → is_quiet before ≡ true
    → Follows net h o
    → Follows net h (record o { calls = before ++ o.calls })
before-Follows net h o before q (goes_on con e same is_ok quiet) =
    goes_on con e same is_ok (is_quiet-append before o.calls q quiet)
before-Follows net h o before q (ends before' gone shape quiet abrt) =
    ends (before ++ before') gone
      (ap (λ l. before ++ l) shape ∙ sym (append_assoc before before' (closing net h)))
      (is_quiet-append before before' q quiet) abrt

lwip-other : (e : ℕ) → lwip e ≢ err_abrt
lwip-other e = ground arith

respond-Follows : (net : Net) (con : Connection) (n : ℕ) → Follows net con.pcb (respond net con n)
unfolding respond
respond-Follows net con n =
    let failed = λ (e : ℕ). close-Follows net con.pcb (lwip e) (lwip-other e) in
    elim (Bool-cases (net.header_err == 0)) [
      | inr bad ↦
          rw (bad, respond) (before-Follows net con.pcb _ (_ ∷ []) refl (failed net.header_err))
      | inl fine ↦ elim (Bool-cases (con.result_len == 0)) [
        | inl nothing ↦ rw (fine, nothing, respond) (goes_on _ refl refl refl refl)
        | inr some_ ↦ elim (Bool-cases (net.result_err == 0)) [
          | inr bad ↦
              rw (fine, some_, bad, respond)
                (before-Follows net con.pcb _ (_ ∷ _ ∷ []) refl (failed net.result_err))
          | inl fine' ↦ rw (fine, some_, fine', respond) (goes_on _ refl refl refl refl)
        ]
      ]
    ]

sent-Follows :
    (net : Net) (con : Connection) (len : ℕ) → Follows net con.pcb (tcp_server_sent net con len)
unfolding tcp_server_sent
sent-Follows net con len =
    elim (Bool-cases (leb (con.header_len + con.result_len) (con.sent_len + len))) [
      | inl done ↦ rw (done, tcp_server_sent) (close-Follows net con.pcb ok (ground arith))
      | inr more ↦ rw (more, tcp_server_sent) (goes_on _ refl refl refl refl)
    ]

too_much-Follows : (net : Net) (h : ℕ) → Follows net h (tcp_close_client_connection net h err_clsd)
too_much-Follows net h = close-Follows net h err_clsd (ground arith)

ok-Follows : (net : Net) (h : ℕ) → Follows net h (tcp_close_client_connection net h ok)
ok-Follows net h = close-Follows net h ok (ground arith)

-- A choice between two outcomes.
if-Follows :
    (net : Net) (h : ℕ) (test : Bool) (o o' : Outcome)
    → Follows net h o
    → Follows net h o'
    → Follows net h (if test then o else o')
if-Follows net h true o o' f f' = f
if-Follows net h false o o' f f' = f'

config_answer-Follows :
    (printf : List ℕ → List ℕ) (net : Net) (con : Connection) (n : ℕ)
    → Follows net con.pcb (Config.answer printf net con n)
unfolding Config.answer
config_answer-Follows printf net con n =
    let asked = c_string (drop 4 con.headers) in
    let has_body = Config.is_some (Config.find_body (c_string con.headers)) in
    let (result_len, result) = Config.handle_request printf asked has_body con.result in
    let (header_len, headers) =
      snprintf con.headers Config.headers_size (response_headers 200 result_len) in
    let con1 = record con { result = result; result_len = result_len } in
    let con2 = record con1 { headers = headers; header_len = header_len } in
    let closed = tcp_close_client_connection net con.pcb err_clsd in
    let long = ltb (Config.headers_size - 1) header_len in
    let inner = if long then closed else respond net con2 n in
    let outer = if ltb 0 result_len then inner else respond net con1 n in
    if-Follows net con.pcb (ltb (Config.result_size - 1) result_len) closed outer
      (too_much-Follows net con.pcb)
      (if-Follows net con.pcb (ltb 0 result_len) inner (respond net con1 n)
        (if-Follows net con.pcb long closed (respond net con2 n) (too_much-Follows net con.pcb)
          (respond-Follows net con2 n))
        (respond-Follows net con1 n))

config-Follows :
    (printf : List ℕ → List ℕ) (net : Net) (con : Connection) (p : Option Pbuf)
    → Follows net con.pcb (Config.tcp_server_recv printf net con p)
unfolding Config.tcp_server_recv
config-Follows printf net con none = ok-Follows net con.pcb
config-Follows printf net con (some p) =
    if-Follows net con.pcb _ _ _ (goes_on con refl refl refl refl) (
      if-Follows net con.pcb _ _ _ (config_answer-Follows printf net _ p.tot_len)
        (goes_on _ refl refl refl refl))

test_server_content-quiet :
    (led : Bool) (request : List ℕ) (params : Option (List ℕ)) (result : List ℕ)
    → is_quiet (AccessPoint.test_server_content led request params result).1 ≡ true
unfolding AccessPoint.test_server_content
test_server_content-quiet led request params result =
    elim (Bool-cases (strncmp (codes "/ledtest") request)) [
      | inr other ↦ rw (other, AccessPoint.test_server_content) refl
      | inl page ↦ elim (Option-cases (AccessPoint.scan_params params)) [
        | inl e ↦ rw (page, e, AccessPoint.test_server_content) refl
        | inr (on, e) ↦ rw (page, e, AccessPoint.test_server_content) refl
      ]
    ]

access_point_answer-Follows :
    (led : Bool) (net : Net) (con : Connection) (n : ℕ)
    → Follows net con.pcb (AccessPoint.answer led net con n)
unfolding AccessPoint.answer AccessPoint.tcp_close_client_connection
access_point_answer-Follows led net con n =
    let (request, (params, headers)) = AccessPoint.split_request con.headers in
    let quiet = test_server_content-quiet led request params con.result in
    if-Follows net con.pcb _ _ _
      (before-Follows net con.pcb _ _ quiet (too_much-Follows net con.pcb))
      (before-Follows net con.pcb _ _ quiet (respond-Follows net _ n))

access_point-Follows :
    (led : Bool) (net : Net) (con : Connection) (p : Option Pbuf)
    → Follows net con.pcb (AccessPoint.tcp_server_recv led net con p)
unfolding AccessPoint.tcp_server_recv AccessPoint.tcp_close_client_connection
access_point-Follows led net con none = ok-Follows net con.pcb
access_point-Follows led net con (some p) =
    if-Follows net con.pcb _ _ _ (goes_on con refl refl refl refl) (
      if-Follows net con.pcb _ _ _ (access_point_answer-Follows led net _ p.tot_len)
        (goes_on _ refl refl refl refl))

-- Each callback of a connection of either server, for receiving, for an acknowledgement and for
-- polling, goes on with the same pcb and returns ERR_OK, or it ends the connection: as its last
-- calls it takes all callbacks off, closes the pcb, aborts it if that fails, and frees the state
-- once, and it returns ERR_ABRT exactly if it aborts.
pub callbacks-Follows :
    (printf : List ℕ → List ℕ) (led : Bool) (net : Net) (con : Connection) (p : Option Pbuf)
    (len : ℕ)
    → Follows net con.pcb (Config.tcp_server_recv printf net con p)
      × Follows net con.pcb (AccessPoint.tcp_server_recv led net con p)
      × Follows net con.pcb (tcp_server_sent net con len)
      × Follows net con.pcb (tcp_server_poll net con)
unfolding tcp_server_poll
callbacks-Follows printf led net con p len = (
  config-Follows printf net con p,
  access_point-Follows led net con p,
  sent-Follows net con len,
  ok-Follows net con.pcb,
)
