-- ===== src/Tls.antt =====
-- src/ipstack/tls_common.c: a client over TLS that sends a request and takes a setpoint from what
-- comes back.
pub mod Setpoint
pub mod Verdict
mod Tests
use pico_drone.Common.{
  ℕ, zero, suc, ◌+◌, ◌-◌, Option, none, some, Bool, true, false, not, List, [], ◌∷◌, ◌++◌, ◌==◌,
  if◌then◌else◌, take, drop, length,
}
use pico_drone.Common.Pbuf.{Pbuf}
use pico_drone.Common.Text.{codes, c_string, strstr, skip_space, skip_sign, is_minus, scan_digits}

-- `error`: 0, PICO_ERROR_TIMEOUT or PICO_ERROR_GENERIC.
pub data ClientError : Type 0 where
  no_error timeout generic : ClientError

-- The calls of lwIP on the pcb, in their order; a callback is registered (`true`) or taken off.
pub data Call : Type 0 where
  altcp_arg altcp_poll altcp_recv altcp_err : ℕ → Bool → Call
  set_hostname : ℕ → List ℕ → Call
  altcp_connect : ℕ → List ℕ → ℕ → Call
  altcp_write : ℕ → List ℕ → Call
  altcp_recved : ℕ → ℕ → Call
  altcp_close altcp_abort : ℕ → Call
  pbuf_free : Call

-- `TLS_CLIENT_T` but for the poll interval, with the static `Co2_SetPoint` and the calls so far.
pub record Client : Type 0 where
  pub pcb : Option ℕ
  pub complete : Bool
  pub error : ClientError
  pub http_request : List ℕ
  pub co2_setpoint : ℕ
  pub calls : List Call

-- What `dns_gethostbyname` answers: an address, ERR_INPROGRESS, or an error.
pub data Resolved : Type 0 where
  cached : List ℕ → Resolved
  in_progress failed : Resolved

-- What lwIP, mbedTLS, `calloc` and `malloc` answer; errors by their absolute value, 0 for ERR_OK.
pub record Net : Type 0 where
  pub has_config : Bool
  pub has_memory : Bool
  pub malloc : ℕ → Bool
  pub new_pcb : Option ℕ
  pub resolved : Resolved
  pub connect_err : ℕ
  pub write_err : ℕ
  pub close_err : ℕ

pub data Err : Type 0 where
  ok err_abrt : Err

-- `memchr` of a quotation mark: the bytes before it.
unfoldable pub until_quote : List ℕ → Option (List ℕ)
until_quote [] = none
until_quote (c ∷ cs) =
    let rest : Option (List ℕ) = elim (until_quote cs) [ none ↦ none | some t ↦ some (c ∷ t) ] in
    if c == b'"' then some [] else rest

-- `atoi`, with `none` for a result below 0. A number beyond `int` is undefined in C.
unfoldable pub atoi : List ℕ → Option ℕ
atoi t =
    let number = skip_space t in
    let value = scan_digits 0 (skip_sign number) in
    if is_minus number then (if value == 0 then some 0 else none) else some value

abbrev pub command_key : List ℕ
command_key = codes "\"command_string\":\""

-- `extract_co2_setpoint` of the bytes of a packet; `none` is a result below 0. The text is searched
-- up to its first NUL, the quotation mark in all bytes.
unfoldable pub extract_co2_setpoint : List ℕ → Option ℕ
extract_co2_setpoint buf =
    let text = c_string buf in
    elim (strstr text command_key) [
      | none ↦ none
      | some found ↦
          let cmd_start = drop (length text - length found + length command_key) buf in
          elim (until_quote cmd_start) [ none ↦ none | some command ↦ atoi (c_string command) ]
    ]

unfoldable pub tls_client_close : Net → Client → Err × Client
tls_client_close net s = elim s.pcb [
  | none ↦ (ok, record s { complete = true })
  | some h ↦
      let off =
        altcp_arg h false
        ∷ altcp_poll h false
        ∷ altcp_recv h false
        ∷ altcp_err h false
        ∷ altcp_close h
        ∷ [] in
      if net.close_err == 0
      then (ok, record s { complete = true; pcb = none; calls = s.calls ++ off })
      else (
        err_abrt,
        record s { complete = true; pcb = none; calls = s.calls ++ (off ++ altcp_abort h ∷ []) },
      )
]

-- `altcp_write` of the request, on the pcb of the state.
unfoldable pub send_request : Client → Client
send_request s = elim s.pcb [
  | none ↦ s
  | some h ↦ record s { calls = s.calls ++ altcp_write h s.http_request ∷ [] }
]

unfoldable pub tls_client_connected : Net → Client → ℕ → Err × Client
tls_client_connected net s err =
    if err == 0
    then (if net.write_err == 0
        then (ok, send_request s)
        else tls_client_close net (send_request s))
    else tls_client_close net s

unfoldable pub tls_client_poll : Net → Client → Err × Client
tls_client_poll net s = tls_client_close net (record s { error = timeout })

unfoldable pub tls_client_err : Net → Client → Client
tls_client_err net s = record (tls_client_close net s).1 { error = generic }

-- `tls_client_recv` on the pcb `h`, with `none` for the end of the connection. The result is `none`
-- when `malloc` gives no memory, which is not looked at: the copy then goes to address 0.
unfoldable pub tls_client_recv : Net → Client → ℕ → Option Pbuf → Option (Err × Client)
tls_client_recv net s h none = some (tls_client_close net s)
tls_client_recv net s h (some p) =
    let buf = p.copy_partial p.tot_len 0 in
    let setpoint : ℕ = elim (extract_co2_setpoint buf) [ none ↦ s.co2_setpoint | some v ↦ v ] in
    if p.tot_len == 0
    then some (ok, record s { calls = s.calls ++ pbuf_free ∷ [] })
    else if not (net.malloc (p.tot_len + 1))
    then none
    else some (
      ok,
      record s {
        co2_setpoint = setpoint;
        calls = s.calls ++ altcp_recved h p.tot_len ∷ pbuf_free ∷ [];
      },
    )

-- `altcp_connect` to the port 443, on the pcb of the state.
unfoldable pub request_connection : List ℕ → Client → Client
request_connection ipaddr s = elim s.pcb [
  | none ↦ s
  | some h ↦ record s { calls = s.calls ++ altcp_connect h ipaddr 443 ∷ [] }
]

unfoldable pub tls_client_connect_to_server_ip : Net → List ℕ → Client → Client
tls_client_connect_to_server_ip net ipaddr s =
    let asked = request_connection ipaddr s in
    if net.connect_err == 0 then asked else (tls_client_close net asked).1

unfoldable pub tls_client_dns_found : Net → Option (List ℕ) → Client → Client
tls_client_dns_found net none s = (tls_client_close net s).1
tls_client_dns_found net (some ipaddr) s = tls_client_connect_to_server_ip net ipaddr s

-- The set-up of a pcb in `tls_client_open`.
unfoldable pub set_up : ℕ → List ℕ → Client → Client
set_up h hostname s =
    let on =
      altcp_arg h true
      ∷ altcp_poll h true
      ∷ altcp_recv h true
      ∷ altcp_err h true
      ∷ set_hostname h hostname
      ∷ [] in
    record s { pcb = some h; calls = s.calls ++ on }

-- `tls_client_open`; `none` is the close with the pcb in place of the state, whose effect C leaves
-- undefined.
unfoldable pub tls_client_open : Net → List ℕ → Client → Option (Bool × Client)
tls_client_open net hostname s = elim net.new_pcb [
  | none ↦ some (false, record s { pcb = none })
  | some h ↦ elim net.resolved [
    | cached ipaddr ↦ some (true, tls_client_connect_to_server_ip net ipaddr (set_up h hostname s))
    | in_progress ↦ some (true, set_up h hostname s)
    | failed ↦ none
  ]
]

-- The callbacks of lwIP. `tls_client_err` stores `complete` before `error`; `err true` is one between
-- whose two stores the loop of `run_tls_client_test` tests `complete`.
pub data Event : Type 0 where
  dns_found : Option (List ℕ) → Event
  connected : ℕ → Event
  poll : Event
  err : Bool → Event
  recv : ℕ → Option Pbuf → Event

-- The state that the loop meets behind a callback; `none` is one that writes to address 0.
unfoldable pub step : Net → Client → Event → Option Client
step net s (dns_found ipaddr) = some (tls_client_dns_found net ipaddr s)
step net s (connected e) = some (tls_client_connected net s e).1
step net s poll = some (tls_client_poll net s).1
step net s (err true) = some (tls_client_close net s).1
step net s (err false) = some (tls_client_err net s)
step net s (recv h p) = elim (tls_client_recv net s h p) [ none ↦ none | some r ↦ some r.1 ]

-- How the loop of `run_tls_client_test` ends, or that it goes on.
pub data Loop : Type 0 where
  ended : Client → Loop
  going lost : Loop

-- The loop over the callbacks that come. It is taken to test `complete` behind each of them.
unfoldable pub wait : Net → List Event → Client → Loop
wait net [] s = if s.complete then ended s else going
wait net (e ∷ events) s = elim s.complete [
  | true ↦ ended s
  | false ↦ elim (step net s e) [ none ↦ lost | some s' ↦ wait net events s' ]
]

abbrev pub has_no_error : ClientError → Bool
has_no_error no_error = true
has_no_error e = false

-- How `run_tls_client_test` ends: with a value, with the setpoint and the calls so far; in the
-- loop; or undefined.
pub data Run : Type 0 where
  returned : Bool → Client → Run
  waiting undefined : Run

abbrev pub verdict : Loop → Run
verdict going = waiting
verdict lost = undefined
verdict (ended s) = returned (has_no_error s.error) s

abbrev pub init : List ℕ → ℕ → Client
init request co2_setpoint = record {
  pcb = none;
  complete = false;
  error = no_error;
  http_request = request;
  co2_setpoint = co2_setpoint;
  calls = [];
}

-- `run_tls_client_test`, with the setpoint before. It asserts that there is a TLS configuration.
unfoldable pub run_tls_client_test : Net → List ℕ → List ℕ → ℕ → List Event → Run
run_tls_client_test net server request setpoint events =
    let s = init request setpoint in
    if not net.has_config
    then undefined
    else if net.has_memory
    then elim (tls_client_open net server s) [
      | none ↦ undefined
      | some (is_open, s') ↦ if is_open then verdict (wait net events s') else returned false s'
    ]
    else returned false s
