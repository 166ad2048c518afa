-- ===== src/TcpServer/AccessPoint.antt =====
-- src/ipstack/picow_access_point.c: the page of the LED. The life of a connection is the same code
-- as in src/src/Network/tcpserver.cpp.
use pico_drone.Common.{
  ℕ, ◌+◌, ◌-◌, min, Option, none, some, Bool, true, false, not, ◌&&◌, ◌||◌, List, [], ◌∷◌, ◌++◌,
  ◌==◌, ltb, leb, if◌then◌else◌, drop, blit, set,
}
use pico_drone.Common.Pbuf.{Pbuf}
use pico_drone.Common.Text.{
  codes, c_string, strncmp, skip_space, skip_sign, scan_digits, print_d, snprintf,
}
use pico_drone.TcpServer.{
  Err, ok, err_clsd, Call, tcp_recved, pbuf_free, gpio_set, Connection, Outcome, Net, Server,
  respond,
}
use pico_drone.TcpServer
use pico_drone.TcpServer.Pages.{response_headers}

abbrev pub headers_size : ℕ
headers_size = 128

abbrev pub result_size : ℕ
result_size = 256

unfoldable pub tcp_close_client_connection : Net → ℕ → Err → Outcome
tcp_close_client_connection net h close_err = TcpServer.tcp_close_client_connection net h close_err

unfoldable pub tcp_server_close : Server → Server × List Call
tcp_server_close s = TcpServer.tcp_server_close s

unfoldable pub tcp_server_sent : Net → Connection → ℕ → Outcome
tcp_server_sent net con len = TcpServer.tcp_server_sent net con len

unfoldable pub tcp_server_poll : Net → Connection → Outcome
tcp_server_poll net con = TcpServer.tcp_server_poll net con

unfoldable pub tcp_server_err : Net → Connection → Err → Outcome
tcp_server_err net con e = TcpServer.tcp_server_err net con e

unfoldable pub tcp_server_accept : Net → Server → Option ℕ → ℕ → Outcome
tcp_server_accept net s client_pcb err =
    TcpServer.tcp_server_accept headers_size result_size net s client_pcb err

unfoldable pub tcp_server_open : Net → Server → Bool × (Server × List Call)
tcp_server_open net s = TcpServer.tcp_server_open net s

-- `LED_TEST_BODY`
unfoldable pub led_test_body : List ℕ → ℕ → List ℕ → List ℕ
led_test_body state value turn =
    codes "<html><body><h1>Hello from Pico W.</h1><p>Led is "
    ++ (state
        ++ (codes "</p><p><a href=\"?led="
            ++ (print_d value ++ (codes "\">Turn led " ++ (turn ++ codes "</a></body></html>")))))

-- `HTTP_RESPONSE_REDIRECT`
unfoldable pub response_redirect : List ℕ → List ℕ
response_redirect address =
    codes "HTTP/1.1 302 Redirect\nLocation: http://" ++ (address ++ codes "/ledtest\n\n")

-- `sscanf (params, "led=%d", …)`: whether the number that it stores is not 0, if it stores one.
unfoldable pub scan_led : List ℕ → Option Bool
scan_led params =
    let number = skip_sign (skip_space (drop 4 params)) in
    if strncmp (codes "led=") params
    then elim number [
      | [] ↦ none
      | c ∷ cs ↦ if leb b'0' c && leb c b'9' then some (not (scan_digits 0 (c ∷ cs) == 0)) else none
    ]
    else none

abbrev pub led_page : Bool → List ℕ
led_page true = led_test_body (codes "ON") 0 (codes "OFF")
led_page false = led_test_body (codes "OFF") 1 (codes "ON")

abbrev pub scan_params : Option (List ℕ) → Option Bool
scan_params none = none
scan_params (some params) = scan_led params

-- `test_server_content` with the state of the LED: what `snprintf` returns, the result, and the
-- setting of the LED.
unfoldable pub test_server_content :
    Bool → List ℕ → Option (List ℕ) → List ℕ → (ℕ × List ℕ) × List Call
test_server_content led request params result =
    if strncmp (codes "/ledtest") request
    then elim (scan_params params) [
      | none ↦ (snprintf result result_size (led_page led), [])
      | some on ↦ (snprintf result result_size (led_page on), gpio_set on ∷ [])
    ]
    else ((0, result), [])

-- `strchr`: the index of a byte in a text.
unfoldable pub strchr : List ℕ → ℕ → Option ℕ
strchr [] b = none
strchr (c ∷ cs) b =
    let rest : Option ℕ = elim (strchr cs b) [ none ↦ none | some i ↦ some (i + 1) ] in
    if c == b then some 0 else rest

-- `*p = 0` at an index of the request, if there is a pointer.
abbrev pub cut : List ℕ → Option ℕ → List ℕ
cut headers none = headers
cut headers (some i) = set headers (4 + i) 0

-- The request, its parameters and `headers` once the pointers of `tcp_server_recv` are cut off.
-- The second test of `params` holds at each pointer to a question mark.
unfoldable pub split_request : List ℕ → List ℕ × (Option (List ℕ) × List ℕ)
split_request headers =
    let request = c_string (drop 4 headers) in
    elim (strchr request b'?') [
      | none ↦ (request, (none, headers))
      | some i ↦
          let headers' = cut (cut headers (some i)) (strchr request b' ') in
          (c_string (drop 4 headers'), (some (c_string (drop (4 + i + 1) headers')), headers'))
    ]

-- The branch of `tcp_server_recv` for GET.
unfoldable pub answer : Bool → Net → Connection → ℕ → Outcome
answer led net con tot_len =
    let (request, (params, headers)) = split_request con.headers in
    let ((result_len, result), leds) = test_server_content led request params con.result in
    let con1 = record con { headers = headers; result = result; result_len = result_len } in
    let text =
      if ltb 0 result_len then response_headers 200 result_len else response_redirect con.gw in
    let (header_len, headers') = snprintf headers headers_size text in
    let con2 = record con1 { headers = headers'; header_len = header_len } in
    let closed = tcp_close_client_connection net con.pcb err_clsd in
    let sent = respond net con2 tot_len in
    let too_much =
      ltb (result_size - 1) result_len || (ltb 0 result_len && ltb (headers_size - 1) header_len) in
    if too_much
    then record closed { calls = leds ++ closed.calls }
    else record sent { calls = leds ++ sent.calls }

-- `tcp_server_recv`; `none` is the end of the connection, `led` what `cyw43_gpio_get` reads.
unfoldable pub tcp_server_recv : Bool → Net → Connection → Option Pbuf → Outcome
tcp_server_recv led net con none = tcp_close_client_connection net con.pcb ok
tcp_server_recv led net con (some p) =
    let copied = p.copy_partial (min p.tot_len (headers_size - 1)) 0 in
    let con' = record con { headers = blit con.headers 0 copied } in
    let taken : Outcome = record {
      err = ok;
      con = some con';
      calls = tcp_recved con.pcb p.tot_len ∷ pbuf_free ∷ [];
    } in
    if p.tot_len == 0
    then record { err = ok; con = some con; calls = pbuf_free ∷ [] }
    else if strncmp (codes "GET") (c_string con'.headers)
    then answer led net con' p.tot_len
    else taken
