-- ===== src/TcpServer/Config.antt =====
-- src/src/Network/tcpserver.cpp: a request for the configuration page.
use pico_drone.Common.{
  ℕ, ◌-◌, min, Option, none, some, Bool, true, false, ◌||◌, List, [], ◌∷◌, ◌==◌, ltb, if◌then◌else◌,
  drop, blit,
}
use pico_drone.Common.Pbuf.{Pbuf}
use pico_drone.Common.Text.{codes, c_string, strcmp, strncmp, strstr, sscanf_s, snprintf}
use pico_drone.TcpServer.{
  ok, err_clsd, tcp_recved, pbuf_free, Connection, Outcome, Net, Server,
  tcp_close_client_connection, respond, tcp_server_accept,
}
use pico_drone.TcpServer.Pages.{response_headers, connect_response_body, connect_form_body}

-- The sizes of `headers` and `result`.
abbrev pub headers_size : ℕ
headers_size = 2048

abbrev pub result_size : ℕ
result_size = 2048

-- The format that `handle_request` prints, at the path and whether there is a body.
unfoldable pub page_for : List ℕ → Bool → List ℕ
page_for path has_body =
    if strcmp path (codes "/connect")
    then (if has_body then connect_response_body else connect_form_body)
    else connect_form_body

-- `handle_request`; `printf` prints a format with no arguments. The credentials of the body are
-- parsed and printed only.
unfoldable pub handle_request : (List ℕ → List ℕ) → List ℕ → Bool → List ℕ → ℕ × List ℕ
handle_request printf request has_body result =
    let path = sscanf_s 127 request in snprintf result result_size (printf (page_for path has_body))

-- The body pointer of `tcp_server_recv`, or NULL.
unfoldable pub find_body : List ℕ → Option (List ℕ)
find_body request =
    if strncmp (codes "POST") request
    then elim (strstr request (codes "\r\n\r\n")) [ none ↦ none | some rest ↦ some (drop 4 rest) ]
    else none

abbrev pub is_some : Option (List ℕ) → Bool
is_some none = false
is_some (some x) = true

-- The branch of `tcp_server_recv` for GET and POST.
unfoldable pub answer : (List ℕ → List ℕ) → Net → Connection → ℕ → Outcome
answer printf net con tot_len =
    let text = c_string con.headers in
    let request = c_string (drop 4 con.headers) in
    let (result_len, result) =
      handle_request printf request (is_some (find_body text)) con.result in
    let con1 = record con { result = result; result_len = result_len } in
    let (header_len, headers) =
      snprintf con.headers headers_size (response_headers 200 result_len) in
    let con2 = record con1 { headers = headers; header_len = header_len } in
    if ltb (result_size - 1) result_len
    then tcp_close_client_connection net con.pcb err_clsd
    else if ltb 0 result_len
    then (if ltb (headers_size - 1) header_len
        then tcp_close_client_connection net con.pcb err_clsd
        else respond net con2 tot_len)
    else respond net con1 tot_len

-- `tcp_server_recv`; `none` is the end of the connection.
unfoldable pub tcp_server_recv : (List ℕ → List ℕ) → Net → Connection → Option Pbuf → Outcome
tcp_server_recv printf net con none = tcp_close_client_connection net con.pcb ok
tcp_server_recv printf net con (some p) =
    let copied = p.copy_partial (min p.tot_len (headers_size - 1)) 0 in
    let con' = record con { headers = blit con.headers 0 copied } in
    let text = c_string con'.headers in
    let taken : Outcome = record {
      err = ok;
      con = some con';
      calls = tcp_recved con.pcb p.tot_len ∷ pbuf_free ∷ [];
    } in
    if p.tot_len == 0
    then record { err = ok; con = some con; calls = pbuf_free ∷ [] }
    else if strncmp (codes "GET") text || strncmp (codes "POST") text
    then answer printf net con' p.tot_len
    else taken

-- `tcp_server_accept` with the arrays of this file.
unfoldable pub accept : Net → Server → Option ℕ → ℕ → Outcome
accept net s client_pcb err = tcp_server_accept headers_size result_size net s client_pcb err
