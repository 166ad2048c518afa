-- ===== src/TcpServer/Response.antt =====
-- src/src/Network/tcpserver.cpp: what a browser gets for a request.
use pico_drone.Common.{
  ℕ, ◌+◌, ◌-◌, ◌<◌, ◌≡◌, refl, ap, sym, ◌∙◌, subst, some, true, false, List, [], ◌∷◌, ◌++◌, ◌==◌,
  ltb, length, take, drop, arith,
}
use pico_drone.Common.Append.{take-append}
use pico_drone.Common.Text.{c_string, sscanf_s, snprintf, snprintf_lem}
use pico_drone.TcpServer.{ok, tcp_write, tcp_recved, pbuf_free, Connection, Outcome, Net, respond}
use pico_drone.TcpServer.Pages.{response_headers, length-response_headers}
use pico_drone.TcpServer.Config.{
  page_for, handle_request, find_body, is_some, answer, headers_size, result_size,
}

-- The outcome of an answer with a page: both texts are sent, the packet is taken.
abbrev pub IsAnswer : Connection → List ℕ → ℕ → Outcome → Type 0
IsAnswer con page n o =
    (o.err ≡ ok)
    × (o.calls
        ≡ tcp_write con.pcb (response_headers 200 (length page))
          ∷ tcp_write con.pcb page
          ∷ tcp_recved con.pcb n
          ∷ pbuf_free
          ∷ [])
    × ((con' : Connection) × (o.con ≡ some con')
        × (con'.pcb ≡ con.pcb)
        × (con'.sent_len ≡ 0)
        × (con'.header_len ≡ length (response_headers 200 (length page)))
        × (con'.result_len ≡ length page))

respond-IsAnswer :
    (net : Net) (con : Connection) (page : List ℕ) (n : ℕ)
    → net.header_err ≡ 0
    → net.result_err ≡ 0
    → 0 < length page
    → take con.header_len con.headers ≡ response_headers 200 (length page)
    → con.header_len ≡ length (response_headers 200 (length page))
    → take con.result_len con.result ≡ page
    → con.result_len ≡ length page
    → IsAnswer con page n (respond net con n)
unfolding respond
respond-IsAnswer net con page n e e' some_ headers header_len result result_len =
    let fine : (net.header_err == 0) ≡ true = ground arith in
    let fine' : (net.result_err == 0) ≡ true = ground arith in
    let more : (con.result_len == 0) ≡ false = ground arith in
    rw (fine, more, fine', respond)
      (
        refl,
        rw (headers, result) refl,
        (record con { sent_len = 0 }, refl, refl, refl, header_len, result_len),
      )

-- A page that is not too long is sent with its headers.
answer-respond :
    (printf : List ℕ → List ℕ) (net : Net) (con : Connection) (n : ℕ)
    → (len header_len : ℕ) (result headers : List ℕ)
    → handle_request printf
        (c_string (drop 4 con.headers))
        (is_some (find_body (c_string con.headers)))
        con.result
      ≡ (len, result)
    → snprintf con.headers headers_size (response_headers 200 len) ≡ (header_len, headers)
    → 0 < len
    → len < result_size
    → header_len < headers_size
    → answer printf net con n
      ≡ respond net
          (record con {
            result = result;
            result_len = len;
            headers = headers;
            header_len = header_len;
          })
          n
unfolding answer
answer-respond printf net con n len header_len result headers asked printed some_ fits fits' =
    let small : ltb (result_size - 1) len ≡ false = ground arith in
    let small' : ltb (headers_size - 1) header_len ≡ false = ground arith in
    let pos : ltb 0 len ≡ true = ground arith in
    rw (asked, printed, small, small', pos, answer) refl

pub answer-IsAnswer :
    (printf : List ℕ → List ℕ) (net : Net) (con : Connection) (page : List ℕ) (n : ℕ)
    → net.header_err ≡ 0
    → net.result_err ≡ 0
    → length con.headers ≡ headers_size
    → length con.result ≡ result_size
    → page
      ≡ printf (
          page_for
            (sscanf_s 127 (c_string (drop 4 con.headers)))
            (is_some (find_body (c_string con.headers))))
    → 0 < length page
    → length page < result_size
    → IsAnswer con page n (answer printf net con n)
unfolding handle_request
answer-IsAnswer printf net con page n e e' hs rs is_page some_ fits =
    let short = length-response_headers 200 (length page) in
    let text = response_headers 200 (length page) in
    let stored = snprintf_lem con.result result_size page fits (omega arith) in
    let stored' = snprintf_lem con.headers headers_size text (omega arith) (omega arith) in
    let result = page ++ 0 ∷ drop (length page + 1) con.result in
    let headers = text ++ 0 ∷ drop (length text + 1) con.headers in
    let asked = ap (λ p. snprintf con.result result_size p) (sym is_page) ∙ stored in
    let sent = record con {
      result = result;
      result_len = length page;
      headers = headers;
      header_len = length text;
    } in
    let ran =
      answer-respond printf net con n (length page) (length text) result headers asked stored' some_
        fits (omega arith) in
    subst (IsAnswer con page n) (sym ran) (
      respond-IsAnswer net sent page n e e' some_ (take-append (length text) text _ refl) refl
        (take-append (length page) page _ refl) refl)
