-- ===== src/TcpServer/Requests.antt =====
-- src/src/Network/tcpserver.cpp: the request line, and what a browser gets for it.
use pico_drone.Common.{
  ℕ, zero, suc, ◌-◌, ◌≤◌, ◌<◌, min, ◌≡◌, refl, ap, sym, ◌∙◌, subst, inl, inr, some, Bool, true,
  false, ◌&&◌, ◌||◌, List, [], ◌∷◌, ◌++◌, ◌==◌, if◌then◌else◌, length, take, drop, replicate,
  length-replicate, blit, length-blit, arith, Option-cases,
}
use pico_drone.Common.Append.{blit_start}
use pico_drone.Common.Pbuf.{pbuf_of}
use pico_drone.Common.Text.{
  codes, c_string, strcmp, strncmp, strstr, skip_space, isspace, sscanf_s, HasNoNul, IsWord,
  c_string-append, word-append, take_all,
}
use pico_drone.TcpServer.{Connection, Net}
use pico_drone.TcpServer.Pages.{connect_response_body, connect_form_body}
use pico_drone.TcpServer.Response.{IsAnswer, answer-IsAnswer}
use pico_drone.TcpServer.Config.{
  page_for, find_body, is_some, answer, tcp_server_recv, headers_size, result_size,
}

-- A request line of either method, and what follows.
abbrev pub request_of : Bool → List ℕ → List ℕ → List ℕ
request_of true path rest = codes "POST " ++ (path ++ 32 ∷ rest)
request_of false path rest = codes "GET " ++ (path ++ 32 ∷ rest)

-- The format that is printed for it: the answer to a filled-in form, or the form.
abbrev pub format_for : Bool → List ℕ → List ℕ → List ℕ
format_for post path rest =
    if post
      && (strcmp path (codes "/connect")
          && is_some (strstr (request_of post path rest) (codes "\r\n\r\n")))
    then connect_response_body
    else connect_form_body

headers_of : List ℕ → List ℕ
headers_of t = t ++ 0 ∷ drop (suc (length t)) (replicate headers_size 0)

zeros_from :
    (n size : ℕ)
    → n < size
    → drop {A = ℕ} n (replicate size 0) ≡ 0 ∷ drop (suc n) (replicate size 0)
zeros_from n zero h = absurd (omega arith)
zeros_from zero (suc size) h = refl
zeros_from (suc n) (suc size) h = zeros_from n size (omega arith)

-- A first request is copied whole, with zeros behind it.
first_copied :
    (t : List ℕ)
    → length t < headers_size
    → blit (replicate headers_size 0) 0 (take (min (length t) (headers_size - 1)) t) ≡ headers_of t
unfolding headers_of
first_copied t fits =
    let all = take_all (min (length t) (headers_size - 1)) t (omega arith) in
    let zeros = length-replicate {A = ℕ} headers_size 0 in
    rw all (
      blit_start (replicate headers_size 0) t (omega arith)
      ∙ ap (λ l. t ++ l) (zeros_from (length t) headers_size fits))

c_string-headers_of : (t : List ℕ) → HasNoNul t → c_string (headers_of t) ≡ t
unfolding headers_of
c_string-headers_of t nuls =
    c_string-append t (drop (suc (length t)) (replicate headers_size 0)) nuls

recv-answer :
    (printf : List ℕ → List ℕ) (net : Net) (con : Connection) (t : List ℕ)
    → con.headers ≡ replicate headers_size 0
    → length t < headers_size
    → 0 < length t
    → HasNoNul t
    → strncmp (codes "GET") t || strncmp (codes "POST") t ≡ true
    → tcp_server_recv printf net con (some (pbuf_of t))
      ≡ answer printf net (record con { headers = headers_of t }) (length t)
unfolding tcp_server_recv
recv-answer printf net con t zeros fits some_ nuls verb =
    let held = c_string-headers_of t nuls in
    let copied =
      ap (λ h. blit h 0 (take (min (length t) (headers_size - 1)) t)) zeros ∙ first_copied t fits in
    let nonempty : (length t == 0) ≡ false = ground arith in
    rw (nonempty, copied, held, verb, tcp_server_recv) refl

path_lem :
    (path rest : List ℕ)
    → IsWord path
    → 0 < length path
    → length path ≤ 127
    → sscanf_s 127 (path ++ 32 ∷ rest) ≡ path
unfolding sscanf_s skip_space isspace
path_lem [] rest w some_ short = absurd (omega arith)
path_lem (c ∷ cs) rest (hc, w) some_ short =
    rw hc (word-append 127 (c ∷ cs) 32 rest (hc, w) short refl)

space_lem : (t : List ℕ) → sscanf_s 127 (32 ∷ t) ≡ sscanf_s 127 t
unfolding sscanf_s skip_space isspace
space_lem t = refl

path_of :
    (post : Bool) (path rest : List ℕ)
    → IsWord path
    → 0 < length path
    → length path ≤ 127
    → HasNoNul (path ++ 32 ∷ rest)
    → sscanf_s 127 (c_string (drop 4 (headers_of (request_of post path rest)))) ≡ path
unfolding headers_of
path_of true path rest w some_ short nuls =
    ap (sscanf_s 127) (c_string-append (32 ∷ (path ++ 32 ∷ rest)) _ (omega arith, nuls))
    ∙ space_lem (path ++ 32 ∷ rest)
    ∙ path_lem path rest w some_ short
path_of false path rest w some_ short nuls =
    ap (sscanf_s 127) (c_string-append (path ++ 32 ∷ rest) _ nuls)
    ∙ path_lem path rest w some_ short

has_body_lem :
    (path rest : List ℕ)
    → is_some (find_body (request_of true path rest))
      ≡ is_some (strstr (request_of true path rest) (codes "\r\n\r\n"))
unfolding find_body strncmp
has_body_lem path rest =
    elim (Option-cases (strstr (request_of true path rest) (codes "\r\n\r\n"))) [
      | inl e ↦ rw (e, find_body) refl
      | inr (body, e) ↦ rw (e, find_body) refl
    ]

no_body_lem : (path rest : List ℕ) → is_some (find_body (request_of false path rest)) ≡ false
unfolding find_body strncmp
no_body_lem path rest = refl

format_lem :
    (post : Bool) (path rest : List ℕ)
    → page_for path (is_some (find_body (request_of post path rest))) ≡ format_for post path rest
unfolding page_for
format_lem true path rest = rw (has_body_lem path rest) (ground arith)
format_lem false path rest = rw (no_body_lem path rest) (ground arith)

request-HasNoNul :
    (post : Bool) (path rest : List ℕ)
    → HasNoNul (path ++ 32 ∷ rest)
    → HasNoNul (request_of post path rest)
request-HasNoNul true path rest nuls =
    (omega arith, (omega arith, (omega arith, (omega arith, (omega arith, nuls)))))
request-HasNoNul false path rest nuls =
    (omega arith, (omega arith, (omega arith, (omega arith, nuls))))

request-positive : (post : Bool) (path rest : List ℕ) → 0 < length (request_of post path rest)
request-positive true path rest = omega arith
request-positive false path rest = omega arith

verb_lem :
    (post : Bool) (path rest : List ℕ)
    → strncmp (codes "GET") (request_of post path rest)
        || strncmp (codes "POST") (request_of post path rest)
      ≡ true
unfolding strncmp
verb_lem true path rest = refl
verb_lem false path rest = refl

length-headers_of : (t : List ℕ) → length t < headers_size → length (headers_of t) ≡ headers_size
length-headers_of t fits =
    ap length (sym (first_copied t fits))
    ∙ length-blit (replicate headers_size 0) 0 (take (min (length t) (headers_size - 1)) t)
    ∙ length-replicate {A = ℕ} headers_size 0

-- On a connection whose array is still zero, and with both calls of `tcp_write` successful: a GET or
-- POST with a path of 1 to 127 bytes, no NUL, and less than 2048 bytes in all is answered with a
-- page and its length, if the text that `snprintf` makes of the page's format has 1 to 2047 bytes.
-- The format is the one for a filled-in form if the method is POST, the path `/connect`, and an
-- empty line is in the request; else it is the one of the form.
pub recv-page :
    (printf : List ℕ → List ℕ) (net : Net) (con : Connection) (post : Bool) (path rest : List ℕ)
    → net.header_err ≡ 0
    → net.result_err ≡ 0
    → con.headers ≡ replicate headers_size 0
    → length con.result ≡ result_size
    → IsWord path
    → 0 < length path
    → length path ≤ 127
    → HasNoNul (path ++ 32 ∷ rest)
    → length (request_of post path rest) < headers_size
    → 0 < length (printf (format_for post path rest))
    → length (printf (format_for post path rest)) < result_size
    → let request = request_of post path rest in
      IsAnswer con
        (printf (format_for post path rest))
        (length request)
        (tcp_server_recv printf net con (some (pbuf_of request)))
recv-page printf net con post path rest e e' zeros rs w some_ short nuls fits nonempty small =
    let t = request_of post path rest in
    let copied = record con { headers = headers_of t } in
    let asked = path_of post path rest w some_ short nuls in
    let text = c_string-headers_of t (request-HasNoNul post path rest nuls) in
    let page = ap printf (
      sym (format_lem post path rest)
      ∙ ap (λ h. page_for path (is_some (find_body h))) (sym text)
      ∙ ap (λ p. page_for p (is_some (find_body (c_string (headers_of t))))) (sym asked)) in
    let ran =
      recv-answer printf net con t zeros fits (request-positive post path rest)
        (request-HasNoNul post path rest nuls) (verb_lem post path rest) in
    subst (IsAnswer con (printf (format_for post path rest)) (length t)) (sym ran) (
      answer-IsAnswer printf net copied (printf (format_for post path rest)) (length t) e e'
        (length-headers_of t fits) rs page nonempty small)
