-- ===== src/TcpServer/Acks.antt =====
-- src/src/Network/tcpserver.cpp: the acknowledgements of an answer, counted by `tcp_server_sent`.
use pico_drone.Common.{
  ℕ, ◌+◌, ◌≤◌, ◌<◌, ◌≡◌, refl, ap, ◌∙◌, inl, inr, Option, none, some, true, false, List, [], ◌∷◌,
  ◌==◌, leb, if◌then◌else◌, arith, Bool-cases,
}
use pico_drone.TcpServer.{Connection, Net, tcp_server_sent, tcp_close_client_connection}

abbrev pub sum : List ℕ → ℕ
sum [] = 0
sum (n ∷ ns) = n + sum ns

-- The state of a connection behind acknowledgements of the given lengths.
abbrev pub run_acks : Net → Option Connection → List ℕ → Option Connection
run_acks net none lens = none
run_acks net (some con) [] = some con
run_acks net (some con) (len ∷ lens) = run_acks net (tcp_server_sent net con len).con lens

abbrev pub total : Connection → ℕ
total con = con.header_len + con.result_len

run_acks-none : (net : Net) (lens : List ℕ) → run_acks net none lens ≡ none
run_acks-none net lens = refl

sent_more :
    (net : Net) (con : Connection) (len : ℕ)
    → con.sent_len + len < total con
    → (tcp_server_sent net con len).con ≡ some (record con { sent_len = con.sent_len + len })
unfolding tcp_server_sent
sent_more net con len h =
    let more : leb (total con) (con.sent_len + len) ≡ false = ground arith in
    rw (more, tcp_server_sent) refl

sent_done :
    (net : Net) (con : Connection) (len : ℕ)
    → total con ≤ con.sent_len + len
    → (tcp_server_sent net con len).con ≡ none
unfolding tcp_server_sent tcp_close_client_connection
sent_done net con len h =
    let done : leb (total con) (con.sent_len + len) ≡ true = ground arith in
    elim (Bool-cases (net.close_err == 0)) [
      | inl e ↦ rw (done, e, tcp_server_sent, tcp_close_client_connection) refl
      | inr e ↦ rw (done, e, tcp_server_sent, tcp_close_client_connection) refl
    ]

-- A connection with an answer under way stays, with its count, as long as the
-- acknowledgements are less than the headers and the page together, and is closed by the one that
-- reaches their length, however they are cut.
pub run_acks-closes :
    (net : Net) (con : Connection) (lens : List ℕ)
    → con.sent_len < total con
    → run_acks net (some con) lens ≡ (
        if leb (total con) (con.sent_len + sum lens)
        then none
        else some (record con { sent_len = con.sent_len + sum lens }))
run_acks-closes net con [] open_ =
    let same : con.sent_len + 0 ≡ con.sent_len = omega arith in
    let more : leb (total con) (con.sent_len + 0) ≡ false = ground arith in rw (more, same) refl
run_acks-closes net con (len ∷ lens) open_ =
    let con' = record con { sent_len = con.sent_len + len } in
    elim (Bool-cases (leb (total con) (con.sent_len + len))) [
      | inl done ↦
          let h : total con ≤ con.sent_len + len = ground arith in
          let all : leb (total con) (con.sent_len + (len + sum lens)) ≡ true = ground arith in
          ap (λ c. run_acks net c lens) (sent_done net con len h)
          ∙ run_acks-none net lens
          ∙ rw all refl
      | inr more ↦
          let h : con.sent_len + len < total con = ground arith in
          let same : con.sent_len + len + sum lens ≡ con.sent_len + (len + sum lens) =
            omega arith in
          ap (λ c. run_acks net c lens) (sent_more net con len h)
          ∙ (run_acks-closes net con' lens h
              ∙ ap (λ n. if leb (total con) n then none else some (record con { sent_len = n }))
                  same)
    ]
