-- ===== src/Dns/Handler.antt =====
-- `dns_server_process` as a whole.
use pico_drone.Common.{
  ℕ, zero, suc, ◌+◌, ◌-◌, ◌*◌, ◌^◌, ◌≤◌, ◌<◌, ◌≡◌, refl, sym, ap, ◌∙◌, subst, ◌⊎◌, inl, inr, some,
  true, false, List, [], ◌∷◌, ◌++◌, arith, ltb, Bool, Bool-cases, length, take, drop, blit, get_or,
  length-take, length-drop, length-blit,
}
use pico_drone.Common.Append.{take-drop}
use pico_drone.Common.Pbuf.{Pbuf, IsPbuf}
use pico_drone.Dns.{
  Server, Env, Datagram, Walk, name_end, invalid, overrun, stuck, header_size, max_dns_msg_size,
  rounds, walk, is_query, after_name, respond, handle, process,
}
use pico_drone.Dns.Name.{Ended, walk-Ended}
use pico_drone.Dns.Response.{Header, header_bytes, reply_to, delivered, respond_lem}

drop_cons : (n : ℕ) (xs : List ℕ) → n < length xs → drop n xs ≡ get_or xs n 0 ∷ drop (suc n) xs
drop_cons n [] h = elim h [ ]
drop_cons zero (x ∷ xs) h = refl
drop_cons (suc n) (x ∷ xs) h = drop_cons n xs (omega arith)

-- The first twelve bytes of an array.
abbrev header_of : List ℕ → Header
header_of msg = record {
  id0 = get_or msg 0 0;
  id1 = get_or msg 1 0;
  flags0 = get_or msg 2 0;
  flags1 = get_or msg 3 0;
  questions0 = get_or msg 4 0;
  questions1 = get_or msg 5 0;
  answers0 = get_or msg 6 0;
  answers1 = get_or msg 7 0;
  authority0 = get_or msg 8 0;
  authority1 = get_or msg 9 0;
  additional0 = get_or msg 10 0;
  additional1 = get_or msg 11 0;
}

header_of_lem :
    (msg : List ℕ)
    → header_size ≤ length msg
    → msg ≡ header_bytes (header_of msg) ++ drop header_size msg
header_of_lem msg long =
    let at : (n : ℕ) → n < 12 → get_or msg n 0 ∷ drop (suc n) msg ≡ drop n msg =
      λ n lt. sym (drop_cons n msg (omega arith)) in
    rw
      (
        at 11 (omega arith),
        at 10 (omega arith),
        at 9 (omega arith),
        at 8 (omega arith),
        at 7 (omega arith),
        at 6 (omega arith),
        at 5 (omega arith),
        at 4 (omega arith),
        at 3 (omega arith),
        at 2 (omega arith),
        at 1 (omega arith),
        at 0 (omega arith),
      )
      refl

-- Whether the flags and the question count of a header are those of a standard query.
abbrev pub asks : Header → Bool
asks h = is_query (h.flags0 * 2 ^ 8 + h.flags1) (h.questions0 * 2 ^ 8 + h.questions1)

pub handle_lem :
    (env : Env) (d : Server) (h : Header) (rest : List ℕ) (n : ℕ) (src : List ℕ) (port : ℕ)
    → handle env d (header_bytes h ++ rest) n src port ≡ elim (asks h) [
      | true ↦
          after_name env d
            (header_bytes h ++ rest)
            (walk rounds (header_bytes h ++ rest) n header_size)
            src
            port
      | false ↦ some []
    ]
unfolding handle
handle_lem env d h rest n src port = refl

pub process_long :
    (env : Env) (stack : List ℕ) (d : Server) (p : Pbuf) (src : List ℕ) (port : ℕ)
    → header_size ≤ length (p.copy_partial max_dns_msg_size 0)
    → process env stack d p src port
      ≡ handle env d
          (blit stack 0 (p.copy_partial max_dns_msg_size 0))
          (length (p.copy_partial max_dns_msg_size 0))
          src
          port
unfolding process
process_long env stack d p src port long =
    let enough : ltb (length (p.copy_partial max_dns_msg_size 0)) header_size ≡ false =
      ground arith in
    rw enough refl

pub process_short :
    (env : Env) (stack : List ℕ) (d : Server) (p : Pbuf) (src : List ℕ) (port : ℕ)
    → length (p.copy_partial max_dns_msg_size 0) < header_size
    → process env stack d p src port ≡ some []
unfolding process
process_short env stack d p src port short =
    let few : ltb (length (p.copy_partial max_dns_msg_size 0)) header_size ≡ true = ground arith in
    rw few refl

-- An answer: the reply to the question that stands in the message, to the sender.
pub record Answered (env : Env) (d : Server) (msg src : List ℕ) (port : ℕ) (packets : List Datagram)
    : Type 0 where
  pub h : Header
  pub question : List ℕ
  pub tail : List ℕ
  pub message : msg ≡ header_bytes h ++ (question ++ tail)
  pub query : asks h ≡ true
  pub shortest : 4 ≤ length question
  pub longest : length question ≤ 255 + 4
  pub reply : packets ≡ delivered env (reply_to d h question src port)

respond-Answered :
    (env : Env) (d : Server) (h : Header) (rest : List ℕ) (n i : ℕ) (src : List ℕ) (port : ℕ)
    → length rest ≡ max_dns_msg_size - header_size
    → asks h ≡ true
    → i ≡ header_size + n
    → 4 ≤ n
    → n ≤ 255 + 4
    → (packets : List Datagram) × (respond env d (header_bytes h ++ rest) i src port ≡ some packets)
      × ((packets ≡ []) ⊎ Answered env d (header_bytes h ++ rest) src port packets)
respond-Answered env d h rest n i src port full query e four fits =
    let question = take n rest in
    let tail = drop n rest in
    let whole : length question ≡ n = omega (arith, length-take n rest) in
    let parts : header_bytes h ++ (question ++ tail) ≡ header_bytes h ++ rest =
      ap (λ l. header_bytes h ++ l) (take-drop n rest) in
    (
      delivered env (reply_to d h question src port),
      ap (λ m. respond env d m i src port) (sym parts)
          ∙ respond_lem env d h question tail i src port (omega arith) (omega arith)
              (omega (arith, length-drop n rest)),
      inr (record {
        h = h;
        question = question;
        tail = tail;
        message = sym parts;
        query = query;
        shortest = omega arith;
        longest = omega arith;
        reply = refl;
      }),
    )

-- Once the loop has ended, the packet is ignored or answered.
after_name-Answered :
    (env : Env) (d : Server) (h : Header) (rest : List ℕ) (w : Walk) (src : List ℕ) (port : ℕ)
    → length rest ≡ max_dns_msg_size - header_size
    → asks h ≡ true
    → Ended header_size w
    → (packets : List Datagram) × (after_name env d (header_bytes h ++ rest) w src port
        ≡ some packets)
      × ((packets ≡ []) ⊎ Answered env d (header_bytes h ++ rest) src port packets)
unfolding after_name
after_name-Answered env d h rest (name_end i) src port full query from =
    elim (Bool-cases (ltb 255 (i - header_size))) [
      | inl long ↦ ([], rw long, inl refl)
      | inr fits ↦ rw fits (
          respond-Answered env d h rest (i + 4 - header_size) (i + 4) src port full query
            (omega arith) (omega arith) (ground arith))
    ]
after_name-Answered env d h rest invalid src port full query from = ([], refl, inl refl)
after_name-Answered env d h rest overrun src port full query from = elim from [ ]
after_name-Answered env d h rest stuck src port full query from = elim from [ ]

-- With packets whose copies are as long as lwIP documents, every packet is handled with each read
-- and write inside `dns_msg`: it is ignored, or it is a standard query of at most 255 bytes of
-- name, and the sender is sent the id and the question back with the address of the board as the
-- one answer, if `pbuf_alloc` finds the memory.
pub process-Answered :
    (env : Env) (stack : List ℕ) (d : Server) (p : Pbuf) (src : List ℕ) (port : ℕ)
    → length stack ≡ max_dns_msg_size
    → IsPbuf p
    → (packets : List Datagram) × (process env stack d p src port ≡ some packets)
      × ((packets ≡ [])
          ⊎ Answered env d (blit stack 0 (p.copy_partial max_dns_msg_size 0)) src port packets)
process-Answered env stack d p src port full is_pbuf =
    elim (Bool-cases (ltb (length received) header_size)) [
      | inl short ↦ ([], process_short env stack d p src port (ground arith), inl refl)
      | inr long ↦
          let e : msg ≡ header_bytes h ++ rest = header_of_lem msg (omega (arith, whole)) in
          let step =
            process_long env stack d p src port (ground arith)
            ∙ ap (λ m. handle env d m (length received) src port) e
            ∙ handle_lem env d h rest (length received) src port in
          elim (Bool-cases (asks h)) [
            | inl query ↦
                let (packets, sent, kind) =
                  after_name-Answered env d h rest
                    (walk rounds (header_bytes h ++ rest) (length received) header_size) src port
                    (omega (arith, whole, length-drop header_size msg)) query
                    (walk-Ended rounds (header_bytes h ++ rest) (length received) header_size
                      (subst (λ m. length received ≤ length m) e (omega (arith, whole, at_most)))
                      (omega arith) (omega arith)) in
                (
                  packets,
                  step ∙ rw query sent,
                  subst (λ m. (packets ≡ []) ⊎ Answered env d m src port packets) (sym e) kind,
                )
            | inr other ↦ ([], step ∙ rw other refl, inl refl)
          ]
    ]
  where
    received : List ℕ
    received = p.copy_partial max_dns_msg_size 0

    msg : List ℕ
    msg = blit stack 0 received

    h : Header
    h = header_of msg

    rest : List ℕ
    rest = drop header_size msg

    whole : length msg ≡ max_dns_msg_size
    whole = length-blit stack 0 received ∙ full

    at_most : length received ≤ max_dns_msg_size
    at_most = omega (arith, is_pbuf max_dns_msg_size 0)
