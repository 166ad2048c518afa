-- ===== src/Dns/Response.antt =====
-- The reply to a query: what the writes into `dns_msg` make of it.
use mathlib.Core.List.{append_assoc}
use pico_drone.Common.{
  ℕ, ◌+◌, ◌≤◌, ◌≡◌, sym, ap, ◌∙◌, some, false, List, [], ◌∷◌, ◌++◌, arith, ltb, if◌then◌else◌,
  length, drop, length-take, length-append,
}
use pico_drone.Common.Append.{blit_start, take-append, blit-append}
use pico_drone.Dns.{
  Server, Env, Datagram, header_size, max_dns_msg_size, socket_sendto, reply_fields, answer,
  respond,
}

-- `dns_header_t`, byte by byte.
pub record Header : Type 0 where
  pub id0 : ℕ
  pub id1 : ℕ
  pub flags0 : ℕ
  pub flags1 : ℕ
  pub questions0 : ℕ
  pub questions1 : ℕ
  pub answers0 : ℕ
  pub answers1 : ℕ
  pub authority0 : ℕ
  pub authority1 : ℕ
  pub additional0 : ℕ
  pub additional1 : ℕ

abbrev pub header_bytes : Header → List ℕ
header_bytes h =
    h.id0 ∷ h.id1 ∷ h.flags0 ∷ h.flags1 ∷ h.questions0 ∷ h.questions1 ∷ h.answers0 ∷ h.answers1
    ∷ h.authority0 ∷ h.authority1 ∷ h.additional0 ∷ h.additional1 ∷ []

-- A response (0x8480) to one question, with one answer, under the id of the query.
abbrev pub reply_header : Header → List ℕ
reply_header h = h.id0 ∷ h.id1 ∷ 0x84 ∷ 0x80 ∷ 0 ∷ 1 ∷ 0 ∷ 1 ∷ 0 ∷ 0 ∷ 0 ∷ 0 ∷ []

-- What a client gets for a question: the question as it stands, and the answer.
abbrev pub reply_to : Server → Header → List ℕ → List ℕ → ℕ → Datagram
reply_to d h question src port = record {
  payload = reply_header h ++ (question ++ answer d.ip);
  dest = src;
  port = port;
}

-- The packet goes out if `pbuf_alloc` finds the memory.
abbrev pub delivered : Env → Datagram → List Datagram
delivered env q = if env.pbuf_alloc (length q.payload) then q ∷ [] else []

socket_sendto_lem :
    (env : Env) (buf tail : List ℕ) (n : ℕ) (src : List ℕ) (port : ℕ)
    → n ≡ length buf
    → n ≤ 0xffff
    → (socket_sendto env (buf ++ tail) n src port).1
      ≡ delivered env (record { payload = buf; dest = src; port = port })
unfolding socket_sendto
socket_sendto_lem env buf tail n src port e small =
    ground (arith, take-append n buf tail e, ap env.pbuf_alloc e)

pub length-answer : (ip : List ℕ) → length (answer ip) ≤ 16
length-answer ip = omega (arith, length-take 4 ip)

reply_fields_lem :
    (h : Header) (rest : List ℕ) → reply_fields (header_bytes h ++ rest) ≡ reply_header h ++ rest
reply_fields_lem h rest = ap (λ l. reply_header h ++ l) (blit_start rest [] (omega arith))

pub respond_lem :
    (env : Env) (d : Server) (h : Header) (question tail : List ℕ) (i : ℕ) (src : List ℕ) (port : ℕ)
    → i ≡ header_size + length question
    → i + 16 ≤ max_dns_msg_size
    → 16 ≤ length tail
    → respond env d (header_bytes h ++ (question ++ tail)) i src port
      ≡ some (delivered env (reply_to d h question src port))
unfolding respond
respond_lem env d h question tail i src port e fits room =
    rw
      (
        inside,
        blit-append i (header_bytes h ++ question) tail (answer d.ip) (omega arith)
            (omega (arith, length-answer d.ip)),
        reply_fields_lem h (question ++ (answer d.ip ++ drop (length (answer d.ip)) tail)),
      )
      (ap (λ b. some ((socket_sendto env b (i + length (answer d.ip)) src port).1))
          (ap (λ l. reply_header h ++ l)
            (sym (append_assoc question (answer d.ip) (drop (length (answer d.ip)) tail))))
        ∙ ap some (
            socket_sendto_lem env (reply_header h ++ (question ++ answer d.ip))
              (drop (length (answer d.ip)) tail) (i + length (answer d.ip)) src port
              (omega (arith, length-append question (answer d.ip)))
              (omega (arith, length-answer d.ip))))
  where
    inside : ltb (length (header_bytes h ++ (question ++ tail))) (i + length (answer d.ip)) ≡ false
    inside = ground (arith, length-append question tail, length-answer d.ip)
