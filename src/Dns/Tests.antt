-- ===== src/Dns/Tests.antt =====
-- Runs of the DNS server, and its theorems at an input.
use pico_drone.Common.{
  ℕ, ◌≡◌, ◌⊎◌, inl, inr, refl, some, true, List, [], ◌∷◌, ◌++◌, arith, take, replicate, blit,
}
use pico_drone.Common.Pbuf.{pbuf_of, pbuf_of-IsPbuf}
use pico_drone.Common.Append.{Holds-append}
use pico_drone.Dns.{Server, Env, Datagram, name_end, rounds, walk, is_query, process}
use pico_drone.Dns.Name.{encode_name, walk-encode_name}
use pico_drone.Dns.Response.{Header, header_bytes, reply_to}
use pico_drone.Dns.Handler.{Answered, process-Answered}
use pico_drone.Dns.Queries.{process-query, process-truncated, process-ignored}

abbrev stack : List ℕ
stack = replicate 300 7

abbrev env : Env
env = record { pbuf_alloc = λ n. true; udp_sendto = λ p. 0 }

abbrev server : Server
server = record { udp = some 1; ip = 192 ∷ 168 ∷ 4 ∷ 1 ∷ [] }

abbrev client : List ℕ
client = 192 ∷ 168 ∷ 4 ∷ 16 ∷ []

-- A standard query with one question.
abbrev asking : Header
asking = record {
  id0 = 0x12;
  id1 = 0x34;
  flags0 = 1;
  flags1 = 0;
  questions0 = 0;
  questions1 = 1;
  answers0 = 0;
  answers1 = 0;
  authority0 = 0;
  authority1 = 0;
  additional0 = 0;
  additional1 = 0;
}

-- pico.net
abbrev labels : List (List ℕ)
labels = (112 ∷ 105 ∷ 99 ∷ 111 ∷ []) ∷ (110 ∷ 101 ∷ 116 ∷ []) ∷ []

abbrev question : List ℕ
question = encode_name labels ++ 0 ∷ 1 ∷ 0 ∷ 1 ∷ []

walk-encode_name_example : walk rounds (header_bytes asking ++ (question ++ [])) 26 12 ≡ name_end 22
walk-encode_name_example =
    walk-encode_name (header_bytes asking ++ (question ++ [])) 26 labels (omega arith) (omega arith)
      (omega arith)
      (Holds-append 12 (header_bytes asking) (encode_name labels) (0 ∷ 1 ∷ 0 ∷ 1 ∷ []) refl)

process-Answered_example :
    (packets : List Datagram) × (process env stack server
        (pbuf_of (header_bytes asking ++ question))
        client
        5353
      ≡ some packets)
    × ((packets ≡ [])
        ⊎ Answered env server
            (blit stack 0 (take 300 (header_bytes asking ++ question)))
            client
            5353
            packets)
process-Answered_example =
    process-Answered env stack server (pbuf_of (header_bytes asking ++ question)) client 5353 refl
      (pbuf_of-IsPbuf (header_bytes asking ++ question))

process-query_example :
    process env stack server (pbuf_of (header_bytes asking ++ question)) client 5353
    ≡ some (reply_to server asking question client 5353 ∷ [])
unfolding is_query
process-query_example =
    process-query env stack server (pbuf_of (header_bytes asking ++ question)) client 5353 asking
      labels (0 ∷ 1 ∷ 0 ∷ 1 ∷ []) [] refl refl (omega arith) refl (omega arith) (omega arith) refl

process-truncated_example :
    process env stack server (pbuf_of (header_bytes asking ++ 3 ∷ [])) client 5353
    ≡ some (reply_to server asking (3 ∷ 7 ∷ 7 ∷ 7 ∷ 7 ∷ 7 ∷ 7 ∷ 7 ∷ []) client 5353 ∷ [])
unfolding is_query
process-truncated_example =
    process-truncated env stack server (pbuf_of (header_bytes asking ++ 3 ∷ [])) client 5353 asking
      3 refl refl refl (omega arith) (omega arith)

-- A response is not answered.
process-ignored_example :
    process env stack server
      (pbuf_of (header_bytes (record asking { flags0 = 0x81 }) ++ question))
      client
      5353
    ≡ some []
process-ignored_example =
    process-ignored env stack server
      (pbuf_of (header_bytes (record asking { flags0 = 0x81 }) ++ question)) client 5353
      (record asking { flags0 = 0x81 }) (question ++ replicate 274 7) refl (omega arith)
      (inr (inl (omega arith)))
