-- ===== src/Dns/Queries.antt =====
-- Which packets are answered, and with what: well-formed questions, truncated ones, and the rest.
use mathlib.Core.List.{append_assoc}
use pico_drone.Common.{
  ℕ, ◌+◌, ◌-◌, ◌/◌, ◌%◌, ◌≤◌, ◌<◌, ◌≡◌, ◌≢◌, refl, sym, ap, ◌∙◌, ◌⊎◌, inl, inr, none, some, true,
  false, List, [], ◌∷◌, ◌++◌, arith, ltb, ◌==◌, Bool, Bool-cases, length, take, drop, blit,
  length-take, length-append, length-drop, length-blit,
}
use pico_drone.Common.Append.{take-drop, blit_start, Holds-append}
use pico_drone.Common.Pbuf.{Pbuf}
use pico_drone.Dns.{
  Server, Env, name_end, header_size, max_dns_msg_size, rounds, walk, is_query, after_name, respond,
  handle, process, receive_by, bind, remove, init, deinit,
}
use pico_drone.Dns.Name.{encode_name, AreLabels, walk-encode_name, walk_byte, walk_past}
use pico_drone.Dns.Response.{Header, header_bytes, reply_to, delivered, respond_lem}
use pico_drone.Dns.Handler.{asks, handle_lem, process_long, process_short}

after_name_lem :
    (env : Env) (d : Server) (msg : List ℕ) (i : ℕ) (src : List ℕ) (port : ℕ)
    → i ≤ header_size + 255
    → after_name env d msg (name_end i) src port ≡ respond env d msg (i + 4) src port
unfolding after_name
after_name_lem env d msg i src port fits =
    let short : ltb 255 (i - header_size) ≡ false = ground arith in rw short refl

-- A query whose name ends at `i` is answered with what stands up to `i + 4`.
process_name_end :
    (env : Env) (stack : List ℕ) (d : Server) (p : Pbuf) (src : List ℕ) (port : ℕ) (h : Header)
    (question tail : List ℕ) (i : ℕ)
    → length stack ≡ max_dns_msg_size
    → header_size ≤ length (p.copy_partial max_dns_msg_size 0)
    → blit stack 0 (p.copy_partial max_dns_msg_size 0) ≡ header_bytes h ++ (question ++ tail)
    → asks h ≡ true
    → walk rounds
        (header_bytes h ++ (question ++ tail))
        (length (p.copy_partial max_dns_msg_size 0))
        header_size
      ≡ name_end i
    → i + 4 ≡ header_size + length question
    → length question ≤ 255 + 4
    → process env stack d p src port ≡ some (delivered env (reply_to d h question src port))
process_name_end env stack d p src port h question tail i full long e query walked ends fits =
    process_long env stack d p src port long
    ∙ ap (λ m. handle env d m (length (p.copy_partial max_dns_msg_size 0)) src port) e
    ∙ handle_lem env d h (question ++ tail) (length (p.copy_partial max_dns_msg_size 0)) src port
    ∙ rw (query, walked)
        (after_name_lem env d (header_bytes h ++ (question ++ tail)) i src port (omega arith))
    ∙ respond_lem env d h question tail (i + 4) src port ends (omega arith) (
        omega (
          arith,
          ap length e,
          length-blit stack 0 (p.copy_partial max_dns_msg_size 0),
          length-append question tail,
        ))

-- A standard query of at most 300 bytes that holds a name of at most 255 bytes in labels of 1 to
-- 63, its type and its class, and maybe more, is answered with its id, the name, the type and the
-- class, and one answer with the address of the board, if `pbuf_alloc` finds the memory.
pub process-query :
    (env : Env) (stack : List ℕ) (d : Server) (p : Pbuf) (src : List ℕ) (port : ℕ) (h : Header)
    (ls : List (List ℕ)) (type_class more : List ℕ)
    → length stack ≡ max_dns_msg_size
    → p.copy_partial max_dns_msg_size 0 ≡ header_bytes h ++ (encode_name ls ++ (type_class ++ more))
    → length (p.copy_partial max_dns_msg_size 0) ≤ max_dns_msg_size
    → asks h ≡ true
    → AreLabels ls
    → length (encode_name ls) ≤ 255
    → length type_class ≡ 4
    → process env stack d p src port
      ≡ some (delivered env (reply_to d h (encode_name ls ++ type_class) src port))
process-query env stack d p src port h ls type_class more full e fits query good short four =
    process_name_end env stack d p src port h (encode_name ls ++ type_class)
      (more ++ drop (length received) stack) (header_size + length (encode_name ls)) full
      (omega (arith, sizes)) whole query
      (ap (λ m. walk rounds m (length received) header_size) parts
        ∙ walk-encode_name
            (header_bytes h
              ++ (encode_name ls ++ (type_class ++ (more ++ drop (length received) stack))))
            (length received) ls good (omega (arith, sizes)) fits
            (Holds-append header_size (header_bytes h) (encode_name ls)
              (type_class ++ (more ++ drop (length received) stack)) refl))
      (omega (arith, length-append (encode_name ls) type_class))
      (omega (arith, length-append (encode_name ls) type_class))
  where
    received : List ℕ
    received = p.copy_partial max_dns_msg_size 0

    sizes : length received ≡ header_size + (length (encode_name ls) + length (type_class ++ more))
    sizes = ap length e ∙ omega (arith, length-append (encode_name ls) (type_class ++ more))

    parts :
        header_bytes h ++ ((encode_name ls ++ type_class) ++ (more ++ drop (length received) stack))
        ≡ header_bytes h
          ++ (encode_name ls ++ (type_class ++ (more ++ drop (length received) stack)))
    parts =
        ap (λ l. header_bytes h ++ l)
          (append_assoc (encode_name ls) type_class (more ++ drop (length received) stack))

    whole :
        blit stack 0 received
        ≡ header_bytes h
          ++ ((encode_name ls ++ type_class) ++ (more ++ drop (length received) stack))
    whole =
        blit_start stack received (omega arith)
        ∙ ap (λ l. l ++ drop (length received) stack) e
        ∙ ap (λ l. header_bytes h ++ l)
            (append_assoc (encode_name ls) (type_class ++ more) (drop (length received) stack)
              ∙ ap (λ l. encode_name ls ++ l)
                  (append_assoc type_class more (drop (length received) stack)))
        ∙ sym parts

-- A standard query that breaks off behind the length byte (1 to 63) of its first label is answered
-- all the same: the question of the reply holds that many bytes, and four more, of what the
-- uninitialised array held, where `pbuf_alloc` finds memory for the reply.
pub process-truncated :
    (env : Env) (stack : List ℕ) (d : Server) (p : Pbuf) (src : List ℕ) (port : ℕ) (h : Header)
    (label_len : ℕ)
    → length stack ≡ max_dns_msg_size
    → p.copy_partial max_dns_msg_size 0 ≡ header_bytes h ++ label_len ∷ []
    → asks h ≡ true
    → 0 < label_len
    → label_len ≤ 63
    → process env stack d p src port
      ≡ some
          (delivered env (reply_to d h (label_len ∷ take (label_len + 4) (drop 13 stack)) src port))
process-truncated env stack d p src port h label_len full e query some_byte short =
    process_name_end env stack d p src port h (label_len ∷ take (label_len + 4) (drop 13 stack))
      (drop (label_len + 4) (drop 13 stack)) (header_size + 1 + label_len) full
      (omega (arith, ap length e)) whole query walked
      (omega (arith, length-take (label_len + 4) (drop 13 stack), length-drop 13 stack))
      (omega (arith, length-take (label_len + 4) (drop 13 stack), length-drop 13 stack))
  where
    received : List ℕ
    received = p.copy_partial max_dns_msg_size 0

    msg : List ℕ
    msg =
        header_bytes h
        ++ ((label_len ∷ take (label_len + 4) (drop 13 stack))
            ++ drop (label_len + 4) (drop 13 stack))

    whole : blit stack 0 received ≡ msg
    whole =
        ap (blit stack 0) e
        ∙ blit_start stack (header_bytes h ++ label_len ∷ []) (omega arith)
        ∙ ap (λ l. header_bytes h ++ label_len ∷ l)
            (sym (take-drop (label_len + 4) (drop 13 stack)))

    walked : walk rounds msg (length received) header_size ≡ name_end (header_size + 1 + label_len)
    walked =
        let not_last : (label_len == 0) ≡ false = ground arith in
        let allowed : ltb 63 label_len ≡ false = ground arith in
        walk_byte 288 msg (length received) header_size label_len (omega (arith, ap length e)) refl
        ∙ rw (not_last, allowed)
            (walk_past 287 msg (length received) (header_size + 1 + label_len)
              (omega (arith, ap length e)))

-- A header of a response, of another kind of query, or without a question.
abbrev pub Unasked : Header → Type 0
Unasked h =
    ((128 ≤ h.flags0) × (h.flags0 < 256))
    ⊎ ((h.flags0 / 8 % 16 ≢ 0) ⊎ ((h.questions0 ≡ 0) × (h.questions1 ≡ 0)))

asks-Unasked : (h : Header) → h.flags1 < 256 → Unasked h → asks h ≡ false
unfolding is_query
asks-Unasked h byte (inl (response, top)) = ground arith
asks-Unasked h byte (inr (inl other)) = ground arith
asks-Unasked h byte (inr (inr nothing)) = ground arith

-- A packet gets no reply if fewer bytes than a header are received, or if the header is that of a
-- response, of another kind of query than the standard one, or of no question.
pub process-ignored :
    (env : Env) (stack : List ℕ) (d : Server) (p : Pbuf) (src : List ℕ) (port : ℕ) (h : Header)
    (rest : List ℕ)
    → blit stack 0 (p.copy_partial max_dns_msg_size 0) ≡ header_bytes h ++ rest
    → h.flags1 < 256
    → (length (p.copy_partial max_dns_msg_size 0) < header_size) ⊎ Unasked h
    → process env stack d p src port ≡ some []
process-ignored env stack d p src port h rest e byte (inl short) =
    process_short env stack d p src port short
process-ignored env stack d p src port h rest e byte (inr bad) =
    elim (Bool-cases (ltb (length (p.copy_partial max_dns_msg_size 0)) header_size)) [
      | inl short ↦ process_short env stack d p src port (ground arith)
      | inr long ↦
          process_long env stack d p src port (ground arith)
          ∙ ap (λ m. handle env d m (length (p.copy_partial max_dns_msg_size 0)) src port) e
          ∙ handle_lem env d h rest (length (p.copy_partial max_dns_msg_size 0)) src port
          ∙ rw (asks-Unasked h byte bad) refl
    ]

-- With a handle and no error of `udp_bind`, the server registers its handler, binds port 53 and
-- keeps the address; `deinit` then removes that handle, and nothing when called again. Without a
-- handle nothing is called. After an error of `udp_bind` the address is not kept, and a build with
-- assertions stops.
pub init_outcomes :
    (ndebug : Bool) (h err : ℕ) (d : Server) (ip : List ℕ)
    → err ≢ 0
    → let up : Server = record { udp = some h; ip = ip } in
      let calls = receive_by h ∷ bind h 53 ∷ [] in
      (init ndebug (some h) 0 d ip ≡ some (up, calls))
      × (deinit up ≡ (record up { udp = none }, remove h ∷ []))
      × (deinit (deinit up).0 ≡ ((deinit up).0, []))
      × (init ndebug none err d ip ≡ some (record d { udp = none }, []))
      × (init true (some h) err d ip ≡ some (record d { udp = some h }, calls))
      × (init false (some h) err d ip ≡ none)
unfolding init deinit
init_outcomes ndebug h err d ip bad =
    let ne : (err == 0) ≡ false = ground arith in (refl, refl, refl, refl, rw ne refl, rw ne refl)
