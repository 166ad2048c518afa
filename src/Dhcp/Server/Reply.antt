-- ===== src/Dhcp/Server/Reply.antt =====
-- The reply that the server sends, read as its client reads it.
use mathlib.Core.Path.{subst}
use mathlib.Core.List.{append_assoc}
use pico_drone.Common.{
  ℕ, ◌+◌, ◌≤◌, ◌<◌, ◌≡◌, ◌≢◌, refl, sym, ap, ◌∙◌, some, List, [], ◌∷◌, ◌++◌, arith, if◌then◌else◌,
  length, get_elem?, set, take, blit, length-take, length-set, length-blit, get_elem?-set_ne,
  get_elem?-set_self,
}
use pico_drone.Common.Blit.{Holds, Holds-blit, get_elem?-blit_before, get_elem?-take}
use pico_drone.Dhcp.Options.{opt_end, Cursor, opt_write_n, opt_write_u8, opt_write_u32}
use pico_drone.Dhcp.Options.Encoding.{Opt, encode, length_field}
use pico_drone.Dhcp.Options.Writing.{
  Writes, Writes-append, put-Writes, opt_write_n-Writes, opt_write_u8-Writes, be32,
  opt_write_u32-Writes,
}
use pico_drone.Dhcp.Leases.{base_ip, lease_time_s}
use pico_drone.Dhcp.Server.{
  Server, Env, Datagram, options_at, yiaddr_at, msg_size, opt_msg_type, finish_options,
  socket_sendto, reply,
}

-- The options of a reply, in order.
abbrev pub reply_opts : Server → ℕ → List Opt
reply_opts d type =
    (53, type ∷ []) ∷ (54, d.ip) ∷ (1, d.nm) ∷ (3, d.ip) ∷ (6, d.ip) ∷ (51, be32 lease_time_s) ∷ []

-- The addresses of a server take four bytes each.
abbrev pub HasAddresses : Server → Type 0
HasAddresses d = (length d.ip ≡ 4) × (length d.nm ≡ 4)

four-Writes :
    (c : Cursor) (cmd : ℕ) (value : List ℕ)
    → cmd < 256
    → length value ≡ 4
    → Writes c (cmd ∷ length value ∷ value) (opt_write_n c cmd 4 value)
four-Writes c cmd value small four =
    rw (← four) (opt_write_n-Writes c cmd value small (omega arith))

-- An option in front of the others.
Writes-encode :
    {c c' c'' : Cursor} (code : ℕ) (value : List ℕ) (os : List Opt) (rest : List ℕ)
    → Writes c (code ∷ length value ∷ value) c'
    → Writes c' (encode os ++ rest) c''
    → Writes c (encode ((code, value) ∷ os) ++ rest) c''
Writes-encode {c} {c''} code value os rest w v =
    subst (λ l. Writes c l c'')
      (ap (λ l. code ∷ length value ∷ l) (sym (append_assoc value (encode os) rest)))
      (Writes-append (code ∷ length value ∷ value) (encode os ++ rest) w v)

abbrev later_opts : Server → List Opt
later_opts d = (54, d.ip) ∷ (1, d.nm) ∷ (3, d.ip) ∷ (6, d.ip) ∷ (51, be32 lease_time_s) ∷ []

finish_options-Writes :
    (d : Server) (c : Cursor)
    → HasAddresses d
    → Writes c (encode (later_opts d) ++ opt_end ∷ []) (finish_options d c)
unfolding finish_options
finish_options-Writes d c (four_ip, four_nm) =
    let end = opt_end ∷ [] in
    let c1 = opt_write_n c 54 4 d.ip in
    let c2 = opt_write_n c1 1 4 d.nm in
    let c3 = opt_write_n c2 3 4 d.ip in
    let c4 = opt_write_n c3 6 4 d.ip in
    let c5 = opt_write_u32 c4 51 lease_time_s in
    let o5 : List Opt = (51, be32 lease_time_s) ∷ [] in
    let o4 : List Opt = (6, d.ip) ∷ o5 in
    let o3 : List Opt = (3, d.ip) ∷ o4 in
    let o2 : List Opt = (1, d.nm) ∷ o3 in
    Writes-encode 54 d.ip o2 end (four-Writes c 54 d.ip (omega arith) four_ip) (
      Writes-encode 1 d.nm o3 end (four-Writes c1 1 d.nm (omega arith) four_nm) (
        Writes-encode 3 d.ip o4 end (four-Writes c2 3 d.ip (omega arith) four_ip) (
          Writes-encode 6 d.ip o5 end (four-Writes c3 6 d.ip (omega arith) four_ip) (
            Writes-encode 51 (be32 lease_time_s) [] end
              (opt_write_u32-Writes c4 51 lease_time_s (omega arith))
              (put-Writes c5 opt_end (omega arith))))))

-- The 34 bytes behind the magic cookie.
abbrev pub reply_field : Server → ℕ → List ℕ
reply_field d type = encode (reply_opts d type) ++ opt_end ∷ []

abbrev reply_start : List ℕ → ℕ → Cursor
reply_start msg yi = record { mem = set msg (yiaddr_at + 3) (base_ip + yi); opt = options_at }

abbrev reply_end : Server → List ℕ → ℕ → ℕ → Cursor
reply_end d msg yi type = finish_options d (opt_write_u8 (reply_start msg yi) opt_msg_type type)

reply_end-Writes :
    (d : Server) (msg : List ℕ) (yi type : ℕ)
    → HasAddresses d
    → type < 256
    → Writes (reply_start msg yi) (reply_field d type) (reply_end d msg yi type)
reply_end-Writes d msg yi type four small =
    Writes-encode 53 (type ∷ []) (later_opts d) (opt_end ∷ [])
      (opt_write_u8-Writes (reply_start msg yi) 53 type (omega arith) small)
      (finish_options-Writes d (opt_write_u8 (reply_start msg yi) opt_msg_type type) four)

length-reply_field : (d : Server) (type : ℕ) → HasAddresses d → length (reply_field d type) ≡ 34
length-reply_field d type (four_ip, four_nm) =
    length_field (reply_opts d type) opt_end ∙ omega arith

-- What a client can read of a reply for slot `yi`: the packet goes to port 68 of 255.255.255.255
-- and is 274 bytes long; `yiaddr` ends in 16 + `yi`; the options are `reply_opts` and the end mark,
-- and all else before them is as in the message.
pub record IsReply (d : Server) (msg : List ℕ) (yi type : ℕ) (p : Datagram) : Type 0 where
  pub broadcast : p.dest ≡ 255 ∷ 255 ∷ 255 ∷ 255 ∷ []
  pub port : p.port ≡ 68
  pub size : length p.payload ≡ 274
  pub address : get_elem? p.payload 19 ≡ some (base_ip + yi)
  pub options : Holds p.payload options_at (reply_field d type)
  pub header : (j : ℕ) → j < options_at → j ≢ 19 → get_elem? p.payload j ≡ get_elem? msg j

module _ (d : Server) (msg : List ℕ) (yi type : ℕ) (four : HasAddresses d) (small : type < 256)
    (full : length msg ≡ msg_size) where
  abbrev start_mem : List ℕ
  start_mem = set msg (yiaddr_at + 3) (base_ip + yi)

  abbrev written : List ℕ
  written = blit start_mem options_at (reply_field d type)

  payload_lem :
      take (reply_end d msg yi type).opt (reply_end d msg yi type).mem ≡ take 274 (written)
  payload_lem =
      let w = reply_end-Writes d msg yi type four small in
      ap (λ n. take n (reply_end d msg yi type).mem) {y = 274}
        (omega (arith, w.opt, length-reply_field d type four))
      ∙ ap (take 274) w.mem

  length-start : length start_mem ≡ msg_size
  length-start = length-set msg 19 (base_ip + yi) ∙ full

  unchanged : (j : ℕ) → j < options_at → get_elem? (take 274 written) j ≡ get_elem? start_mem j
  unchanged j lt =
      get_elem?-take 274 written j (omega arith)
      ∙ get_elem?-blit_before start_mem options_at (reply_field d type) j lt

  field_stands : Holds (take 274 written) options_at (reply_field d type)
  field_stands j lt =
      let len = length-reply_field d type four in
      get_elem?-take 274 written (options_at + j) (omega (arith, len))
      ∙ Holds-blit start_mem options_at (reply_field d type) (omega (arith, len, length-start)) j lt

  sent_IsReply :
      (p : Datagram)
      → p.payload ≡ take 274 written
      → p.dest ≡ 255 ∷ 255 ∷ 255 ∷ 255 ∷ []
      → p.port ≡ 68
      → IsReply d msg yi type p
  sent_IsReply p e dest port = record {
    broadcast = dest;
    port = port;
    size =
        ap length e
        ∙ omega (
          arith,
          length-take 274 written,
          length-blit start_mem options_at (reply_field d type),
          length-start,
        );
    address = rw e (unchanged 19 (omega arith) ∙ get_elem?-set_self msg 19 _ (omega arith));
    options = rw e field_stands;
    header = λ j lt ne.
        rw e (unchanged j lt ∙ get_elem?-set_ne msg 19 j (base_ip + yi) (λ q. ne (sym q)));
  }

abbrev pub datagram : List ℕ → Datagram
datagram bytes = record { payload = bytes; dest = 255 ∷ 255 ∷ 255 ∷ 255 ∷ []; port = 68 }

-- A packet below the limit of 65535 bytes goes out whole, if there is memory for it.
sendto_small :
    (env : Env) (buf : List ℕ) (len : ℕ)
    → len ≤ 0xffff
    → (socket_sendto env buf len 0xffff_ffff 68).1
      ≡ (if env.pbuf_alloc len then datagram (take len buf) ∷ [] else [])
unfolding socket_sendto
sendto_small env buf len small = ground arith

-- On a server with four-byte addresses and in a message of 548 bytes, a reply for slot `yi` is one
-- packet with the contents of `IsReply`, unless `pbuf_alloc` finds no memory for its 274 bytes:
-- then nothing is sent.
pub reply-IsReply :
    (env : Env) (d : Server) (msg : List ℕ) (yi type : ℕ)
    → HasAddresses d
    → type < 256
    → length msg ≡ msg_size
    → (p : Datagram) × IsReply d msg yi type p
      × (reply env d msg yi type ≡ (if env.pbuf_alloc 274 then p ∷ [] else []))
unfolding reply
reply-IsReply env d msg yi type four small full =
    let w = reply_end-Writes d msg yi type four small in
    let len : (reply_end d msg yi type).opt ≡ 274 =
      omega (arith, w.opt, length-reply_field d type four) in
    let p = datagram (take 274 (written d msg yi type four small full)) in
    (
      p,
      sent_IsReply d msg yi type four small full p refl refl refl,
      sendto_small env (reply_end d msg yi type).mem (reply_end d msg yi type).opt (omega arith)
          ∙ ground (arith, len, payload_lem d msg yi type four small full),
    )
