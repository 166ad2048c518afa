-- ===== src/Dhcp/Server/Safety.antt =====
-- No read behind the message, if its options end early enough.
use pico_drone.Common.{
  ℕ, ◌+◌, ◌≤◌, ◌<◌, ◌≡◌, ◌⊎◌, inl, inr, refl, ◌∙◌, some, List, [], ◌∷◌, ◌++◌, arith, ◌==◌,
  Bool-cases, length, get_elem?, get_elem?-some, get_or, take, length-append,
}
use pico_drone.Common.Memory.{◌>>=◌}
use pico_drone.Common.Blit.{Holds}
use pico_drone.Dhcp.Options.{found, null, opt_end, opt_find}
use pico_drone.Dhcp.Options.Encoding.{Opt, encode, locate, NoEnd, opt_find-encode}
use pico_drone.Dhcp.Leases.{bytes_eq}
use pico_drone.Dhcp.Server.{
  Server, Env, Datagram, options_at, msg_size, on_discover, grant_slot, request_at, on_request,
  dispatch, handle,
}
use pico_drone.Dhcp.Server.Effect.{patched, length-patched}
use pico_drone.Dhcp.Server.Exchange.{Holds-patched, on_request_found, handle_found}

locate_cases :
    (cmd i : ℕ) (os : List Opt)
    → (locate cmd i os ≡ null)
      ⊎ ((k : ℕ) × (locate cmd i os ≡ found k) × (k + 2 ≤ i + length (encode os)))
locate_cases cmd i [] = inl refl
locate_cases cmd i ((code, value) ∷ os) = elim (Bool-cases (code == cmd)) [
  | inl here ↦ inr (i, rw here, omega arith)
  | inr other ↦ elim (locate_cases cmd (i + 2 + length value) os) [
    | inl absent ↦ inl (rw other absent)
    | inr (k, e, within) ↦ inr (k, rw other e, omega (arith, length-append value (encode os)))
  ]
]

request_at_total :
    (env : Env) (d : Server) (msg : List ℕ) (i : ℕ)
    → options_at + i + 5 < length msg
    → (r : Server × List Datagram) × (request_at env d msg i ≡ some r)
unfolding request_at
request_at_total env d msg i within =
    let read : (j : ℕ) → j ≤ options_at + i + 5 → get_elem? msg j ≡ some (get_or msg j 0) =
      λ j le. get_elem?-some msg j 0 (omega arith) in
    let net =
      get_or msg (options_at + i + 2) 0
      ∷ get_or msg (options_at + i + 3) 0
      ∷ get_or msg (options_at + i + 4) 0
      ∷ [] in
    let first = read (options_at + i + 2) (omega arith) in
    let second = read (options_at + i + 3) (omega arith) in
    let third = read (options_at + i + 4) (omega arith) in
    let last = read (options_at + i + 5) (omega arith) in
    elim (Bool-cases (bytes_eq net (take 3 d.ip))) [
      | inl own ↦ (
        grant_slot env d msg (get_or msg (options_at + i + 5) 0),
        rw (first, ◌>>=◌) (rw (second, ◌>>=◌) (rw (third, ◌>>=◌) (rw own (rw (last, ◌>>=◌) refl)))),
      )
      | inr other ↦
          ((d, []), rw (first, ◌>>=◌) (rw (second, ◌>>=◌) (rw (third, ◌>>=◌) (rw other refl))))
    ]

on_request_null :
    (env : Env) (d : Server) (msg : List ℕ)
    → opt_find msg options_at 50 ≡ null
    → on_request env d msg ≡ some (d, [])
unfolding on_request
on_request_null env d msg e = rw (e, on_request)

handle_null :
    (env : Env) (d : Server) (received : List ℕ)
    → opt_find (patched d received) options_at 53 ≡ null
    → handle env d received ≡ some (d, [])
unfolding handle
handle_null env d received e = rw (e, handle)

module _ (env : Env) (d : Server) (msg : List ℕ) (os : List Opt) (full : length msg ≡ msg_size)
    (ended : NoEnd os) (fits : length (encode os) ≤ 302)
    (holds : Holds msg options_at (encode os ++ opt_end ∷ [])) where
  find_cases :
      (cmd : ℕ)
      → (opt_find msg options_at cmd ≡ null)
        ⊎ ((k : ℕ) × (opt_find msg options_at cmd ≡ found k) × (k ≤ 300))
  find_cases cmd =
      let e = opt_find-encode os msg options_at cmd ended (omega arith) holds in
      elim (locate_cases cmd 0 os) [
        | inl absent ↦ inl (e ∙ absent)
        | inr (k, at_k, within) ↦ inr (k, e ∙ at_k, omega arith)
      ]

  on_request_total : (r : Server × List Datagram) × (on_request env d msg ≡ some r)
  on_request_total = elim (find_cases 50) [
    | inl absent ↦ ((d, []), on_request_null env d msg absent)
    | inr (k, at_k, within) ↦
        let (r, e) = request_at_total env d msg k (omega arith) in
        (r, on_request_found env d msg k at_k ∙ e)
  ]

  dispatch_total : (type : ℕ) → (r : Server × List Datagram) × (dispatch env d msg type ≡ some r)
  unfolding dispatch
  dispatch_total type = elim (Bool-cases (type == 1)) [
    | inl discover ↦ (on_discover env d msg, rw discover)
    | inr other ↦ elim (Bool-cases (type == 3)) [
      | inl request ↦ rw (other, request) on_request_total
      | inr unknown ↦ ((d, []), rw (other, unknown))
    ]
  ]

-- A message of 548 bytes whose options, none of them an end mark, take at most 302 bytes and are
-- followed by the end mark is handled with every read inside it.
pub handle_total :
    (env : Env) (d : Server) (received : List ℕ) (os : List Opt)
    → length received ≡ msg_size
    → NoEnd os
    → length (encode os) ≤ 302
    → Holds received options_at (encode os ++ opt_end ∷ [])
    → (r : Server × List Datagram) × (handle env d received ≡ some r)
handle_total env d received os full ended fits holds =
    elim (find_cases env d msg os whole ended fits here 53) [
      | inl absent ↦ ((d, []), handle_null env d received absent)
      | inr (k, at_k, within) ↦
          let type = get_or msg (options_at + k + 2) 0 in
          let (r, e) = dispatch_total env d msg os whole ended fits here type in
          (
            r,
            handle_found env d received k type at_k
                  (get_elem?-some msg (options_at + k + 2) 0 (omega (arith, whole)))
                ∙ e,
          )
    ]
  where
    msg : List ℕ
    msg = patched d received

    whole : length msg ≡ msg_size
    whole = length-patched d received ∙ full

    here : Holds msg options_at (encode os ++ opt_end ∷ [])
    here = Holds-patched d received (encode os ++ opt_end ∷ []) holds
