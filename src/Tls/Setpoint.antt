-- ===== src/Tls/Setpoint.antt =====
-- src/ipstack/tls_common.c: the setpoint in the text of a packet.
use pico_drone.Common.Find.{Contains, strstr_absent}
use pico_drone.Common.Ints.{ℤ, pos, negsuc, print_int, IsInt}
use mathlib.Core.List.{append_assoc}
use pico_drone.Common.{
  ℕ, ◌+◌, ◌-◌, ◌<◌, ◌≡◌, refl, ap, sym, ◌∙◌, inl, inr, Option, none, some, false, List, [], ◌∷◌,
  ◌++◌, ◌==◌, length, length-append, drop, arith, Option-cases, suc, true,
}
use pico_drone.Common.Append.{drop-append}
use pico_drone.Common.Pbuf.{pbuf_of}
use pico_drone.Common.Text.{
  c_string, strncmp, strstr, scan_digits, digits, print_d, HasNoNul, take_all, skip_space, isspace,
  skip_sign,
}
use pico_drone.Common.Scan.{
  AreDigits, digits-AreDigits, scan_digits-digits, c_string-digits, skip-digits, NotIn,
  strstr-append, c_string-all,
}
use pico_drone.Tls.{
  Client, Net, Err, ok, altcp_recved, pbuf_free, until_quote, atoi, command_key,
  extract_co2_setpoint, tls_client_recv,
}

atoi-digits : (t : List ℕ) → AreDigits t → atoi (c_string t) ≡ some (scan_digits 0 t)
unfolding atoi
atoi-digits t h =
    let (space, sign, minus) = skip-digits t h in
    rw (c_string-digits t h) (rw space (rw (minus, sign) refl))

until_quote-digits : (t rest : List ℕ) → AreDigits t → until_quote (t ++ b'"' ∷ rest) ≡ some t
unfolding until_quote
until_quote-digits [] rest h = refl
until_quote-digits (c ∷ cs) rest (lo, hi, h) = ground (arith, until_quote-digits cs rest h)

atoi-minus : (t : List ℕ) → AreDigits t → 0 < scan_digits 0 t → atoi (c_string (b'-' ∷ t)) ≡ none
unfolding atoi c_string skip_space isspace skip_sign
atoi-minus t h some_ =
    let large : (scan_digits 0 t == 0) ≡ false = ground arith in
    rw (c_string-digits t h) (rw large refl)

until_quote-minus :
    (t rest : List ℕ) → AreDigits t → until_quote (b'-' ∷ (t ++ b'"' ∷ rest)) ≡ some (b'-' ∷ t)
unfolding until_quote
until_quote-minus t rest h = rw (until_quote-digits t rest h) refl

-- The key, a printed number and a quotation mark.
abbrev pub command_of : ℤ → List ℕ → List ℕ
command_of v after = command_key ++ (print_int v ++ b'"' ∷ after)

-- A number that is not negative.
abbrev not_negative : ℤ → Option ℕ
not_negative (pos n) = some n
not_negative (negsuc n) = none

strstr-command :
    (v : ℤ) (after : List ℕ) → strstr (command_of v after) command_key ≡ some (command_of v after)
unfolding strstr strncmp
strstr-command v after = refl

until_quote-print_int :
    (v : ℤ) (after : List ℕ) → until_quote (print_int v ++ b'"' ∷ after) ≡ some (print_int v)
unfolding print_d
until_quote-print_int (pos n) after = until_quote-digits (digits 10 n) after (digits-AreDigits 10 n)
until_quote-print_int (negsuc n) after =
    until_quote-minus (digits 10 (suc n)) after (digits-AreDigits 10 (suc n))

atoi-print_int : (v : ℤ) → IsInt v → atoi (c_string (print_int v)) ≡ not_negative v
unfolding print_d
atoi-print_int (pos n) small =
    atoi-digits (digits 10 n) (digits-AreDigits 10 n)
    ∙ ap some (scan_digits-digits 10 n (omega arith))
atoi-print_int (negsuc n) small =
    let value = scan_digits-digits 10 (suc n) (omega arith) in
    atoi-minus (digits 10 (suc n)) (digits-AreDigits 10 (suc n)) (omega (arith, value))

extract-command :
    (before : List ℕ) (v : ℤ) (after : List ℕ)
    → IsInt v
    → HasNoNul (before ++ command_of v after)
    → NotIn command_key before (command_of v after)
    → extract_co2_setpoint (before ++ command_of v after) ≡ not_negative v
unfolding extract_co2_setpoint
extract-command before v after small nuls first =
    let tail = command_of v after in
    let buf = before ++ tail in
    let text = c_string-all buf nuls in
    let found = strstr-append command_key before tail first ∙ strstr-command v after in
    let start : length buf - length tail + length command_key ≡ length (before ++ command_key) =
      omega (arith, length-append before tail, length-append before command_key) in
    let rest = print_int v ++ b'"' ∷ after in
    let dropped : drop (length buf - length tail + length command_key) buf ≡ rest =
      ap (λ l. drop (length buf - length tail + length command_key) l)
        (sym (append_assoc before command_key rest))
      ∙ drop-append _ (before ++ command_key) rest start in
    rw (text, found, extract_co2_setpoint)
      (rw (text, dropped) (rw (until_quote-print_int v after) (atoi-print_int v small)))

extract-other : (t : List ℕ) → HasNoNul t → ¬ Contains command_key t → extract_co2_setpoint t ≡ none
unfolding extract_co2_setpoint
extract-other t nuls absent =
    rw (c_string-all t nuls, strstr_absent t command_key absent, extract_co2_setpoint) refl

abbrev or_kept : Option ℕ → ℕ → ℕ
or_kept none v = v
or_kept (some w) v = w

-- The state behind a packet with the given setpoint, if there is one.
abbrev taken : Client → ℕ → List ℕ → Option ℕ → Err × Client
taken s h t found = (
  ok,
  record s {
    co2_setpoint = or_kept found s.co2_setpoint;
    calls = s.calls ++ altcp_recved h (length t) ∷ pbuf_free ∷ [];
  },
)

recv-taken :
    (net : Net) (s : Client) (h : ℕ) (t : List ℕ)
    → 0 < length t
    → net.malloc (length t + 1) ≡ true
    → tls_client_recv net s h (some (pbuf_of t)) ≡ some (taken s h t (extract_co2_setpoint t))
unfolding tls_client_recv
recv-taken net s h t some_ got =
    let all = take_all (length t) t (omega arith) in
    let nonempty : (length t == 0) ≡ false = ground arith in
    elim (Option-cases (extract_co2_setpoint t)) [
      | inl e ↦ rw (nonempty, got, all, e, tls_client_recv) refl
      | inr (v, e) ↦ rw (nonempty, got, all, e, tls_client_recv) refl
    ]

recv-lost :
    (net : Net) (s : Client) (h : ℕ) (t : List ℕ)
    → 0 < length t
    → net.malloc (length t + 1) ≡ false
    → tls_client_recv net s h (some (pbuf_of t)) ≡ none
unfolding tls_client_recv
recv-lost net s h t some_ no_buffer =
    let nonempty : (length t == 0) ≡ false = ground arith in
    rw (nonempty, no_buffer, tls_client_recv) refl

-- The setpoint behind a number: the number if it is not negative, else the one before.
abbrev pub set_by : ℤ → ℕ → ℕ
set_by (pos n) before = n
set_by (negsuc n) before = before

or_kept-not_negative : (v : ℤ) (before : ℕ) → or_kept (not_negative v) before ≡ set_by v before
or_kept-not_negative (pos n) before = refl
or_kept-not_negative (negsuc n) before = refl

-- A packet whose text holds the key, at its first place followed by the decimal text of an `int` (a
-- minus sign if it is below 0) and a quotation mark, sets the setpoint to this `int` if it is not
-- below 0, and leaves it else; a packet whose text does not hold the key leaves it. With memory for
-- the copy, both are taken and freed, and the connection goes on; without it, the copy of a packet
-- goes to address 0.
pub recv-setpoint :
    (net : Net) (s : Client) (h : ℕ) (v : ℤ) (before after other : List ℕ)
    → IsInt v
    → HasNoNul (before ++ command_of v after)
    → NotIn command_key before (command_of v after)
    → HasNoNul other
    → 0 < length other
    → ¬ Contains command_key other
    → let buf = before ++ command_of v after in
      let full = record net { malloc = λ n. true } in
      (tls_client_recv full s h (some (pbuf_of buf))
        ≡ some (
          ok,
          record s {
            co2_setpoint = set_by v s.co2_setpoint;
            calls = s.calls ++ altcp_recved h (length buf) ∷ pbuf_free ∷ [];
          },
        ))
      × (tls_client_recv full s h (some (pbuf_of other))
          ≡ some
              (ok, record s { calls = s.calls ++ altcp_recved h (length other) ∷ pbuf_free ∷ [] }))
      × (tls_client_recv (record net { malloc = λ n. false }) s h (some (pbuf_of other)) ≡ none)
recv-setpoint net s h v before after other small nuls first nuls' some_ absent =
    let buf = before ++ command_of v after in
    let sizes = length-append before (command_of v after) in
    let full = record net { malloc = λ n. true } in
    (
      recv-taken full s h buf (omega (arith, sizes)) refl
          ∙ ap (λ o. some (taken s h buf o)) (extract-command before v after small nuls first)
          ∙ ap
              (λ n. some (
                ok,
                record s {
                  co2_setpoint = n;
                  calls = s.calls ++ altcp_recved h (length buf) ∷ pbuf_free ∷ [];
                },
              ))
              (or_kept-not_negative v s.co2_setpoint),
      recv-taken full s h other some_ refl
          ∙ ap (λ o. some (taken s h other o)) (extract-other other nuls' absent),
      recv-lost (record net { malloc = λ n. false }) s h other some_ refl,
    )
