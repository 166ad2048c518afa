-- ===== src/Common/Text.antt =====
-- Texts of C: bytes up to a NUL, and the functions of the C library that the servers call on them.
use Prim.Native.Char.{code}
use Prim.Native.String.{String}
use Prim.Native.Nat.{ℕ, zero, suc, ◌+◌, ◌-◌, ◌*◌, ◌/◌, ◌%◌, ◌≤◌, ◌<◌}
use mathlib.Core.Path.{◌≡◌, refl, ap, ◌∙◌}
use mathlib.Core.Bool.{Bool, true, false, ◌&&◌, ◌||◌}
use mathlib.Core.Option.{Option, none, some}
use mathlib.Core.List.{List, [], ◌∷◌, ◌++◌}
use native.Mathlib.Omega.{arith}
use mathlib.Core.List.{append_assoc}
use pico_drone.Common.Append.{blit_start}
use pico_drone.Common.Lists.{length, take, drop, blit, length-append}
use pico_drone.Common.Tests.{ltb, leb, ◌==◌, if◌then◌else◌}

-- The bytes of a text.
abbrev pub codes : String → List ℕ
codes String.[] = []
codes (String.◌∷◌ c s) = code c ∷ codes s

-- The text that a pointer into an array points at.
unfoldable pub c_string : List ℕ → List ℕ
c_string [] = []
c_string (c ∷ cs) = if c == 0 then [] else c ∷ c_string cs

-- `strcmp (s, t) == 0`
unfoldable pub strcmp : List ℕ → List ℕ → Bool
strcmp [] [] = true
strcmp [] (d ∷ ds) = false
strcmp (c ∷ cs) [] = false
strcmp (c ∷ cs) (d ∷ ds) = c == d && strcmp cs ds

-- `strncmp (s, t, strlen (s)) == 0`
unfoldable pub strncmp : List ℕ → List ℕ → Bool
strncmp [] t = true
strncmp (c ∷ cs) [] = false
strncmp (c ∷ cs) (d ∷ ds) = c == d && strncmp cs ds

-- `strstr (t, s)`: the rest of `t` from the first occurrence on.
unfoldable pub strstr : List ℕ → List ℕ → Option (List ℕ)
strstr [] s = if strncmp s [] then some [] else none
strstr (c ∷ cs) s = if strncmp s (c ∷ cs) then some (c ∷ cs) else strstr cs s

-- `isspace`
unfoldable pub isspace : ℕ → Bool
isspace c = c == 32 || (leb 9 c && leb c 13)

unfoldable pub skip_space : List ℕ → List ℕ
skip_space [] = []
skip_space (c ∷ cs) = if isspace c then skip_space cs else c ∷ cs

unfoldable pub word : ℕ → List ℕ → List ℕ
word zero t = []
word (suc n) [] = []
word (suc n) (c ∷ cs) = if isspace c then [] else c ∷ word n cs

-- `sscanf (t, "%<n>s", …)`: what it stores, if anything is left.
unfoldable pub sscanf_s : ℕ → List ℕ → List ℕ
sscanf_s n t = word n (skip_space t)

abbrev pub is_minus : List ℕ → Bool
is_minus [] = false
is_minus (c ∷ cs) = c == b'-'

-- The digits of `%d` at the head of a text: their value from `n` on.
unfoldable pub scan_digits : ℕ → List ℕ → ℕ
scan_digits n [] = n
scan_digits n (c ∷ cs) =
    let rest = scan_digits (n * 10 + (c - b'0')) cs in if leb b'0' c && leb c b'9' then rest else n

unfoldable pub skip_sign : List ℕ → List ℕ
skip_sign [] = []
skip_sign (c ∷ cs) = if c == b'-' || c == b'+' then cs else c ∷ cs

-- `%d` of a number that is not negative, with fuel for its digits.
unfoldable pub digits : ℕ → ℕ → List ℕ
digits zero n = []
digits (suc fuel) n =
    let rest = digits fuel (n / 10) in
    if ltb n 10 then (b'0' + n) ∷ [] else rest ++ (b'0' + n % 10) ∷ []

unfoldable pub print_d : ℕ → List ℕ
print_d n = digits 10 n

-- `snprintf (buffer, size, …)` of a text: what it returns, and the buffer.
unfoldable pub snprintf : List ℕ → ℕ → List ℕ → ℕ × List ℕ
snprintf buffer size text = (length text, blit buffer 0 (take (size - 1) text ++ 0 ∷ []))

-- A text at the length `n`: cut, or filled up with NULs, as `strncpy` stores it.
unfoldable pub pad : ℕ → List ℕ → List ℕ
pad zero t = []
pad (suc n) [] = 0 ∷ pad n []
pad (suc n) (c ∷ cs) = c ∷ pad n cs

-- No byte is a NUL.
abbrev pub HasNoNul : List ℕ → Type 0
HasNoNul [] = Unit
HasNoNul (c ∷ cs) = (0 < c) × HasNoNul cs

-- No byte is a space or a NUL.
abbrev pub IsWord : List ℕ → Type 0
IsWord [] = Unit
IsWord (c ∷ cs) = (isspace c ≡ false) × IsWord cs

pub c_string-append : (t : List ℕ) (rest : List ℕ) → HasNoNul t → c_string (t ++ 0 ∷ rest) ≡ t
unfolding c_string
c_string-append [] rest h = refl
c_string-append (c ∷ cs) rest (pos, h) = ground (arith, c_string-append cs rest h)

-- A word that fits is read whole up to the space behind it.
pub word-append :
    (n : ℕ) (w : List ℕ) (c : ℕ) (rest : List ℕ)
    → IsWord w
    → length w ≤ n
    → isspace c ≡ true
    → word n (w ++ c ∷ rest) ≡ w
unfolding word
word-append zero [] c rest h fits s = refl
word-append (suc n) [] c rest h fits s = rw s refl
word-append zero (d ∷ ds) c rest h fits s = absurd (omega arith)
word-append (suc n) (d ∷ ds) c rest (hd, h) fits s =
    rw (hd, word) (ap (λ l. d ∷ l) (word-append n ds c rest h (omega arith) s))

pub length-digits : (fuel n : ℕ) → length (digits fuel n) ≤ fuel
unfolding digits
length-digits zero n = omega arith
length-digits (suc fuel) n = ground (
  arith,
  length-digits fuel (n / 10),
  length-append (digits fuel (n / 10)) ((b'0' + n % 10) ∷ []),
)

pub length-print_d : (n : ℕ) → length (print_d n) ≤ 10
unfolding print_d
length-print_d n = length-digits 10 n

pub take_all : (n : ℕ) (t : List ℕ) → length t ≤ n → take n t ≡ t
take_all zero [] h = refl
take_all zero (c ∷ cs) h = absurd (omega arith)
take_all (suc n) [] h = refl
take_all (suc n) (c ∷ cs) h = ap (λ l. c ∷ l) (take_all n cs (omega arith))

-- A text that fits is stored whole, with a NUL behind it.
pub snprintf_lem :
    (buffer : List ℕ) (size : ℕ) (text : List ℕ)
    → length text < size
    → size ≤ length buffer
    → snprintf buffer size text ≡ (length text, text ++ 0 ∷ drop (length text + 1) buffer)
unfolding snprintf
snprintf_lem buffer size text fits room =
    let one = length-append text (0 ∷ []) in
    let all = take_all (size - 1) text (omega arith) in
    let stored : blit buffer 0 (text ++ 0 ∷ []) ≡ text ++ 0 ∷ drop (length text + 1) buffer =
      blit_start buffer (text ++ 0 ∷ []) (omega (arith, one))
      ∙ append_assoc text (0 ∷ []) (drop (length (text ++ 0 ∷ [])) buffer)
      ∙ ap (λ n. text ++ 0 ∷ drop n buffer) one in
    rw all (ap (λ l. (length text, l)) stored)
