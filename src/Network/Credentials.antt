-- ===== src/Network/Credentials.antt =====
-- src/src/Network/NetworkClass.cpp: the form sets the credentials, inside their arrays.
use mathlib.Core.List.{append_assoc}
use pico_drone.Common.{
  ℕ, zero, suc, ◌<◌, ◌≡◌, refl, ap, sym, ◌∙◌, ◌⊎◌, inl, inr, some, Bool, true, false, not, ◌&&◌,
  List, [], ◌∷◌, ◌++◌, ◌==◌, ltb, if◌then◌else◌, length, length-append, length-take, length-blit,
  take, drop, replicate, get_or, blit, arith, Bool-cases,
}
use pico_drone.Common.Append.{blit_start, drop-append}
use pico_drone.Common.Text.{codes, c_string, strcmp, pad, HasNoNul, c_string-append}
use pico_drone.Network.{
  Network, ssid_size, password_size, strcpy, strncpy, set_credentials, read_form, confirm_page,
  index_page, cgi_handler, cgi_page, connect, enable_sta_mode, connect_timeout_ms,
  are_credentials_set,
}

length-pad : (n : ℕ) (t : List ℕ) → length (pad n t) ≡ n
unfolding pad
length-pad zero t = refl
length-pad (suc n) [] = ap suc (length-pad n [])
length-pad (suc n) (c ∷ cs) = ap suc (length-pad n cs)

-- An array that was zero, with a text stored by `strncpy` up to its last byte.
abbrev array : ℕ → List ℕ → List ℕ
array n t = pad n t ++ 0 ∷ []

array-zero : (n : ℕ) → array n [] ≡ replicate (suc n) 0
unfolding pad
array-zero zero = refl
array-zero (suc n) = ap (λ l. 0 ∷ l) (array-zero n)

strncpy-array : (n : ℕ) (t value : List ℕ) → strncpy (array n t) value n ≡ array n value
unfolding strncpy
strncpy-array n t value =
    let sizes = length-append (pad n t) (0 ∷ []) in
    blit_start (array n t) (pad n value) (omega (arith, sizes, length-pad n t, length-pad n value))
    ∙ ap (λ l. pad n value ++ l)
        (drop-append (length (pad n value)) (pad n t) (0 ∷ [])
          (length-pad n value ∙ sym (length-pad n t)))

c_string-array : (n : ℕ) (t : List ℕ) → HasNoNul t → c_string (array n t) ≡ take n t
unfolding c_string pad
c_string-array zero [] h = refl
c_string-array zero (c ∷ cs) h = refl
c_string-array (suc n) [] h = refl
c_string-array (suc n) (c ∷ cs) (pos, h) = ground (arith, c_string-array n cs h)

-- The value of the last parameter of a name, or the one before the form.
abbrev pub last_value : List ℕ → List (List ℕ × List ℕ) → List ℕ → List ℕ
last_value key [] before = before
last_value key ((name, value) ∷ params) before =
    last_value key params (if strcmp name key then value else before)

abbrev pub AreTexts : List (List ℕ × List ℕ) → Type 0
AreTexts [] = Unit
AreTexts ((name, value) ∷ params) = HasNoNul value × AreTexts params

strcmp-eq : (s t : List ℕ) → strcmp s t ≡ true → s ≡ t
unfolding strcmp
strcmp-eq [] [] h = refl
strcmp-eq [] (d ∷ ds) h = absurd (cc h)
strcmp-eq (c ∷ cs) [] h = absurd (cc h)
strcmp-eq (c ∷ cs) (d ∷ ds) h = ground (arith, strcmp-eq cs ds)

names_differ : strcmp (codes "ssid") (codes "password") ≡ false
unfolding strcmp
names_differ = refl

password_lem :
    (name : List ℕ)
    → (not (strcmp name (codes "ssid")) && strcmp name (codes "password"))
      ≡ strcmp name (codes "password")
password_lem name = elim (Bool-cases (strcmp name (codes "ssid"))) [
  | inl same ↦
      let e = strcmp-eq name (codes "ssid") same in
      let other : strcmp name (codes "password") ≡ false =
        ap (λ l. strcmp l (codes "password")) e ∙ names_differ in
      rw (same, other) refl
  | inr other ↦ rw other refl
]

if_array :
    (test : Bool) (n : ℕ) (t value : List ℕ)
    → (if test then strncpy (array n t) value n else array n t)
      ≡ array n (if test then value else t)
if_array true n t value = strncpy-array n t value
if_array false n t value = refl

read_form-last :
    (params : List (List ℕ × List ℕ)) (t u : List ℕ)
    → read_form params (array 31 t) (array 63 u) ≡ (
      array 31 (last_value (codes "ssid") params t),
      array 63 (last_value (codes "password") params u),
    )
unfolding read_form
read_form-last [] t u = refl
read_form-last ((name, value) ∷ params) t u =
    let is_ssid = strcmp name (codes "ssid") in
    let is_password = strcmp name (codes "password") in
    ap
      (λ b.
        read_form params (if is_ssid then strncpy (array 31 t) value 31 else array 31 t)
          (if b then strncpy (array 63 u) value 63 else array 63 u))
      (password_lem name)
    ∙ ap
        (λ a.
          read_form params a (if is_password then strncpy (array 63 u) value 63 else array 63 u))
        (if_array is_ssid 31 t value)
    ∙ ap (λ a. read_form params (array 31 (if is_ssid then value else t)) a)
        (if_array is_password 63 u value)
    ∙ read_form-last params (if is_ssid then value else t) (if is_password then value else u)

last_value-HasNoNul :
    (key : List ℕ) (params : List (List ℕ × List ℕ)) (before : List ℕ)
    → AreTexts params
    → HasNoNul before
    → HasNoNul (last_value key params before)
last_value-HasNoNul key [] before h b = b
last_value-HasNoNul key ((name, value) ∷ params) before (v, h) b =
    elim (Bool-cases (strcmp name key)) [
      | inl same ↦ rw same (last_value-HasNoNul key params value h v)
      | inr other ↦ rw other (last_value-HasNoNul key params before h b)
    ]

-- An array holds a text: it has its size, and the text stands before its first NUL.
abbrev pub Holds : List ℕ → ℕ → List ℕ → Type 0
Holds a size t = (length a ≡ size) × (c_string a ≡ t)

strcpy-Holds :
    (dst t : List ℕ) (size : ℕ)
    → length dst ≡ size
    → length t < size
    → HasNoNul t
    → (dst' : List ℕ) × (strcpy dst t ≡ some dst') × Holds dst' size t
unfolding strcpy
strcpy-Holds dst t size e fits nuls =
    let room : ltb (length t) (length dst) ≡ true = ground arith in
    let stored =
      blit_start dst (t ++ 0 ∷ []) (omega (arith, length-append t (0 ∷ [])))
      ∙ append_assoc t (0 ∷ []) (drop (length (t ++ 0 ∷ [])) dst) in
    (
      blit dst 0 (t ++ 0 ∷ []),
      rw (room, strcpy) refl,
      (
        length-blit dst 0 (t ++ 0 ∷ []) ∙ e,
        ap c_string stored ∙ c_string-append t (drop (length (t ++ 0 ∷ [])) dst) nuls,
      ),
    )

take-HasNoNul : (n : ℕ) (t : List ℕ) → HasNoNul t → HasNoNul (take n t)
take-HasNoNul zero t h = tt
take-HasNoNul (suc n) [] h = tt
take-HasNoNul (suc n) (c ∷ cs) (pos, h) = (pos, take-HasNoNul n cs h)

-- Whether an array begins with a NUL.
first_lem :
    (n : ℕ) (t : List ℕ)
    → HasNoNul t
    → not (get_or (array (suc n) t) 0 0 == 0) ≡ not (length t == 0)
unfolding pad
first_lem n [] h = refl
first_lem n (c ∷ cs) (pos, h) = ground arith

list_empty : (l : List ℕ) → not (length l == 0) ≡ false → l ≡ []
list_empty [] e = refl
list_empty (x ∷ xs) e = absurd (ground arith)

-- A form, its texts in any number and order, is handled inside all arrays. Let an `ssid` and a
-- `password` be those that stand last in it. If both are there and not empty, the members hold their first 31
-- and 63 bytes, each with its NUL, the credentials count as set, the page confirms, and `connect`
-- joins with these texts; else nothing changes, and the page is the form again. The second handler
-- gives the same page.
pub cgi_handler-credentials :
    (s : Network) (params : List (List ℕ × List ℕ)) (failed : Bool)
    → length s.ssid ≡ ssid_size
    → length s.password ≡ password_size
    → AreTexts params
    → let ssid = last_value (codes "ssid") params [] in
      let password = last_value (codes "password") params [] in
      ((s' : Network) × (cgi_handler s params ≡ some (confirm_page, s'))
        × (cgi_page params ≡ confirm_page)
        × Holds s'.ssid ssid_size (take 31 ssid)
        × Holds s'.password password_size (take 63 password)
        × (are_credentials_set s' ≡ true)
        × (connect failed s' ≡ (
          if failed then 0 else 1,
          enable_sta_mode ∷ connect_timeout_ms (take 31 ssid) (take 63 password) 30000 ∷ [],
        ))
        × (0 < length ssid)
        × (0 < length password))
      ⊎ ((cgi_handler s params ≡ some (index_page, s))
          × (cgi_page params ≡ index_page)
          × ((ssid ≡ []) ⊎ (password ≡ [])))
unfolding cgi_handler cgi_page set_credentials connect are_credentials_set
cgi_handler-credentials s params failed e e' texts =
    let v = last_value (codes "ssid") params [] in
    let w = last_value (codes "password") params [] in
    let hv = last_value-HasNoNul (codes "ssid") params [] texts tt in
    let hw = last_value-HasNoNul (codes "password") params [] texts tt in
    let form : read_form params (replicate 32 0) (replicate 64 0) ≡ (array 31 v, array 63 w) =
      ap (λ a. read_form params a (replicate 64 0)) (sym (array-zero 31))
      ∙ ap (λ a. read_form params (array 31 []) a) (sym (array-zero 63))
      ∙ read_form-last params [] [] in
    let first = first_lem 30 v hv in
    let second = first_lem 62 w hw in
    elim (Bool-cases (not (length v == 0))) [
      | inr none_ ↦
          inr (rw (form, first, none_) refl, rw (form, first, none_) refl, inl (list_empty v none_))
      | inl one ↦ elim (Bool-cases (not (length w == 0))) [
        | inr none_ ↦ inr (
          rw (form, first, one, second, none_) refl,
          rw (form, first, one, second, none_) refl,
          inr (list_empty w none_),
        )
        | inl two ↦
            let (ssid', copied, holds) =
              strcpy-Holds s.ssid (take 31 v) 32 e (omega (arith, length-take 31 v))
                (take-HasNoNul 31 v hv) in
            let (password', copied', holds') =
              strcpy-Holds s.password (take 63 w) 64 e' (omega (arith, length-take 63 w))
                (take-HasNoNul 63 w hw) in
            inl (
              record { ssid = ssid'; password = password'; is_credentials_set = true },
              rw
                  (
                    form,
                    first,
                    one,
                    second,
                    two,
                    c_string-array 31 v hv,
                    c_string-array 63 w hw,
                    copied,
                    copied',
                  )
                  refl,
              rw (form, first, one, second, two) refl,
              holds,
              holds',
              refl,
              rw (holds.1, holds'.1) refl,
              ground arith,
              ground arith,
            )
      ]
    ]
