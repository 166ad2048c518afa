-- ===== src/MqttClient/Waiting.antt =====
-- src/main.cpp: how `internet_task` waits for the credentials.
use mathlib.Core.Path.{subst}
use mathlib.Core.List.{append-nil}
use pico_drone.Common.{
  ℕ, zero, suc, ◌≡◌, refl, ap, sym, ◌∙◌, inl, inr, Option, none, some, Bool, true, false, List, [],
  ◌∷◌, ◌++◌, length, take, replicate, arith, ltb, ◌&&◌, if◌then◌else◌,
}
use pico_drone.Common.Text.{codes}
use pico_drone.Network as Network
use pico_drone.Network.{ssid_size, password_size}
use pico_drone.Network.Credentials.{AreTexts, last_value, cgi_handler-credentials, Holds}
use pico_drone.MqttClient.{
  Event, task_delay, Waited, ready, waiting, Form, submitted, delayed, wait_credentials,
}

abbrev pub ssid_of : Form → List ℕ
ssid_of form = last_value (codes "ssid") form []

abbrev pub password_of : Form → List ℕ
password_of form = last_value (codes "password") form []

abbrev pub AllTexts : List Form → Type 0
AllTexts [] = Unit
AllTexts (form ∷ forms) = AreTexts form × AllTexts forms

-- Whether a form has a name and a password, none of them empty.
abbrev pub is_complete : Form → Bool
is_complete form = ltb 0 (length (ssid_of form)) && ltb 0 (length (password_of form))

-- The credentials of the last complete form, cut to 31 and 63 bytes, or those before.
abbrev pub last_complete : List Form → Option (List ℕ × List ℕ) → Option (List ℕ × List ℕ)
last_complete [] before = before
last_complete (form ∷ forms) before =
    last_complete forms (
      if is_complete form
      then some (take 31 (ssid_of form), take 63 (password_of form))
      else before)

-- No form of any delay is complete.
abbrev pub AreIdle : List (List Form) → Type 0
AreIdle [] = Unit
AreIdle (forms ∷ rounds) = AllTexts forms × (last_complete forms none ≡ none) × AreIdle rounds

-- The arrays have their sizes, and the members are unset, or they are set and hold the credentials.
abbrev pub Knows : Network.Network → Option (List ℕ × List ℕ) → Type 0
Knows s none =
    (length s.ssid ≡ ssid_size)
    × (length s.password ≡ password_size)
    × (Network.are_credentials_set s ≡ false)
Knows s (some (v, w)) =
    Holds s.ssid ssid_size v
    × Holds s.password password_size w
    × (Network.are_credentials_set s ≡ true)

Knows-sizes :
    (s : Network.Network) (k : Option (List ℕ × List ℕ))
    → Knows s k
    → (length s.ssid ≡ ssid_size) × (length s.password ≡ password_size)
Knows-sizes s none h = (h.0, h.1)
Knows-sizes s (some (v, w)) h = (h.0.0, h.1.0)

cgi_handler-Knows :
    (s : Network.Network) (form : Form) (k : Option (List ℕ × List ℕ))
    → Knows s k
    → AreTexts form
    → (page : List ℕ) × (s' : Network.Network) × (Network.cgi_handler s form ≡ some (page, s'))
      × Knows s' (
          if is_complete form then some (take 31 (ssid_of form), take 63 (password_of form)) else k)
cgi_handler-Knows s form k h texts =
    let (e, e') = Knows-sizes s k h in
    elim (cgi_handler-credentials s form false e e' texts) [
      | inl (s', done, page, ssid, password, set, joined, one, two) ↦
          let full : is_complete form ≡ true = ground arith in
          (Network.confirm_page, s', done, rw full (ssid, password, set))
      | inr (same, page, why) ↦
          let lacks : is_complete form ≡ false = elim why [
            | inl no_ssid ↦ rw no_ssid refl
            | inr no_password ↦ ground (arith, ap length no_password)
          ] in
          (Network.index_page, s, same, rw lacks h)
    ]

pub submitted-Knows :
    (s : Network.Network) (forms : List Form) (k : Option (List ℕ × List ℕ))
    → Knows s k
    → AllTexts forms
    → (s' : Network.Network) × (submitted forms s ≡ some s') × Knows s' (last_complete forms k)
unfolding submitted
submitted-Knows s [] k h texts = (s, refl, h)
submitted-Knows s (form ∷ forms) k h (texts, more) =
    let (page, s', done, known) = cgi_handler-Knows s form k h texts in
    let next =
      if is_complete form then some (take 31 (ssid_of form), take 63 (password_of form)) else k in
    let (s'', rest, known') = submitted-Knows s' forms next known more in
    (s'', rw (done, submitted) rest, known')

unfoldable pub delays : ℕ → Waited → Waited
delays zero w = w
delays (suc n) w = delayed (delays n w)

wait_credentials-more :
    (s s' : Network.Network) (forms : List Form) (rounds : List (List Form))
    → Network.are_credentials_set s ≡ false
    → submitted forms s ≡ some s'
    → wait_credentials (forms ∷ rounds) s ≡ delayed (wait_credentials rounds s')
unfolding wait_credentials
wait_credentials-more s s' forms rounds unset e = rw (unset, e, wait_credentials) refl

-- Delays without a complete form leave the loop waiting, with the members unset.
pub wait_credentials-idle :
    (s : Network.Network) (idle rest : List (List Form))
    → Knows s none
    → AreIdle idle
    → (s' : Network.Network) × Knows s' none
      × (wait_credentials (idle ++ rest) s ≡ delays (length idle) (wait_credentials rest s'))
unfolding delays
wait_credentials-idle s [] rest h i = (s, h, refl)
wait_credentials-idle s (forms ∷ idle) rest h (texts, none_, is) =
    let (s1, done, known) = submitted-Knows s forms none h texts in
    let known1 : Knows s1 none = subst (λ k. Knows s1 k) none_ known in
    let (s2, known2, later) = wait_credentials-idle s1 idle rest known1 is in
    (s2, known2, wait_credentials-more s s1 forms (idle ++ rest) h.2 done ∙ ap delayed later)

pub delays-ready :
    (n : ℕ) (s : Network.Network) (events : List Event)
    → delays n (ready s events) ≡ ready s (replicate n (task_delay 1000) ++ events)
unfolding delays delayed
delays-ready zero s events = refl
delays-ready (suc n) s events = ap delayed (delays-ready n s events)

pub delays-waiting : (n : ℕ) → delays n waiting ≡ waiting
unfolding delays delayed
delays-waiting zero = refl
delays-waiting (suc n) = ap delayed (delays-waiting n)

pub wait_credentials-waiting :
    (s : Network.Network) (idle : List (List Form))
    → Knows s none
    → AreIdle idle
    → wait_credentials idle s ≡ waiting
unfolding wait_credentials
wait_credentials-waiting s idle h is =
    let (s', known, later) = wait_credentials-idle s idle [] h is in
    ap (λ l. wait_credentials l s) (sym (append-nil idle))
    ∙ later
    ∙ ap (delays (length idle)) (rw (known.2, wait_credentials) refl)
    ∙ delays-waiting (length idle)

wait_credentials-set :
    (s : Network.Network) (rounds : List (List Form))
    → Network.are_credentials_set s ≡ true
    → wait_credentials rounds s ≡ ready s []
unfolding wait_credentials
wait_credentials-set s [] set = rw (set, wait_credentials) refl
wait_credentials-set s (forms ∷ rounds) set = rw (set, wait_credentials) refl

-- A delay in which a complete form comes is the last one; the members then hold the credentials
-- of the last complete form in it.
pub wait_credentials_complete :
    (s : Network.Network) (forms : List Form) (later : List (List Form)) (v w : List ℕ)
    → Knows s none
    → AllTexts forms
    → last_complete forms none ≡ some (v, w)
    → (s' : Network.Network) × Knows s' (some (v, w))
      × (wait_credentials (forms ∷ later) s ≡ ready s' (task_delay 1000 ∷ []))
unfolding delayed
wait_credentials_complete s forms later v w h texts found =
    let (s', done, known) = submitted-Knows s forms none h texts in
    let known' : Knows s' (some (v, w)) = subst (λ k. Knows s' k) found known in
    (
      s',
      known',
      wait_credentials-more s s' forms later h.2 done
          ∙ ap delayed (wait_credentials-set s' later known'.2),
    )
