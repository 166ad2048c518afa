-- ===== src/Common/Find.antt =====
-- When a text holds another one, and what `strstr` finds of it.
use Prim.Native.Nat.{ℕ}
use mathlib.Core.Path.{◌≡◌, refl, ap, sym, ◌∙◌}
use mathlib.Core.Logic.{inl, inr}
use mathlib.Core.Bool.{true}
use mathlib.Core.Option.{none, some}
use mathlib.Core.List.{List, [], ◌∷◌, ◌++◌}
use native.Mathlib.Omega.{arith}
use pico_drone.Common.Tests.{Bool-cases, Option-cases}
use pico_drone.Common.Text.{strncmp, strstr}

-- The second text holds the first one somewhere.
abbrev pub Contains : List ℕ → List ℕ → Type 0
Contains key t = (before : List ℕ) × (after : List ℕ) × (t ≡ before ++ (key ++ after))

strncmp-prefix : (key t : List ℕ) → strncmp key t ≡ true → (after : List ℕ) × (t ≡ key ++ after)
unfolding strncmp
strncmp-prefix [] t e = (t, refl)
strncmp-prefix (c ∷ key) [] e = absurd (cc e)
strncmp-prefix (c ∷ key) (d ∷ t) e =
    let (after, same) = strncmp-prefix key t (ground arith) in
    let head : d ≡ c = ground arith in (after, rw head (ap (λ l. c ∷ l) same))

strncmp-append : (key after : List ℕ) → strncmp key (key ++ after) ≡ true
unfolding strncmp
strncmp-append [] after = refl
strncmp-append (c ∷ key) after = ground (arith, strncmp-append key after)

strstr_here : (key t : List ℕ) → strncmp key t ≡ true → strstr t key ≡ some t
unfolding strstr
strstr_here key [] e = rw (e, strstr) refl
strstr_here key (c ∷ t) e = rw (e, strstr) refl

strstr_found :
    (key before after : List ℕ) → (r : List ℕ) × (strstr (before ++ (key ++ after)) key ≡ some r)
unfolding strstr
strstr_found key [] after =
    (key ++ after, strstr_here key (key ++ after) (strncmp-append key after))
strstr_found key (c ∷ before) after =
    elim (Bool-cases (strncmp key (c ∷ (before ++ (key ++ after))))) [
      | inl here ↦ (c ∷ (before ++ (key ++ after)), rw (here, strstr) refl)
      | inr other ↦ let (r, e) = strstr_found key before after in (r, rw (other, strstr) e)
    ]

pub strstr-some : (t key : List ℕ) (r : List ℕ) → strstr t key ≡ some r → Contains key t
unfolding strstr
strstr-some [] key r e = elim (Bool-cases (strncmp key [])) [
  | inl here ↦ let (after, same) = strncmp-prefix key [] here in ([], after, same)
  | inr other ↦
      (let no : strstr [] key ≡ none = rw (other, strstr) refl in absurd (cc (sym e ∙ no)))
]
strstr-some (c ∷ t) key r e = elim (Bool-cases (strncmp key (c ∷ t))) [
  | inl here ↦ let (after, same) = strncmp-prefix key (c ∷ t) here in ([], after, same)
  | inr other ↦
      let (before, after, same) = strstr-some t key r (rw (other, strstr) at e) in
      (c ∷ before, after, ap (λ l. c ∷ l) same)
]

pub strstr-none : (t key : List ℕ) → strstr t key ≡ none → ¬ Contains key t
strstr-none t key e (before, after, same) =
    let (r, found) = strstr_found key before after in
    absurd (cc (sym e ∙ ap (λ l. strstr l key) same ∙ found))

pub strstr_absent : (t key : List ℕ) → ¬ Contains key t → strstr t key ≡ none
strstr_absent t key absent = elim (Option-cases (strstr t key)) [
  | inl e ↦ e
  | inr (r, e) ↦ absurd (absent (strstr-some t key r e))
]
