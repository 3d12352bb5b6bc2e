-- ===== src/Base/Splitting.antt =====
-- strings.Split and strings.Join at one character.
use Prim.Native.Nat.{ℕ}
use mathlib.Core.Path.{◌≡◌, refl, sym, ap, ap₂, ◌∙◌}
use mathlib.Core.Logic.{inl, inr}
use mathlib.Core.Bool.{true, false, not}
use mathlib.Core.List.{List, [], ◌∷◌, ◌++◌}
use native.Mathlib.Omega.{arith}
use image_validating_webhook.Base.Tests.{nat_eq, Bool-cases, nat_eq_iff}
use image_validating_webhook.Base.Lists.{all, All}
use image_validating_webhook.Base.Strings.{Text, split, join, cons_part}

abbrev pub Lacks : ℕ → Text → Type 0
Lacks sep s = all (λ c. not (nat_eq c sep)) s ≡ true

pub split-part : (p : Text) (sep : ℕ) → Lacks sep p → split p sep ≡ p ∷ []
unfolding split
split-part [] sep h = refl
split-part (c ∷ p) sep h = ground (arith, split-part p sep)

pub split-append : (p s : Text) (sep : ℕ) → Lacks sep p → split (p ++ sep ∷ s) sep ≡ p ∷ split s sep
unfolding split
split-append [] s sep h = ground arith
split-append (c ∷ p) s sep h = ground (arith, split-append p s sep)

Lacks-cons_part :
    (c : ℕ) (ps : List Text) (sep : ℕ)
    → nat_eq c sep ≡ false
    → All (Lacks sep) ps
    → All (Lacks sep) (cons_part c ps)
Lacks-cons_part c [] sep h k = ground arith
Lacks-cons_part c (p ∷ ps) sep h (l, k) = ground arith

pub split-Lacks : (s : Text) (sep : ℕ) → All (Lacks sep) (split s sep)
unfolding split
split-Lacks [] sep = (refl, tt)
split-Lacks (c ∷ s) sep = elim (Bool-cases (nat_eq c sep)) [
  | inl found ↦ rw found (refl, split-Lacks s sep)
  | inr other ↦ rw other (Lacks-cons_part c (split s sep) sep other (split-Lacks s sep))
]

join-cons_part :
    (c : ℕ) (p : Text) (ps : List Text) (sep : ℕ)
    → join (cons_part c (p ∷ ps)) sep ≡ c ∷ join (p ∷ ps) sep
unfolding join
join-cons_part c p [] sep = refl
join-cons_part c p (q ∷ ps) sep = refl

split-cons : (s : Text) (sep : ℕ) → (p : Text) × (ps : List Text) × (split s sep ≡ p ∷ ps)
unfolding split
split-cons [] sep = ([], [], refl)
split-cons (c ∷ s) sep = elim (Bool-cases (nat_eq c sep)) [
  | inl found ↦ ([], split s sep, rw found)
  | inr other ↦ let (p, ps, e) = split-cons s sep in (c ∷ p, ps, rw (other, e))
]

-- Joining what was split gives the text back.
pub join-split : (s : Text) (sep : ℕ) → join (split s sep) sep ≡ s
unfolding split join
join-split [] sep = refl
join-split (c ∷ s) sep =
    let (p, ps, e) = split-cons s sep in
    let again : join (p ∷ ps) sep ≡ s = ap (λ qs. join qs sep) (sym e) ∙ join-split s sep in
    elim (Bool-cases (nat_eq c sep)) [
      | inl found ↦ rw (found, e) (ap₂ (λ d t. d ∷ t) (sym ((nat_eq_iff c sep).0 found)) again)
      | inr other ↦ rw (other, e) (join-cons_part c p ps sep ∙ ap (λ t. c ∷ t) again)
    ]
