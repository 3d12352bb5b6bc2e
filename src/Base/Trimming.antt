-- ===== src/Base/Trimming.antt =====
-- strings.TrimSpace keeps what it has trimmed, and only takes characters away.
use mathlib.Core.Path.{◌≡◌, refl, sym, ap, ◌∙◌}
use mathlib.Core.Bool.{Bool, true, false, ◌&&◌}
use mathlib.Core.List.{[], ◌∷◌, ◌++◌, reverse, reverse-append, reverse-reverse, reverse-cons}
use mathlib.Core.Logic.{inl, inr}
use Prim.Native.Nat.{ℕ}
use native.Mathlib.Omega.{arith}
use image_validating_webhook.Base.Tests.{Bool-cases}
use image_validating_webhook.Base.Lists.{all}
use image_validating_webhook.Base.Strings.{Text, is_space, trim_left, trim_space, begins}

module _ (p : ℕ → Bool) where
  all-append : (u v : Text) → all p (u ++ v) ≡ (all p u && all p v)
  all-append [] v = refl
  all-append (c ∷ u) v = ground (arith, all-append u v)

  all-reverse : (s : Text) → all p s ≡ true → all p (reverse s) ≡ true
  all-reverse [] h = refl
  all-reverse (c ∷ s) h = rw (reverse-cons, all-append) (ground (arith, all-reverse s))

  all-trim_left : (s : Text) → all p s ≡ true → all p (trim_left s) ≡ true
  unfolding trim_left
  all-trim_left [] h = refl
  all-trim_left (c ∷ s) h = ground (arith, all-trim_left s)

  -- What holds of every character holds of what trimming leaves.
  pub all-trim_space : (s : Text) → all p s ≡ true → all p (trim_space s) ≡ true
  unfolding trim_space
  all-trim_space s h = all-reverse _ (all-trim_left _ (all-reverse _ (all-trim_left s h)))

  begins-prefix : (u v : Text) → begins p (u ++ v) ≡ false → begins p u ≡ false
  begins-prefix [] v h = refl
  begins-prefix (c ∷ u) v h = h

trim_left-begins : (s : Text) → begins is_space (trim_left s) ≡ false
unfolding trim_left
trim_left-begins [] = refl
trim_left-begins (c ∷ s) = ground (arith, trim_left-begins s)

trim_left_of_begins : (s : Text) → begins is_space s ≡ false → trim_left s ≡ s
unfolding trim_left
trim_left_of_begins [] h = refl
trim_left_of_begins (c ∷ s) h = rw h

trim_left-suffix : (s : Text) → (w : Text) × (s ≡ w ++ trim_left s)
unfolding trim_left
trim_left-suffix [] = ([], refl)
trim_left-suffix (c ∷ s) = elim (Bool-cases (is_space c)) [
  | inl space ↦ let (w, e) = trim_left-suffix s in (c ∷ w, rw space (ap (λ t. c ∷ t) e))
  | inr other ↦ ([], rw other)
]

trim_right-begins :
    (s : Text)
    → begins is_space s ≡ false
    → begins is_space (reverse (trim_left (reverse s))) ≡ false
trim_right-begins s h =
    let (w, e) = trim_left-suffix (reverse s) in
    let back : s ≡ reverse (trim_left (reverse s)) ++ reverse w =
      sym (reverse-reverse s) ∙ ap reverse e ∙ reverse-append w (trim_left (reverse s)) in
    begins-prefix is_space (reverse (trim_left (reverse s))) (reverse w)
      (ap (begins is_space) (sym back) ∙ h)

pub trim_space_idem : (s : Text) → trim_space (trim_space s) ≡ trim_space s
unfolding trim_space
trim_space_idem s =
    let left = trim_left s in
    rw (
      trim_left_of_begins (reverse (trim_left (reverse left)))
          (trim_right-begins left (trim_left-begins s)),
      reverse-reverse,
      trim_left_of_begins (trim_left (reverse left)) (trim_left-begins (reverse left)),
    )
