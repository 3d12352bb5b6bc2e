-- ===== src/Validator/Loops.antt =====
-- pkg/admissions/pods/validator.go: the loops over a pod's containers, which end at the first
-- container that is not whitelisted.
use image_validating_webhook.Base.{
  ◌≡◌, ◌⊎◌, refl, ap, inl, inr, true, false, Bool-cases, List, [], ◌∷◌, ◌++◌, All, Text,
}
use image_validating_webhook.WhiteList.{is_image_white_listed}
use image_validating_webhook.Validator.{
  Container, accept, Services, Validator, check_notary, add_digest_when_image_valid,
  check_cosign_policy, add_digest_when_image_valid_cosign,
}

abbrev pub WhiteListed : Validator → Container → Type 0
WhiteListed h c = is_image_white_listed h.white_list c.image ≡ true

-- The list is whitelisted up to a first container that is not.
abbrev pub FirstOther :
    Validator → List Container → List Container → Container → List Container → Type 0
FirstOther h cs before c after =
    (cs ≡ before ++ c ∷ after)
    × All (WhiteListed h) before
    × (is_image_white_listed h.white_list c.image ≡ false)

pub WhiteListed-cases :
    (h : Validator) (cs : List Container)
    → All (WhiteListed h) cs
      ⊎ ((before : List Container) × (c : Container) × (after : List Container) × FirstOther h cs
            before c after)
WhiteListed-cases h [] = inl tt
WhiteListed-cases h (c ∷ cs) = elim (Bool-cases (is_image_white_listed h.white_list c.image)) [
  | inr other ↦ inr ([], c, cs, (refl, tt, other))
  | inl listed ↦ elim (WhiteListed-cases h cs) [
    | inl rest ↦ inl (listed, rest)
    | inr (before, d, after, (same, rest, other)) ↦
        inr (c ∷ before, d, after, (ap (λ ds. c ∷ ds) same, (listed, rest), other))
  ]
]

module _ {Image Reference Block Key Verifier Sig : Type 0}
    (services : Services Image Reference Block Key Verifier Sig) (h : Validator) where
  pub add_digest-WhiteListed :
      (namespace : Text) (pull_secrets : List Text) (cs : List Container)
      → All (WhiteListed h) cs
      → add_digest_when_image_valid services h namespace pull_secrets cs ≡ (cs, accept)
  unfolding add_digest_when_image_valid
  add_digest-WhiteListed namespace pull_secrets [] listed = refl
  add_digest-WhiteListed namespace pull_secrets (c ∷ cs) (l, ls) =
      rw (l, add_digest-WhiteListed namespace pull_secrets cs ls, add_digest_when_image_valid) refl

  -- Behind whitelisted containers, the first other one decides: the loop's answer is the check's
  -- answer for it, and the containers behind it are neither checked nor changed.
  pub add_digest-first :
      (namespace : Text) (pull_secrets : List Text) (before : List Container) (c : Container)
      (after : List Container)
      → All (WhiteListed h) before
      → is_image_white_listed h.white_list c.image ≡ false
      → add_digest_when_image_valid services h namespace pull_secrets (before ++ c ∷ after) ≡ (
        before ++ (check_notary services h namespace pull_secrets c).0 ∷ after,
        (check_notary services h namespace pull_secrets c).1,
      )
  unfolding add_digest_when_image_valid
  add_digest-first namespace pull_secrets [] c after listed other =
      rw (other, add_digest_when_image_valid) refl
  add_digest-first namespace pull_secrets (b ∷ before) c after (l, ls) other =
      rw
        (
          l,
          add_digest-first namespace pull_secrets before c after ls other,
          add_digest_when_image_valid,
        )
        refl

  pub add_digest_cosign-WhiteListed :
      (namespace : Text) (cs : List Container)
      → All (WhiteListed h) cs
      → add_digest_when_image_valid_cosign services h namespace cs ≡ accept
  unfolding add_digest_when_image_valid_cosign
  add_digest_cosign-WhiteListed namespace [] listed = refl
  add_digest_cosign-WhiteListed namespace (c ∷ cs) (l, ls) =
      rw (l, add_digest_cosign-WhiteListed namespace cs ls, add_digest_when_image_valid_cosign) refl

  -- The same holds of Cosign's loop.
  pub add_digest_cosign-first :
      (namespace : Text) (before : List Container) (c : Container) (after : List Container)
      → All (WhiteListed h) before
      → is_image_white_listed h.white_list c.image ≡ false
      → add_digest_when_image_valid_cosign services h namespace (before ++ c ∷ after)
        ≡ check_cosign_policy services h namespace c
  unfolding add_digest_when_image_valid_cosign
  add_digest_cosign-first namespace [] c after listed other =
      rw (other, add_digest_when_image_valid_cosign) refl
  add_digest_cosign-first namespace (b ∷ before) c after (l, ls) other =
      rw
        (
          l,
          add_digest_cosign-first namespace before c after ls other,
          add_digest_when_image_valid_cosign,
        )
        refl
