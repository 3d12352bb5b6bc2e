-- ===== src/Validator/Acceptance.antt =====
-- pkg/admissions/pods/validator.go: exactly when the loops accept a list of containers.
use image_validating_webhook.Base.{
  ◌≡◌, ◌↔◌, ◌⊎◌, ◌∙◌, sym, ap, inl, inr, List, ◌∷◌, ◌++◌, All, Text,
}
use image_validating_webhook.Validator.{
  Container, accept, Services, Validator, check_notary, add_digest_when_image_valid,
  check_cosign_policy, add_digest_when_image_valid_cosign,
}
use image_validating_webhook.Validator.Loops.{
  WhiteListed, FirstOther, WhiteListed-cases, add_digest-WhiteListed, add_digest-first,
  add_digest_cosign-WhiteListed, add_digest_cosign-first,
}
use image_validating_webhook.Validator.Decision.{NotaryAccepts, check_notary_iff}

module _ {Image Reference Block Key Verifier Sig : Type 0}
    (services : Services Image Reference Block Key Verifier Sig) (h : Validator) where
  -- All containers are whitelisted and stay, or the first other one is accepted by Notary, and may be
  -- pinned.
  abbrev pub LoopAccepts : Text → List Text → List Container → List Container → Type 0
  LoopAccepts namespace pull_secrets cs cs' =
      (All (WhiteListed h) cs × (cs ≡ cs'))
      ⊎ ((before : List Container) × (c : Container) × (after : List Container) × (c' : Container)
          × (before ++ c' ∷ after ≡ cs')
          × NotaryAccepts services h namespace pull_secrets c c'
          × FirstOther h cs before c after)

  pub add_digest_iff :
      (namespace : Text) (pull_secrets : List Text) (cs cs' : List Container)
      → (add_digest_when_image_valid services h namespace pull_secrets cs ≡ (cs', accept))
        ↔ LoopAccepts namespace pull_secrets cs cs'
  add_digest_iff namespace pull_secrets cs cs' = (
    λ e. elim (WhiteListed-cases h cs) [
      | inl listed ↦ inl (
        listed,
        ap (λ x. x.0)
            (sym (add_digest-WhiteListed services h namespace pull_secrets cs listed) ∙ e),
      )
      | inr (before, c, after, (same, listed, other)) ↦
          let decided =
            sym (add_digest-first services h namespace pull_secrets before c after listed other)
            ∙ ap (λ ds. add_digest_when_image_valid services h namespace pull_secrets ds) (sym same)
            ∙ e in
          let checked = check_notary services h namespace pull_secrets c in
          inr (
            before,
            c,
            after,
            checked.0,
            ap (λ x. x.0) decided,
            (check_notary_iff services h namespace pull_secrets c checked.0).0
                (ap (λ x. (checked.0, x.1)) decided),
            (same, listed, other),
          )
    ],
    elim [
      | inl (listed, same) ↦
          add_digest-WhiteListed services h namespace pull_secrets cs listed
          ∙ ap (λ ds. (ds, accept)) same
      | inr (before, c, after, c', pinned, accepted, (same, listed, other)) ↦
          let checked = (check_notary_iff services h namespace pull_secrets c c').1 accepted in
          ap (λ ds. add_digest_when_image_valid services h namespace pull_secrets ds) same
          ∙ add_digest-first services h namespace pull_secrets before c after listed other
          ∙ ap (λ x. (before ++ x.0 ∷ after, x.1)) checked
          ∙ ap (λ ds. (ds, accept)) pinned
    ],
  )

  -- Cosign accepts a list of containers: they are whitelisted, or the first other one is accepted.
  abbrev pub CosignLoopAccepts : Text → List Container → Type 0
  CosignLoopAccepts namespace cs =
      All (WhiteListed h) cs
      ⊎ ((before : List Container) × (c : Container) × (after : List Container)
          × (check_cosign_policy services h namespace c ≡ accept)
          × FirstOther h cs before c after)

  pub add_digest_cosign_iff :
      (namespace : Text) (cs : List Container)
      → (add_digest_when_image_valid_cosign services h namespace cs ≡ accept)
        ↔ CosignLoopAccepts namespace cs
  add_digest_cosign_iff namespace cs =
      let all =
        λ (ds : List Container). add_digest_when_image_valid_cosign services h namespace ds in
      (
        λ e. elim (WhiteListed-cases h cs) [
          | inl listed ↦ inl listed
          | inr (before, c, after, (same, listed, other)) ↦ inr (
            before,
            c,
            after,
            sym (add_digest_cosign-first services h namespace before c after listed other)
                ∙ ap all (sym same)
                ∙ e,
            (same, listed, other),
          )
        ],
        elim [
          | inl listed ↦ add_digest_cosign-WhiteListed services h namespace cs listed
          | inr (before, c, after, accepted, (same, listed, other)) ↦
              ap all same
              ∙ add_digest_cosign-first services h namespace before c after listed other
              ∙ accepted
        ],
      )
