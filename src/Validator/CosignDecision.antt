-- ===== src/Validator/CosignDecision.antt =====
-- pkg/admissions/pods/validator.go: exactly when Cosign accepts one image.
use image_validating_webhook.Base.{
  ◌≡◌, ◌≢◌, ◌↔◌, refl, inl, inr, Bool, Option, none, some, List, arith, Text, Result-cases, Returns,
  Finishes,
}
use image_validating_webhook.ImageRef.{parse_image}
use image_validating_webhook.Policy.{RegistrySpec, does_match_policy}
use image_validating_webhook.Cosign.{get_key_pair_secret, get_public_key, valid}
use image_validating_webhook.Cosign.Keys.{get_public_key-keys}
use image_validating_webhook.Validator.{
  Container, accept, reject, image_message, cosign, meets_no_policy, Services, Validator,
  signature_answer, under_policy, check_cosign, check_cosign_policy,
}
use image_validating_webhook.Validator.Decision.{Governed, Governed-map, under_policy_iff}

signature_answer_iff :
    {Sig : Type 0} (image : Text) (v : Option (List Sig) × Option Text)
    → (signature_answer image v ≡ accept) ↔ ((v.1 ≡ none) × (v.0 ≢ none))
unfolding signature_answer
signature_answer_iff image (sig, some e) =
    (λ h. absurd (ground arith), λ (h, _). absurd (ground arith))
signature_answer_iff image (none, none) = (λ h. absurd (ground arith), λ (_, h). absurd (h refl))
signature_answer_iff image (some sig, none) = (λ _. (refl, λ h. absurd (ground arith)), λ _. refl)

rejected≢accepted : (reason : Text) → reject reason ≢ accept
rejected≢accepted reason h = ground arith

module _ {Image Reference Block Key Verifier Sig : Type 0}
    (services : Services Image Reference Block Key Verifier Sig) where
  -- The policy's secret is found, its keys are read, and `Valid` returns signatures and no error.
  abbrev pub CosignSigned : Container → RegistrySpec → Type 0
  CosignSigned c policy =
      Returns (get_key_pair_secret services.get_secret policy.cosign_key_ref) λ secret.
        Finishes (get_public_key services.key_codec secret.contents) λ keys.
          Returns (services.parse_reference c.image) λ ref.
            ((valid services.sigstore ref policy.signer keys).1 ≡ none)
            × ((valid services.sigstore ref policy.signer keys).0 ≢ none)

  check_cosign_iff :
      (c : Container) (policy : RegistrySpec)
      → (check_cosign services c policy ≡ accept) ↔ CosignSigned c policy
  unfolding check_cosign
  check_cosign_iff c policy =
      elim (Result-cases (get_key_pair_secret services.get_secret policy.cosign_key_ref)) [
        | inr (e, bad) ↦ rw (bad, check_cosign) (λ h. absurd (ground arith), λ h. absurd h)
        | inl (secret, found) ↦ elim (Result-cases (services.parse_reference c.image)) [
          | inr (e, bad) ↦
              rw (found, get_public_key-keys services.key_codec secret.contents, bad, check_cosign)
                (λ h. absurd (ground arith), λ h. absurd h)
          | inl (ref, parsed) ↦
              rw
                (
                  found,
                  get_public_key-keys services.key_codec secret.contents,
                  parsed,
                  check_cosign,
                )
                (signature_answer_iff c.image _)
        ]
      ]

  governed :
      (m : Bool × RegistrySpec) (c : Container)
      → (under_policy m accept
            (λ p. check_cosign services c p)
            (reject (image_message cosign c.image meets_no_policy))
          ≡ accept)
        ↔ Governed m (accept ≡ accept) (CosignSigned c)
  governed m c =
      let (to, from) =
        under_policy_iff m accept (λ p. check_cosign services c p)
          (reject (image_message cosign c.image meets_no_policy)) accept (rejected≢accepted _) in
      (
        λ e. Governed-map m _ _ _ _ (λ x. x) (λ p k. (check_cosign_iff c p).0 k) (to e),
        λ g. from (Governed-map m _ _ _ _ (λ x. x) (λ p k. (check_cosign_iff c p).1 k) g),
      )

  module _ (h : Validator) where
    -- Cosign's part accepts an image exactly if it is parsed, a policy matches, and that policy asks for
    -- no signature, or the secret that it names is found, the image is a reference, and the check of its
    -- signatures against the secret's keys and the policy's signers returns signatures and no error.
    pub check_cosign_policy_iff :
        (namespace : Text) (c : Container)
        → (check_cosign_policy services h namespace c ≡ accept)
          ↔ Returns (parse_image c.image) λ ref.
            Governed
              (does_match_policy h.registry_policy_cache ref.host namespace)
              (accept ≡ accept)
              (CosignSigned c)
    unfolding check_cosign_policy
    check_cosign_policy_iff namespace c = elim (Result-cases (parse_image c.image)) [
      | inr (e, bad) ↦ rw (bad, check_cosign_policy) (λ h. absurd (ground arith), λ h. absurd h)
      | inl (ref, parsed) ↦
          rw (parsed, check_cosign_policy)
            (governed (does_match_policy h.registry_policy_cache ref.host namespace) c)
    ]
