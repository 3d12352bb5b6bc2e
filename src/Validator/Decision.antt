-- ===== src/Validator/Decision.antt =====
-- pkg/admissions/pods/validator.go: exactly when Notary accepts one image, and as what, and when
-- Cosign does.
use image_validating_webhook.Base.{
  ◌≡◌, ◌≢◌, ◌↔◌, ◌⊎◌, ap, inl, inr, Bool, true, false, Option, none, some, List, [], arith, Text,
  text_eq_iff, is_empty_iff, Result-cases, Outcome-cases, Returns, Finishes,
}
use image_validating_webhook.ImageRef.{ImageRef, to_string, parse_image}
use image_validating_webhook.Policy.{RegistrySpec, does_match_policy}
use image_validating_webhook.Signature.{Signature, get_digest, match_signer, fetch_signature}
use image_validating_webhook.Validator.{
  Container, Answer, accept, reject, image_message, notary, meets_no_policy, Services, Validator,
  get_basic_auth_for_registry, pin_digest, check_signature, under_policy, check_notary,
}

-- A policy that asks for no signature.
abbrev pub Exempt : RegistrySpec → Type 0
Exempt policy = (policy.registry ≡ []) ⊎ (policy.sign_check ≡ false)

-- The image reads as `ref` and names no digest other than the signed one.
abbrev pub Pinned : Container → ImageRef → Signature → List Text → Container → Type 0
Pinned c ref sig policy_signer c' =
    (match_signer sig policy_signer ≡ true)
    × ((ref.digest ≡ []) ⊎ (ref.digest ≡ get_digest sig ref.tag))
    × (c' ≡ record c { image = to_string (record ref { digest = get_digest sig ref.tag }) })

pub pin_digest_iff :
    (c : Container) (ref : ImageRef) (policy_signer : List Text) (sig : Signature) (c' : Container)
    → (pin_digest c ref policy_signer sig ≡ (c', accept)) ↔ Pinned c ref sig policy_signer c'
unfolding pin_digest
pin_digest_iff c ref policy_signer sig c' =
    ground (arith, is_empty_iff ref.digest, text_eq_iff ref.digest (get_digest sig ref.tag))

-- What a policy decides: it exempts, or it asks for a signature and `P` holds of it.
abbrev pub Decides : RegistrySpec → Type 0 → (RegistrySpec → Type 0) → Type 0
Decides policy E P =
    (Exempt policy × E) ⊎ ((policy.registry ≢ []) × (policy.sign_check ≡ true) × P policy)

-- A policy applies, and decides.
abbrev pub Governed : Bool × RegistrySpec → Type 0 → (RegistrySpec → Type 0) → Type 0
Governed m E P = (m.0 ≡ true) × Decides m.1 E P

pub under_policy_iff :
    {A : Type 0} (m : Bool × RegistrySpec) (accepted : A) (check : RegistrySpec → A)
    (rejected goal : A)
    → rejected ≢ goal
    → (under_policy m accepted check rejected ≡ goal)
      ↔ Governed m (accepted ≡ goal) (λ policy. check policy ≡ goal)
unfolding under_policy
under_policy_iff (false, policy) accepted check rejected goal other =
    (λ h. absurd (other h), λ (h, _). absurd (ground arith))
under_policy_iff (true, policy) accepted check rejected goal other =
    ground (arith, is_empty_iff policy.registry)

pub Governed-map :
    (m : Bool × RegistrySpec) (E F : Type 0) (P Q : RegistrySpec → Type 0)
    → (E → F)
    → ((policy : RegistrySpec) → P policy → Q policy)
    → Governed m E P
    → Governed m F Q
Governed-map (b, policy) E F P Q f g (h, inl (x, e)) = (h, inl (x, f e))
Governed-map (b, policy) E F P Q f g (h, inr (x, y, p)) = (h, inr (x, y, g policy p))

-- The signature is there, and `P` holds of it.
abbrev pub Has : (Signature → Type 0) → Option Signature → Type 0
Has P none = ⊥
Has P (some sig) = P sig

rejected≢accepted :
    (c c' : Container) (reason : Text)
    → ◌≢◌ {A = Container × Answer} (c, reject reason) (c', accept)
rejected≢accepted c c' reason h = ground arith

module _ {Image Reference Block Key Verifier Sig : Type 0}
    (services : Services Image Reference Block Key Verifier Sig) where
  -- The notary server knows a signature of the image that pins it.
  abbrev pub Signed : Container → ImageRef → Text → RegistrySpec → Container → Type 0
  Signed c ref basic_auth policy c' =
      Returns
        (fetch_signature services.image_client services.arrange c.image basic_auth policy.notary)
        (Has λ sig. Pinned c ref sig policy.signer c')

  pub check_signature_iff :
      (c : Container) (ref : ImageRef) (basic_auth : Text) (policy : RegistrySpec) (c' : Container)
      → (check_signature services c ref basic_auth policy ≡ (c', accept))
        ↔ Signed c ref basic_auth policy c'
  unfolding check_signature
  check_signature_iff c ref basic_auth policy c' =
      elim (Result-cases
        (fetch_signature services.image_client services.arrange c.image basic_auth policy.notary)) [
          | inr (e, failed) ↦
              rw (failed, check_signature) (λ h. absurd (ground arith), λ h. absurd h)
          | inl (none, unsigned) ↦
              rw (unsigned, check_signature) (λ h. absurd (ground arith), λ h. absurd h)
          | inl (some sig, fetched) ↦
              rw (fetched, check_signature) (pin_digest_iff c ref policy.signer sig c')
        ]

  under_policy-notary :
      (m : Bool × RegistrySpec) (c : Container) (ref : ImageRef) (basic_auth reason : Text)
      (c' : Container)
      → (under_policy m
            (c, accept)
            (λ p. check_signature services c ref basic_auth p)
            (c, reject reason)
          ≡ (c', accept))
        ↔ Governed m (c ≡ c') (λ p. Signed c ref basic_auth p c')
  under_policy-notary m c ref basic_auth reason c' =
      let (to, from) =
        under_policy_iff m (c, accept) (λ p. check_signature services c ref basic_auth p)
          (c, reject reason) (c', accept) (rejected≢accepted c c' reason) in
      (
        λ h.
            Governed-map m _ _ _ _ (λ e. ap (λ x. x.0) e)
              (λ p e. (check_signature_iff c ref basic_auth p c').0 e) (to h),
        λ g. from (
            Governed-map m _ _ _ _ (λ e. ap (λ x. (x, accept)) e)
              (λ p e. (check_signature_iff c ref basic_auth p c').1 e) g),
      )

  module _ (h : Validator) where
    -- What an accepted image went through: it is parsed, its credentials are found, and a policy exempts
    -- it or has it signed.
    abbrev pub NotaryAccepts : Text → List Text → Container → Container → Type 0
    NotaryAccepts namespace pull_secrets c c' = Returns (parse_image c.image) λ ref.
        Finishes (get_basic_auth_for_registry services ref.host namespace pull_secrets)
          λ basic_auth.
            Governed (does_match_policy h.registry_policy_cache ref.host namespace) (c ≡ c')
              (λ policy. Signed c ref basic_auth policy c')

    -- The notary's part accepts an image exactly if it is parsed, its registry's credentials are found, a
    -- policy matches, and that policy asks for no signature and leaves the image as it is, or the notary server
    -- has a signature that matches the policy's signers and the image's own digest, if it names one; the
    -- image then is the one with the signed digest.
    pub check_notary_iff :
        (namespace : Text) (pull_secrets : List Text) (c c' : Container)
        → (check_notary services h namespace pull_secrets c ≡ (c', accept))
          ↔ NotaryAccepts namespace pull_secrets c c'
    unfolding check_notary
    check_notary_iff namespace pull_secrets c c' = elim (Result-cases (parse_image c.image)) [
      | inr (e, bad) ↦ rw (bad, check_notary) (λ h. absurd (ground arith), λ h. absurd h)
      | inl (ref, parsed) ↦
          elim (Outcome-cases
            (get_basic_auth_for_registry services ref.host namespace pull_secrets)) [
              | inl (basic_auth, found) ↦
                  rw (parsed, found, check_notary)
                    (under_policy-notary
                      (does_match_policy h.registry_policy_cache ref.host namespace) c ref
                      basic_auth (image_message notary c.image meets_no_policy) c')
              | inr (inl (e, bad)) ↦
                  rw (parsed, bad, check_notary) (λ h. absurd (ground arith), λ h. absurd h)
              | inr (inr bad) ↦
                  rw (parsed, bad, check_notary) (λ h. absurd (ground arith), λ h. absurd h)
            ]
    ]
