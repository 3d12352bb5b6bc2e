-- ===== src/Validator/Reasons.antt =====
-- pkg/admissions/pods/validator.go: a positive answer never has a reason.
use image_validating_webhook.Base.{
  false, fails, panics, ◌≡◌, refl, inl, inr, Bool, true, Bool-cases, Option, none, some, List, [],
  ◌∷◌, arith, Text, Result-cases, done, Outcome-cases,
}
use image_validating_webhook.ImageRef.{ImageRef, parse_image}
use image_validating_webhook.Policy.{RegistrySpec, does_match_policy}
use image_validating_webhook.Signature.{Signature, fetch_signature}
use image_validating_webhook.WhiteList.{is_image_white_listed}
use image_validating_webhook.Cosign.{get_key_pair_secret}
use image_validating_webhook.Cosign.Keys.{get_public_key-keys}
use image_validating_webhook.Validator.{
  Pod, both_answered, passed_up, next_answer, image_message, notary, cosign, meets_no_policy,
  signature_answer, check_cosign, check_cosign_policy, add_digest_when_image_valid_cosign,
  Container, Answer, accept, reject, Services, Validator, get_basic_auth_for_registry, pin_digest,
  under_policy, check_signature, check_notary, add_digest_when_image_valid,
}

-- The answer is not positive with a reason.
abbrev pub Plain : Answer → Type 0
Plain a = (r : Text) → a ≡ done (true, r) → a ≡ accept

reject-Plain : (reason : Text) → Plain (reject reason)
reject-Plain reason r e = absurd (ground arith)

pin_digest-Plain :
    (c : Container) (ref : ImageRef) (policy_signer : List Text) (sig : Signature)
    → Plain (pin_digest c ref policy_signer sig).1
unfolding pin_digest
pin_digest-Plain c ref policy_signer sig r = ground arith

under_policy-Plain :
    {A : Type 0} (answer : A → Answer) (m : Bool × RegistrySpec) (accepted rejected : A)
    (check : RegistrySpec → A)
    → Plain (answer accepted)
    → Plain (answer rejected)
    → ((p : RegistrySpec) → Plain (answer (check p)))
    → Plain (answer (under_policy m accepted check rejected))
unfolding under_policy
under_policy-Plain answer (matches, p) accepted rejected check a b plain r =
    ground (arith, a r, b r, plain p r)

pub passed_up-Plain : (a : Answer) → Plain (passed_up a)
passed_up-Plain (done (true, s)) r e = refl
passed_up-Plain (done (false, s)) r e = absurd (ground arith)
passed_up-Plain (fails e') r e = absurd (ground arith)
passed_up-Plain panics r e = absurd (ground arith)

pub next_answer-Plain : (a b : Answer) → Plain a → Plain (next_answer a b)
next_answer-Plain (done (true, s)) b p = passed_up-Plain b
next_answer-Plain (done (false, s)) b p = p
next_answer-Plain (fails e') b p = p
next_answer-Plain panics b p = p

pub both_answered-Plain :
    (pod : Pod) (first second : List Container × Answer) → Plain (both_answered pod first second).1
unfolding both_answered
both_answered-Plain pod (inits, done (true, s)) (cs, next) = passed_up-Plain next
both_answered-Plain pod (inits, done (false, s)) second = λ r e. absurd (ground arith)
both_answered-Plain pod (inits, fails e') second = λ r e. absurd (ground arith)
both_answered-Plain pod (inits, panics) second = λ r e. absurd (ground arith)

accept-Plain : Plain accept
accept-Plain r e = refl

module _ {Image Reference Block Key Verifier Sig : Type 0}
    (services : Services Image Reference Block Key Verifier Sig) where
  check_signature-Plain :
      (c : Container) (ref : ImageRef) (basic_auth : Text) (policy : RegistrySpec)
      → Plain (check_signature services c ref basic_auth policy).1
  unfolding check_signature
  check_signature-Plain c ref basic_auth policy r =
      elim (Result-cases
        (fetch_signature services.image_client services.arrange c.image basic_auth policy.notary)) [
          | inr (e, failed) ↦ rw (failed, check_signature) (λ h. absurd (ground arith))
          | inl (none, unsigned) ↦ rw (unsigned, check_signature) (λ h. absurd (ground arith))
          | inl (some sig, fetched) ↦
              rw (fetched, check_signature) (pin_digest-Plain c ref policy.signer sig r)
        ]

  signature_answer-Plain :
      (image : Text) (v : Option (List Sig) × Option Text) → Plain (signature_answer image v)
  unfolding signature_answer
  signature_answer-Plain image (sig, some e) r = λ h. absurd (ground arith)
  signature_answer-Plain image (none, none) r = λ h. absurd (ground arith)
  signature_answer-Plain image (some sig, none) r = λ h. refl

  check_cosign-Plain :
      (c : Container) (policy : RegistrySpec) → Plain (check_cosign services c policy)
  unfolding check_cosign
  check_cosign-Plain c policy r =
      elim (Result-cases (get_key_pair_secret services.get_secret policy.cosign_key_ref)) [
        | inr (e, bad) ↦ rw (bad, check_cosign) (λ h. absurd (ground arith))
        | inl (secret, found) ↦ elim (Result-cases (services.parse_reference c.image)) [
          | inr (e, bad) ↦
              rw (found, get_public_key-keys services.key_codec secret.contents, bad, check_cosign)
                (λ h. absurd (ground arith))
          | inl (ref, parsed) ↦
              rw
                (
                  found,
                  get_public_key-keys services.key_codec secret.contents,
                  parsed,
                  check_cosign,
                )
                (signature_answer-Plain c.image _ r)
        ]
      ]

  module _ (h : Validator) where
    check_notary-Plain :
        (namespace : Text) (pull_secrets : List Text) (c : Container)
        → Plain (check_notary services h namespace pull_secrets c).1
    unfolding check_notary
    check_notary-Plain namespace pull_secrets c r = elim (Result-cases (parse_image c.image)) [
      | inr (e, bad) ↦ rw (bad, check_notary) (λ h. absurd (ground arith))
      | inl (ref, parsed) ↦
          elim (Outcome-cases
            (get_basic_auth_for_registry services ref.host namespace pull_secrets)) [
              | inl (basic_auth, found) ↦
                  rw (parsed, found, check_notary)
                    (under_policy-Plain (λ x. x.1)
                      (does_match_policy h.registry_policy_cache ref.host namespace) (c, accept)
                      (c, reject (image_message notary c.image meets_no_policy))
                      (λ p. check_signature services c ref basic_auth p) accept-Plain
                      (reject-Plain _) (λ p. check_signature-Plain c ref basic_auth p) r)
              | inr (inl (e, bad)) ↦ rw (parsed, bad, check_notary) (λ h. absurd (ground arith))
              | inr (inr bad) ↦ rw (parsed, bad, check_notary) (λ h. absurd (ground arith))
            ]
    ]

    pub add_digest-Plain :
        (namespace : Text) (pull_secrets : List Text) (cs : List Container)
        → Plain (add_digest_when_image_valid services h namespace pull_secrets cs).1
    unfolding add_digest_when_image_valid
    add_digest-Plain namespace pull_secrets [] r = λ e. refl
    add_digest-Plain namespace pull_secrets (c ∷ cs) r =
        elim (Bool-cases (is_image_white_listed h.white_list c.image)) [
          | inl listed ↦
              rw (listed, add_digest_when_image_valid)
                (add_digest-Plain namespace pull_secrets cs r)
          | inr other ↦
              rw (other, add_digest_when_image_valid)
                (check_notary-Plain namespace pull_secrets c r)
        ]

    check_cosign_policy-Plain :
        (namespace : Text) (c : Container) → Plain (check_cosign_policy services h namespace c)
    unfolding check_cosign_policy
    check_cosign_policy-Plain namespace c r = elim (Result-cases (parse_image c.image)) [
      | inr (e, bad) ↦ rw (bad, check_cosign_policy) (λ h. absurd (ground arith))
      | inl (ref, parsed) ↦
          rw (parsed, check_cosign_policy)
            (under_policy-Plain (λ x. x)
              (does_match_policy h.registry_policy_cache ref.host namespace) accept
              (reject (image_message cosign c.image meets_no_policy))
              (λ p. check_cosign services c p) accept-Plain (reject-Plain _)
              (λ p. check_cosign-Plain c p) r)
    ]

    pub add_digest_cosign-Plain :
        (namespace : Text) (cs : List Container)
        → Plain (add_digest_when_image_valid_cosign services h namespace cs)
    unfolding add_digest_when_image_valid_cosign
    add_digest_cosign-Plain namespace [] r = λ e. refl
    add_digest_cosign-Plain namespace (c ∷ cs) r =
        elim (Bool-cases (is_image_white_listed h.white_list c.image)) [
          | inl listed ↦
              rw (listed, add_digest_when_image_valid_cosign)
                (add_digest_cosign-Plain namespace cs r)
          | inr other ↦
              rw (other, add_digest_when_image_valid_cosign)
                (check_cosign_policy-Plain namespace c r)
        ]
