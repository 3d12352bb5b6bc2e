-- ===== src/Validator/Names.antt =====
-- pkg/admissions/pods/validator.go: what the validator keeps of a pod, whatever its answer.
use image_validating_webhook.Base.{
  ◌≡◌, ◌⊎◌, subst, refl, sym, ap, inl, inr, Bool, true, false, not, Bool-cases, none, some, List,
  [], ◌∷◌, map, if◌then◌else◌, arith, Text, Result-cases, done, fails, panics, Outcome-cases,
}
use image_validating_webhook.ImageRef.{ImageRef, parse_image}
use image_validating_webhook.Policy.{RegistrySpec, does_match_policy}
use image_validating_webhook.Signature.{Signature, fetch_signature}
use image_validating_webhook.WhiteList.{is_image_white_listed, is_namespace_white_listed}
use image_validating_webhook.Validator.{
  image_message, notary, meets_no_policy, reject, accept, Container, Pod, Answer, Services,
  Validator, get_basic_auth_for_registry, pin_digest, under_policy, check_signature, check_notary,
  add_digest_when_image_valid, both_answered, notary_image_valid, or_cosign,
  check_is_valid_and_add_digest,
}

abbrev pub names : List Container → List Text
names cs = map (λ c. c.name) cs

-- The two pods have the same namespace and pull secrets, and the same containers by name, in order.
abbrev pub SameNames : Pod → Pod → Type 0
SameNames a b =
    (a.namespace ≡ b.namespace)
    × (a.image_pull_secrets ≡ b.image_pull_secrets)
    × (names a.init_containers ≡ names b.init_containers)
    × (names a.containers ≡ names b.containers)

pin_digest-name :
    (c : Container) (ref : ImageRef) (policy_signer : List Text) (sig : Signature)
    → (pin_digest c ref policy_signer sig).0.name ≡ c.name
unfolding pin_digest
pin_digest-name c ref policy_signer sig = ground arith

if-ends : {A : Type 0} (P : A → Type 0) (b : Bool) (x y : A) → P x → P y → P (if b then x else y)
if-ends P true x y p q = p
if-ends P false x y p q = q

under_policy-ends :
    {A : Type 0} (P : A → Type 0) (m : Bool × RegistrySpec) (accepted rejected : A)
    (check : RegistrySpec → A)
    → P accepted
    → P rejected
    → ((p : RegistrySpec) → P (check p))
    → P (under_policy m accepted check rejected)
unfolding under_policy
under_policy-ends P (matches, p) accepted rejected check a r k =
    if-ends P _ _ _ a (if-ends P matches _ _ (if-ends P (not p.sign_check) _ _ a (k p)) r)

both_answered-names :
    (pod : Pod) (first second : List Container × Answer)
    → names first.0 ≡ names pod.init_containers
    → names second.0 ≡ names pod.containers
    → SameNames (both_answered pod first second).0 pod
unfolding both_answered
both_answered-names pod (inits, done (true, s)) (cs, next) e f = (refl, refl, e, f)
both_answered-names pod (inits, done (false, s)) second e f = (refl, refl, e, refl)
both_answered-names pod (inits, fails m) second e f = (refl, refl, e, refl)
both_answered-names pod (inits, panics) second e f = (refl, refl, e, refl)

module _ {Image Reference Block Key Verifier Sig : Type 0}
    (services : Services Image Reference Block Key Verifier Sig) where
  check_signature-name :
      (c : Container) (ref : ImageRef) (basic_auth : Text) (policy : RegistrySpec)
      → (check_signature services c ref basic_auth policy).0.name ≡ c.name
  unfolding check_signature
  check_signature-name c ref basic_auth policy =
      elim (Result-cases
        (fetch_signature services.image_client services.arrange c.image basic_auth policy.notary)) [
          | inr (e, failed) ↦ rw (failed, check_signature) refl
          | inl (none, unsigned) ↦ rw (unsigned, check_signature) refl
          | inl (some sig, fetched) ↦
              rw (fetched, check_signature) (pin_digest-name c ref policy.signer sig)
        ]

  module _ (h : Validator) where
    check_notary-name :
        (namespace : Text) (pull_secrets : List Text) (c : Container)
        → (check_notary services h namespace pull_secrets c).0.name ≡ c.name
    unfolding check_notary
    check_notary-name namespace pull_secrets c = elim (Result-cases (parse_image c.image)) [
      | inr (e, bad) ↦ rw (bad, check_notary) refl
      | inl (ref, parsed) ↦
          elim (Outcome-cases
            (get_basic_auth_for_registry services ref.host namespace pull_secrets)) [
              | inl (basic_auth, found) ↦
                  rw (parsed, found, check_notary)
                    (under_policy-ends (λ x. x.0.name ≡ c.name)
                      (does_match_policy h.registry_policy_cache ref.host namespace) (c, accept)
                      (c, reject (image_message notary c.image meets_no_policy))
                      (λ p. check_signature services c ref basic_auth p) refl refl
                      (λ p. check_signature-name c ref basic_auth p))
              | inr (inl (e, bad)) ↦ rw (parsed, bad, check_notary) refl
              | inr (inr bad) ↦ rw (parsed, bad, check_notary) refl
            ]
    ]

    add_digest-names :
        (namespace : Text) (pull_secrets : List Text) (cs : List Container)
        → names (add_digest_when_image_valid services h namespace pull_secrets cs).0 ≡ names cs
    unfolding add_digest_when_image_valid
    add_digest-names namespace pull_secrets [] = refl
    add_digest-names namespace pull_secrets (c ∷ cs) =
        elim (Bool-cases (is_image_white_listed h.white_list c.image)) [
          | inl listed ↦
              rw (listed, add_digest_when_image_valid)
                (ap (λ ns. c.name ∷ ns) (add_digest-names namespace pull_secrets cs))
          | inr other ↦
              rw (other, add_digest_when_image_valid)
                (ap (λ n. n ∷ names cs) (check_notary-name namespace pull_secrets c))
        ]

    notary_image_valid-names : (pod : Pod) → SameNames (notary_image_valid services h pod).0 pod
    unfolding notary_image_valid
    notary_image_valid-names pod =
        both_answered-names pod _ _
          (add_digest-names pod.namespace pod.image_pull_secrets pod.init_containers)
          (add_digest-names pod.namespace pod.image_pull_secrets pod.containers)

    or_cosign-pod : (given : Pod × Answer) → (or_cosign services h given).0 ≡ given.0
    unfolding or_cosign
    or_cosign-pod (pod, done (true, r)) = refl
    or_cosign-pod (pod, done (false, r)) = refl
    or_cosign-pod (pod, fails e) = refl
    or_cosign-pod (pod, panics) = refl

    -- Whatever the answer, the pod that the validator leaves has the same namespace, pull secrets and
    -- containers by name and order. It is the pod that was given where the namespace is whitelisted, and
    -- the one that Notary's part left where it is not: Cosign's part changes nothing.
    pub check-names :
        (pod : Pod)
        → let checked = (check_is_valid_and_add_digest services h pod).0 in
          SameNames checked pod
          × (((is_namespace_white_listed h.white_list pod.namespace ≡ true) × (checked ≡ pod))
              ⊎ ((is_namespace_white_listed h.white_list pod.namespace ≡ false)
                  × (checked ≡ (notary_image_valid services h pod).0)))
    unfolding check_is_valid_and_add_digest
    check-names pod = elim (Bool-cases (is_namespace_white_listed h.white_list pod.namespace)) [
      | inl listed ↦
          rw (listed, check_is_valid_and_add_digest) ((refl, refl, refl, refl), inl (refl, refl))
      | inr other ↦
          let same = or_cosign-pod (notary_image_valid services h pod) in
          rw (other, check_is_valid_and_add_digest)
            (
              subst (λ p. SameNames p pod) (sym same) (notary_image_valid-names pod),
              inr (refl, same),
            )
    ]
