-- ===== src/Validator.antt =====
-- pkg/admissions/pods/validator.go: the check of a pod's images against the whitelist, the security
-- policies, and the signatures of Notary and Cosign. The methods change the containers in place, so
-- each returns them beside its outcome, which is a pair `(valid, reason)`, an error or a panic.
mod Answers
pub mod Credentials
pub mod Loops
pub mod Decision
pub mod CosignDecision
pub mod Reasons
pub mod Names
pub mod Digests
pub mod Acceptance
pub mod Combining
pub mod Verdict
pub mod Isolation
pub mod Tests
use image_validating_webhook.Base.{
  Bool, true, false, not, ◌&&◌, Option, none, some, List, [], ◌∷◌, ◌++◌, if◌then◌else◌, Text, codes,
  ◌==◌, is_empty, join, contains, Result, ok, err, Outcome, done, fails, panics, ◌>=>◌,
}
use image_validating_webhook.ImageRef.{ImageRef, to_string, parse_image}
use image_validating_webhook.WhiteList.{WhiteList, is_namespace_white_listed, is_image_white_listed}
use image_validating_webhook.Policy.{
  RegistrySpec, RegistryPolicyCache, docker_io, does_match_policy,
}
use image_validating_webhook.Secret.{Secret, Codec, new_image_pull_secret, get_host_basic_auth}
use image_validating_webhook.Trust.{TrustTagRow}
use image_validating_webhook.Signature.{
  Signature, get_digest, match_signer, ImageClient, fetch_signature,
}
use image_validating_webhook.Cosign.{KeyCodec, Sigstore, get_key_pair_secret, get_public_key, valid}
pub use Answers.*

-- `corev1.Container` and `corev1.Pod`, as far as the source reads them; a pull secret is its name.
pub record Container : Type 0 where
  pub name : Text
  pub image : Text

pub record Pod : Type 0 where
  pub namespace : Text
  pub image_pull_secrets : List Text
  pub init_containers : List Container
  pub containers : List Container

unfoldable pub find_registry_server : Text → Text
find_registry_server registry =
    if registry == docker_io
    then codes "https://registry-1.docker.io"
    else codes "https://" ++ registry

-- The libraries and servers behind the validator: the API server's secrets by namespace and name, the
-- registry and the notary server, the order of a Go map's entries, and the signing libraries.
pub record Services (Image Reference Block Key Verifier Sig : Type 0) : Type 0 where
  pub get_secret : Text → Text → Result Secret
  pub codec : Codec
  pub image_client : ImageClient Image
  pub arrange : List TrustTagRow → List TrustTagRow
  pub key_codec : KeyCodec Block Key
  -- name.ParseReference
  pub parse_reference : Text → Result Reference
  pub sigstore : Sigstore Reference Key Verifier Sig

-- `validator`
pub record Validator : Type 0 where
  pub registry_policy_cache : RegistryPolicyCache
  pub white_list : WhiteList

-- The part of `addDigestWhenImageValid` behind the fetched signature.
unfoldable pub pin_digest : Container → ImageRef → List Text → Signature → Container × Answer
pin_digest container ref policy_signer sig =
    let digest = get_digest sig ref.tag in
    if not (match_signer sig policy_signer)
    then (container, reject (image_message notary container.image has_invalid_signer))
    else if not (is_empty ref.digest) && not (ref.digest == digest)
    then (container, reject (image_message notary container.image has_other_digest))
    else (record container { image = to_string (record ref { digest = digest }) }, accept)

-- What the loops over the init containers and over the containers leave of the pod, and the answer;
-- the second one is not run unless the first one accepts.
unfoldable pub both_answered :
    Pod → List Container × Answer → List Container × Answer → Pod × Answer
both_answered pod (inits, panics) second = (record pod { init_containers = inits }, panics)
both_answered pod (inits, fails e) second = (record pod { init_containers = inits }, fails e)
both_answered pod (inits, done (false, reason)) second =
    (record pod { init_containers = inits }, reject reason)
both_answered pod (inits, done (true, _)) (containers, next) =
    (record pod { init_containers = inits; containers = containers }, passed_up next)

-- The answer to the signatures and the error that `Valid` returned; the signatures may be nil.
unfoldable pub signature_answer : {Sig : Type 0} → Text → Option (List Sig) × Option Text → Answer
signature_answer image (sig, some e) = reject (
    image_message cosign image
      (if contains e incorrect_annotation then has_invalid_signer else is_invalid))
signature_answer image (none, none) = reject (image_message cosign image has_empty_signature)
signature_answer image (some sig, none) = accept

-- The tests of both loops on what `doesMatchPolicy` returned: an exempting policy, one that asks for
-- the check of signatures, or no policy.
unfoldable pub under_policy : {A : Type 0} → Bool × RegistrySpec → A → (RegistrySpec → A) → A → A
under_policy (matches, policy) accepted check rejected =
    if matches && is_empty policy.registry
    then accepted
    else if matches
    then (if not policy.sign_check then accepted else check policy)
    else rejected

module _ {Image Reference Block Key Verifier Sig : Type 0}
    (services : Services Image Reference Block Key Verifier Sig) where
  unfoldable pub get_basic_auth_for_registry : Text → Text → List Text → Outcome Text
  get_basic_auth_for_registry host namespace [] = done []
  get_basic_auth_for_registry host namespace (name ∷ pull_secrets) =
      elim (services.get_secret namespace name) [
        | err e ↦ fails (no_secret name e)
        | ok secret ↦ elim (new_image_pull_secret services.codec secret) [
          | err e ↦ fails e
          | ok image_pull_secret ↦
              (let rest = get_basic_auth_for_registry host namespace pull_secrets in
                get_host_basic_auth services.codec image_pull_secret (find_registry_server host)
                >=> λ basic_auth. if is_empty basic_auth then rest else done basic_auth)
        ]
      ]

  -- The part behind the policy.
  unfoldable pub check_signature : Container → ImageRef → Text → RegistrySpec → Container × Answer
  check_signature container ref basic_auth policy =
      elim (fetch_signature services.image_client services.arrange container.image basic_auth
        policy.notary) [
          | err e ↦ (container, fails e)
          | ok none ↦ (container, reject (image_message notary container.image is_invalid))
          | ok (some sig) ↦ pin_digest container ref policy.signer sig
        ]

  -- The part of `addDigestWhenImageValidCosign` behind the policy.
  unfoldable pub check_cosign : Container → RegistrySpec → Answer
  check_cosign container policy =
      elim (get_key_pair_secret services.get_secret policy.cosign_key_ref) [
        | err e ↦ fails e
        | ok secret ↦ get_public_key services.key_codec secret.contents >=> λ keys.
            (elim (services.parse_reference container.image) [
              | err e ↦ fails e
              | ok img_ref ↦
                  signature_answer container.image
                    (valid services.sigstore img_ref policy.signer keys)
            ])
      ]

  module _ (h : Validator) where
    -- One turn of the loop of `addDigestWhenImageValid`, behind the whitelist: every path returns.
    unfoldable pub check_notary : Text → List Text → Container → Container × Answer
    check_notary namespace pull_secrets container = elim (parse_image container.image) [
      | err e ↦ (container, fails e)
      | ok ref ↦ elim (get_basic_auth_for_registry ref.host namespace pull_secrets) [
        | panics ↦ (container, panics)
        | fails e ↦ (container, fails e)
        | done basic_auth ↦
            under_policy (does_match_policy h.registry_policy_cache ref.host namespace)
              (container, accept) (λ policy. check_signature container ref basic_auth policy)
              (container, reject (image_message notary container.image meets_no_policy))
      ]
    ]

    unfoldable pub add_digest_when_image_valid :
        Text → List Text → List Container → List Container × Answer
    add_digest_when_image_valid namespace pull_secrets [] = ([], accept)
    add_digest_when_image_valid namespace pull_secrets (container ∷ containers) =
        let (rest, answer) = add_digest_when_image_valid namespace pull_secrets containers in
        let (checked, checked_answer) = check_notary namespace pull_secrets container in
        if is_image_white_listed h.white_list container.image
        then (container ∷ rest, answer)
        else (checked ∷ containers, checked_answer)

    -- One turn of the loop of `addDigestWhenImageValidCosign`, which changes no container.
    unfoldable pub check_cosign_policy : Text → Container → Answer
    check_cosign_policy namespace container = elim (parse_image container.image) [
      | err e ↦ fails e
      | ok ref ↦
          under_policy (does_match_policy h.registry_policy_cache ref.host namespace) accept
            (λ policy. check_cosign container policy)
            (reject (image_message cosign container.image meets_no_policy))
    ]

    unfoldable pub add_digest_when_image_valid_cosign : Text → List Container → Answer
    add_digest_when_image_valid_cosign namespace [] = accept
    add_digest_when_image_valid_cosign namespace (container ∷ containers) =
        let rest = add_digest_when_image_valid_cosign namespace containers in
        if is_image_white_listed h.white_list container.image
        then rest
        else check_cosign_policy namespace container

    -- The containers are reached only if the init containers are valid.
    unfoldable pub notary_image_valid : Pod → Pod × Answer
    notary_image_valid pod =
        both_answered pod
          (add_digest_when_image_valid pod.namespace pod.image_pull_secrets pod.init_containers)
          (add_digest_when_image_valid pod.namespace pod.image_pull_secrets pod.containers)

    unfoldable pub cosign_image_valid : Pod → Answer
    cosign_image_valid pod =
        next_answer (add_digest_when_image_valid_cosign pod.namespace pod.init_containers)
          (add_digest_when_image_valid_cosign pod.namespace pod.containers)

    -- The part of `CheckIsValidAndAddDigest` behind the notary's answer.
    unfoldable pub or_cosign : Pod × Answer → Pod × Answer
    or_cosign (pod, panics) = (pod, panics)
    or_cosign (pod, fails e) = (pod, fails e)
    or_cosign (pod, done (true, _)) = (pod, accept)
    or_cosign (pod, done (false, reason)) = (pod, last_answer reason (cosign_image_valid pod))

    unfoldable pub check_is_valid_and_add_digest : Pod → Pod × Answer
    check_is_valid_and_add_digest pod =
        if is_namespace_white_listed h.white_list pod.namespace
        then (pod, accept)
        else or_cosign (notary_image_valid pod)
