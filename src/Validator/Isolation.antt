-- ===== src/Validator/Isolation.antt =====
-- pkg/admissions/pods/validator.go over pkg/watcher/cachedclient.go: a pod is checked by the policies of the
-- cluster and of its own namespace.
use image_validating_webhook.Base.{
  ◌≡◌, ◌≢◌, refl, ◌∙◌, ap, inl, inr, true, false, List, [], ◌∷◌, if◌then◌else◌, Text, Lacks, Result,
  Result-cases, done, fails, panics, Outcome-cases,
}
use image_validating_webhook.ImageRef.{parse_image}
use image_validating_webhook.WhiteList.{WhiteList, is_namespace_white_listed}
use image_validating_webhook.Cache.{Object, Indexer, FakeCache}
use image_validating_webhook.Cache.Isolation.{Backed, SameIn}
use image_validating_webhook.Policy.{SecurityPolicy, RegistryPolicyCache, does_match_policy}
use image_validating_webhook.Policy.Store.{policy_cache, does_match_policy-isolated}
use image_validating_webhook.Validator.{
  Container, Pod, Answer, accept, Services, Validator, both_answered, last_answer, or_cosign,
  get_basic_auth_for_registry, check_notary, check_cosign_policy, add_digest_when_image_valid,
  add_digest_when_image_valid_cosign, notary_image_valid, cosign_image_valid,
  check_is_valid_and_add_digest,
}

both_answered-namespace :
    (pod : Pod) (one two : List Container × Answer)
    → (both_answered pod one two).0.namespace ≡ pod.namespace
unfolding both_answered
both_answered-namespace pod (inits, panics) two = refl
both_answered-namespace pod (inits, fails e) two = refl
both_answered-namespace pod (inits, done (false, reason)) two = refl
both_answered-namespace pod (inits, done (true, _)) (containers, next) = refl

module _ {Image Reference Block Key Verifier Sig : Type 0}
    (services : Services Image Reference Block Key Verifier Sig) (white_list : WhiteList)
    (c d : RegistryPolicyCache) (namespace : Text)
    (same : (registry : Text)
      → does_match_policy c registry namespace ≡ does_match_policy d registry namespace) where
  abbrev first : Validator
  first = record { registry_policy_cache = c; white_list = white_list }

  abbrev second : Validator
  second = record { registry_policy_cache = d; white_list = white_list }

  check_notary-same :
      (pull_secrets : List Text) (container : Container)
      → check_notary services first namespace pull_secrets container
        ≡ check_notary services second namespace pull_secrets container
  unfolding check_notary
  check_notary-same pull_secrets container = elim (Result-cases (parse_image container.image)) [
    | inr (e, failed) ↦ rw (failed, check_notary) refl
    | inl (ref, parsed) ↦
        elim (Outcome-cases
          (get_basic_auth_for_registry services ref.host namespace pull_secrets)) [
            | inl (auth, got) ↦ rw (parsed, got, same ref.host, check_notary) refl
            | inr (inl (e, failed)) ↦ rw (parsed, failed, check_notary) refl
            | inr (inr panicked) ↦ rw (parsed, panicked, check_notary) refl
          ]
  ]

  check_cosign_policy-same :
      (container : Container)
      → check_cosign_policy services first namespace container
        ≡ check_cosign_policy services second namespace container
  unfolding check_cosign_policy
  check_cosign_policy-same container = elim (Result-cases (parse_image container.image)) [
    | inr (e, failed) ↦ rw (failed, check_cosign_policy) refl
    | inl (ref, parsed) ↦ rw (parsed, same ref.host, check_cosign_policy) refl
  ]

  add_digest-same :
      (pull_secrets : List Text) (containers : List Container)
      → add_digest_when_image_valid services first namespace pull_secrets containers
        ≡ add_digest_when_image_valid services second namespace pull_secrets containers
  unfolding add_digest_when_image_valid
  add_digest-same pull_secrets [] = refl
  add_digest-same pull_secrets (container ∷ containers) =
      rw (add_digest-same pull_secrets containers, check_notary-same pull_secrets container) refl

  add_digest_cosign-same :
      (containers : List Container)
      → add_digest_when_image_valid_cosign services first namespace containers
        ≡ add_digest_when_image_valid_cosign services second namespace containers
  unfolding add_digest_when_image_valid_cosign
  add_digest_cosign-same [] = refl
  add_digest_cosign-same (container ∷ containers) =
      rw (add_digest_cosign-same containers, check_cosign_policy-same container) refl

  notary_image_valid-same :
      (pod : Pod)
      → pod.namespace ≡ namespace
      → notary_image_valid services first pod ≡ notary_image_valid services second pod
  unfolding notary_image_valid
  notary_image_valid-same pod at =
      rw
        (
          at,
          notary_image_valid,
          add_digest-same pod.image_pull_secrets pod.init_containers,
          add_digest-same pod.image_pull_secrets pod.containers,
        )
        refl

  cosign_image_valid-same :
      (pod : Pod)
      → pod.namespace ≡ namespace
      → cosign_image_valid services first pod ≡ cosign_image_valid services second pod
  unfolding cosign_image_valid
  cosign_image_valid-same pod at =
      rw
        (
          at,
          cosign_image_valid,
          add_digest_cosign-same pod.init_containers,
          add_digest_cosign-same pod.containers,
        )
        refl

  or_cosign-same :
      (r : Pod × Answer)
      → r.0.namespace ≡ namespace
      → or_cosign services first r ≡ or_cosign services second r
  unfolding or_cosign
  or_cosign-same (pod, panics) at = refl
  or_cosign-same (pod, fails e) at = refl
  or_cosign-same (pod, done (true, _)) at = refl
  or_cosign-same (pod, done (false, reason)) at =
      ap (λ a. (pod, last_answer reason a)) (cosign_image_valid-same pod at)

  notary_namespace :
      (pod : Pod)
      → pod.namespace ≡ namespace
      → (notary_image_valid services second pod).0.namespace ≡ namespace
  unfolding notary_image_valid
  notary_namespace pod at = both_answered-namespace pod _ _ ∙ at

  pub check-same :
      (pod : Pod)
      → pod.namespace ≡ namespace
      → check_is_valid_and_add_digest services first pod
        ≡ check_is_valid_and_add_digest services second pod
  unfolding check_is_valid_and_add_digest
  check-same pod at =
      ap (λ x. if is_namespace_white_listed white_list pod.namespace then (pod, accept) else x)
        (ap (or_cosign services first) (notary_image_valid-same pod at)
          ∙ or_cosign-same (notary_image_valid services second pod) (notary_namespace pod at))

module _ {Image Reference Block Key Verifier Sig : Type 0}
    (services : Services Image Reference Block Key Verifier Sig)
    (set_list : List (Object SecurityPolicy) → Result (List SecurityPolicy)) where
  -- Policies of other namespaces never count: where the caches of two clusters hold the same
  -- policies of the pod's namespace, a name without a slash, and the policies of the cluster and the
  -- whitelist are the same, the pod gets the same answer and is left the same, whatever policies
  -- there are elsewhere.
  pub check-isolated :
      (white_list : WhiteList) (cluster a b : Indexer SecurityPolicy)
      (c d : FakeCache SecurityPolicy) (pod : Pod)
      → Backed a c
      → Backed b d
      → pod.namespace ≢ []
      → Lacks b'/' pod.namespace
      → SameIn pod.namespace c d
      → check_is_valid_and_add_digest services
          (record {
            registry_policy_cache = policy_cache set_list cluster a;
            white_list = white_list;
          })
          pod
        ≡ check_is_valid_and_add_digest services
            (record {
              registry_policy_cache = policy_cache set_list cluster b;
              white_list = white_list;
            })
            pod
  check-isolated white_list cluster a b c d pod p q named l shared =
      check-same services white_list (policy_cache set_list cluster a)
        (policy_cache set_list cluster b) pod.namespace
        (λ registry.
          does_match_policy-isolated set_list cluster a b c d registry pod.namespace p q named l
            shared)
        pod refl
