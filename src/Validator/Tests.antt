-- ===== src/Validator/Tests.antt =====
-- A pod with a whitelisted container and one whose image is signed, in a cluster with one policy.
use image_validating_webhook.Base.{
  Returns, ◌≡◌, ◌≢◌, ◌↔◌, ◌⊎◌, refl, false, true, List, [], ◌∷◌, arith, All, Some, Text, codes,
  is_space, ◌==◌, ok, done,
}
use image_validating_webhook.ImageRef.{ImageRef, to_string, parse_image}
use image_validating_webhook.ImageRef.Tests.{full}
use image_validating_webhook.WhiteList.{
  entry_match, is_image_white_listed, is_namespace_white_listed,
}
use image_validating_webhook.Policy.Tests.{
  cache, shared, own, shared-Backed, own-Backed, elsewhere, values,
}
use image_validating_webhook.Policy.Store.{policy_cache}
use image_validating_webhook.Cache.Tests.{indexer_of}
use image_validating_webhook.Validator.Isolation.{check-isolated}
use image_validating_webhook.Secret.Tests.{secret, codec}
use image_validating_webhook.Trust.Tests.{in_order, repository}
use image_validating_webhook.Signature.{Signature, get_digest, match_signer}
use image_validating_webhook.Cosign.Tests.{key_codec, sigstore}
use image_validating_webhook.Validator.{
  Container, Pod, accept, pin_digest, Services, Validator, get_basic_auth_for_registry,
  check_notary, add_digest_when_image_valid, check_cosign_policy, check_is_valid_and_add_digest,
  notary_image_valid,
}
use image_validating_webhook.Validator.Credentials.{FirstGives, get_basic_auth_iff}
use image_validating_webhook.Validator.Loops.{WhiteListed, add_digest-first}
use image_validating_webhook.Validator.Decision.{Governed, NotaryAccepts, check_notary_iff}
use image_validating_webhook.Validator.CosignDecision.{CosignSigned, check_cosign_policy_iff}
use image_validating_webhook.Policy.{does_match_policy}
use image_validating_webhook.Validator.Digests.{pin_digest-cases, pin_digest-untagged}
use image_validating_webhook.Validator.Names.{SameNames, check-names}
use image_validating_webhook.Validator.Verdict.{Accepts, check_is_valid_and_add_digest_iff}

-- Every secret is the pull secret, and an image is its own text.
abbrev pub services : Services Text Text Text Text Text Text
services = record {
  get_secret = λ namespace name. ok secret;
  codec = codec;
  image_client = record {
    new_image = λ uri auth. ok uri;
    tag = λ image. codes "3";
    new_read_only = λ image server. ok repository;
  };
  arrange = in_order;
  key_codec = key_codec;
  parse_reference = λ image. ok image;
  sigstore = sigstore;
}

abbrev pub validator : Validator
validator = record {
  registry_policy_cache = cache;
  white_list = record {
    by_images = record { host = []; name = codes "pause"; tag = []; digest = [] } ∷ [];
    by_namespaces = codes "kube-system" ∷ [];
  };
}

abbrev container : Text → Text → Container
container name image = record { name = name; image = image }

abbrev pause : Container
pause = container (codes "pause") (codes "pause:1")

abbrev web : Container
web = container (codes "web") (codes "reg.io/alpine:3")

abbrev pub pod : Pod
pod = record {
  namespace = codes "default";
  image_pull_secrets = codes "pull" ∷ [];
  init_containers = [];
  containers = pause ∷ web ∷ [];
}

check_is_valid_and_add_digest_iff_example :
    (check_is_valid_and_add_digest services validator pod ≡ (pod, accept))
    ↔ Accepts services validator pod pod
check_is_valid_and_add_digest_iff_example =
    check_is_valid_and_add_digest_iff services validator pod pod

check_notary_iff_example :
    (check_notary services validator (codes "default") (codes "pull" ∷ []) web ≡ (web, accept))
    ↔ NotaryAccepts services validator (codes "default") (codes "pull" ∷ []) web web
check_notary_iff_example =
    check_notary_iff services validator (codes "default") (codes "pull" ∷ []) web web

check_cosign_policy_iff_example :
    (check_cosign_policy services validator (codes "default") web ≡ accept)
    ↔ Returns (parse_image (codes "reg.io/alpine:3")) λ ref.
      Governed
        (does_match_policy cache ref.host (codes "default"))
        (accept ≡ accept)
        (CosignSigned services web)
check_cosign_policy_iff_example = check_cosign_policy_iff services validator (codes "default") web

pause_listed : WhiteListed validator pause
unfolding is_image_white_listed entry_match parse_image is_space ◌==◌
pause_listed = refl

web_not_listed : is_image_white_listed validator.white_list web.image ≡ false
unfolding is_image_white_listed entry_match parse_image is_space ◌==◌
web_not_listed = refl

add_digest-first_example :
    let checked = check_notary services validator (codes "default") (codes "pull" ∷ []) web in
    add_digest_when_image_valid services validator
      (codes "default")
      (codes "pull" ∷ [])
      (pause ∷ web ∷ web ∷ [])
    ≡ (pause ∷ checked.0 ∷ web ∷ [], checked.1)
add_digest-first_example =
    add_digest-first services validator (codes "default") (codes "pull" ∷ []) (pause ∷ []) web
      (web ∷ []) (pause_listed, tt) web_not_listed

get_basic_auth_iff_example :
    (get_basic_auth_for_registry services (codes "reg.io") (codes "default") (codes "pull" ∷ [])
      ≡ done (codes "dXNlcg"))
    ↔ FirstGives services (codes "reg.io") (codes "default") (codes "pull" ∷ []) (codes "dXNlcg")
get_basic_auth_iff_example =
    get_basic_auth_iff services (codes "reg.io") (codes "default") (codes "pull" ∷ [])
      (codes "dXNlcg")

check-names_example :
    let checked = (check_is_valid_and_add_digest services validator pod).0 in
    SameNames checked pod
    × (((is_namespace_white_listed validator.white_list pod.namespace ≡ true) × (checked ≡ pod))
        ⊎ ((is_namespace_white_listed validator.white_list pod.namespace ≡ false)
            × (checked ≡ (notary_image_valid services validator pod).0)))
check-names_example = check-names services validator pod

-- A tag with the digest that `full` names.
abbrev signed_full : Signature
signed_full = record {
  name = codes "reg.io/alpine";
  signed_tags =
      record { signed_tag = codes "3"; digest = codes "sha256:ab"; signers = codes "alice" ∷ [] }
      ∷ [];
}

abbrev alice : List Text
alice = codes "alice" ∷ []

abbrev pinned_web : Container
pinned_web = record web { image = to_string full }

web_pinned : pin_digest web (record full { digest = [] }) alice signed_full ≡ (pinned_web, accept)
unfolding pin_digest match_signer get_digest ◌==◌
web_pinned = refl

pin_digest-cases_example :
    Some
      (λ t.
        (t.signed_tag ≡ codes "3")
        × (pinned_web.image ≡ to_string (record full { digest = t.digest })))
      signed_full.signed_tags
    ⊎ (All (λ t. t.signed_tag ≢ codes "3") signed_full.signed_tags
        × (◌≡◌ {A = Text} [] [])
        × (pinned_web.image ≡ to_string (record full { digest = [] })))
pin_digest-cases_example =
    pin_digest-cases web (record full { digest = [] }) signed_full alice pinned_web web_pinned

abbrev untagged : ImageRef
untagged = record { host = codes "reg.io"; name = codes "alpine"; tag = []; digest = [] }

abbrev untagged_web : Container
untagged_web = record web { image = to_string untagged }

untagged_pinned : pin_digest untagged_web untagged alice signed_full ≡ (untagged_web, accept)
unfolding pin_digest match_signer get_digest ◌==◌
untagged_pinned = refl

tags_named : All (λ t. t.signed_tag ≢ []) signed_full.signed_tags
tags_named = (λ e. ground arith, tt)

pin_digest-untagged_example : (◌≡◌ {A = Text} [] []) × (untagged_web.image ≡ to_string untagged)
pin_digest-untagged_example =
    pin_digest-untagged untagged_web untagged signed_full alice untagged_web untagged_pinned refl
      tags_named

check-isolated_example :
    check_is_valid_and_add_digest services
      (record validator {
        registry_policy_cache = policy_cache values (indexer_of []) (indexer_of shared);
      })
      pod
    ≡ check_is_valid_and_add_digest services
        (record validator {
          registry_policy_cache = policy_cache values (indexer_of []) (indexer_of own);
        })
        pod
check-isolated_example =
    check-isolated services values validator.white_list (indexer_of []) (indexer_of shared)
      (indexer_of own) shared own pod shared-Backed own-Backed (λ e. ground arith) refl elsewhere
