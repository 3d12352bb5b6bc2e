-- ===== src/Policy/Tests.antt =====
-- Policies of a cluster and of a namespace, as in pkg/admissions/pods/policy_test.go.
use image_validating_webhook.Base.{
  ◌≡◌, refl, inr, true, List, [], ◌∷◌, ◌++◌, codes, ◌==◌, if◌then◌else◌, is_empty, ok, err,
}
use image_validating_webhook.Policy.{
  RegistrySpec, SecurityPolicy, RegistryPolicyCache, registry_of, does_match_policy,
}
use image_validating_webhook.Base.{arith, map, inl, Text, Lacks, Result}
use image_validating_webhook.Cache.{Object, FakeCache, key_str}
use image_validating_webhook.Cache.Selection.{IsKeyed}
use image_validating_webhook.Cache.Isolation.{Backed, SameIn}
use image_validating_webhook.Cache.Tests.{indexer_of, indexer_of-Backed}
use image_validating_webhook.Policy.FirstMatch.{verdict, does_match_policy-verdict}

abbrev pub spec : RegistrySpec
spec = record {
  registry = codes "reg.io";
  notary = [];
  sign_check = true;
  cosign_key_ref = codes "k8s://ns/key";
  signer = codes "alice" ∷ [];
}

abbrev pub cluster_policies : List SecurityPolicy
cluster_policies = record { namespace = []; name = codes "cluster"; registries = spec ∷ [] } ∷ []

abbrev namespace_policies : List SecurityPolicy
namespace_policies =
    record {
      namespace = codes "default";
      name = codes "local";
      registries = record spec { registry = codes "docker.io" } ∷ [];
    }
    ∷ []

-- The caches of a cluster in which only one namespace can be listed.
abbrev pub cache : RegistryPolicyCache
cache = record {
  cluster_cached_client = record { list = λ ns. ok cluster_policies };
  namespace_cached_client = record {
    list = λ ns. if is_empty ns then err (codes "not cached") else ok namespace_policies;
  };
}

does_match_policy-verdict_example :
    does_match_policy cache [] (codes "default")
    ≡ verdict (registry_of []) (cluster_policies ++ namespace_policies)
does_match_policy-verdict_example =
    does_match_policy-verdict cache [] (codes "default") cluster_policies namespace_policies refl
      refl

matched : does_match_policy cache (codes "reg.io") (codes "default") ≡ (true, spec)
unfolding does_match_policy ◌==◌
matched = refl

abbrev pub stored : Text → Text × Object SecurityPolicy
stored namespace = (
  key_str (record { namespace = namespace; name = codes "local" }),
  record {
    type = codes "RegistrySecurityPolicy";
    namespace = namespace;
    name = codes "local";
    value = record { namespace = namespace; name = codes "local"; registries = spec ∷ [] };
  },
)

stored-IsKeyed : (namespace : Text) → Lacks b'/' namespace → IsKeyed (stored namespace)
stored-IsKeyed namespace l = record { keyed_by = refl; namespace_lacks = l; name_lacks = refl }

abbrev pub own : FakeCache SecurityPolicy
own = stored (codes "default") ∷ []

abbrev pub shared : FakeCache SecurityPolicy
shared = stored (codes "kube-system") ∷ own

pub elsewhere : SameIn (codes "default") shared own
elsewhere o in_it = (elim [ inl e ↦ absurd (ground arith) | inr h ↦ h ], λ h. inr h)

pub shared-Backed : Backed (indexer_of shared) shared
unfolding key_str
shared-Backed =
    indexer_of-Backed shared
      (stored-IsKeyed (codes "kube-system") refl, (stored-IsKeyed (codes "default") refl, tt))
      ((λ e. ground arith, tt), (tt, tt))

abbrev pub values : List (Object SecurityPolicy) → Result (List SecurityPolicy)
values os = ok (map (λ o. o.value) os)

pub own-Backed : Backed (indexer_of own) own
own-Backed = indexer_of-Backed own (stored-IsKeyed (codes "default") refl, tt) (tt, tt)
