-- ===== src/Policy.antt =====
-- pkg/type/registrysecuritypolicy_types.go and pkg/admissions/pods/policy.go: security policies of
-- registries, and the policy that applies to an image's registry.
pub mod FirstMatch
pub mod Store
pub mod Tests
use image_validating_webhook.Base.{
  Bool, true, false, ◌&&◌, Option, none, some, List, [], ◌∷◌, if◌then◌else◌, Text, codes, ◌==◌,
  is_empty, Result, ok, err,
}

pub record RegistrySpec : Type 0 where
  pub registry : Text
  pub notary : Text
  pub sign_check : Bool
  pub cosign_key_ref : Text
  pub signer : List Text

-- `ClusterRegistrySecurityPolicy` and `RegistrySecurityPolicy` have the same fields; a cluster's
-- policy has no namespace.
pub record SecurityPolicy : Type 0 where
  pub namespace : Text
  pub name : Text
  pub registries : List RegistrySpec

-- What the policies use of a `watcher.CachedClient`: `List` with a selector's namespace, "" for all.
pub record CachedClient (A : Type 0) : Type 0 where
  pub list : Text → Result (List A)

pub record RegistryPolicyCache : Type 0 where
  pub cluster_cached_client : CachedClient SecurityPolicy
  pub namespace_cached_client : CachedClient SecurityPolicy

-- `whv1.RegistrySpec{}`
abbrev pub empty_spec : RegistrySpec
empty_spec = record {
  registry = [];
  notary = [];
  sign_check = false;
  cosign_key_ref = [];
  signer = [];
}

-- The inner loop over one policy's registries.
spec_of : Text → List RegistrySpec → Option RegistrySpec
spec_of registry [] = none
spec_of registry (s ∷ specs) = if s.registry == registry then some s else spec_of registry specs

-- The outer loop over the policies.
policy_of : Text → List SecurityPolicy → Option RegistrySpec
policy_of registry [] = none
policy_of registry (p ∷ ps) = elim (spec_of registry p.registries) [
  | some s ↦ some s
  | none ↦ policy_of registry ps
]

abbrev is_nil {ℓ} : {A : Type ℓ} → List A → Bool
is_nil [] = true
is_nil (_ ∷ _) = false

-- The loops of `doesMatchPolicy`, over what the caches returned.
match_policies : Text → List SecurityPolicy → List SecurityPolicy → Bool × RegistrySpec
match_policies registry cluster_objs namespace_objs =
    if is_nil cluster_objs && is_nil namespace_objs
    then (true, empty_spec)
    else elim (policy_of registry cluster_objs) [
      | some s ↦ (true, s)
      | none ↦ elim (policy_of registry namespace_objs) [
        | some s ↦ (true, s)
        | none ↦ (false, empty_spec)
      ]
    ]

abbrev pub docker_io : Text
docker_io = codes "docker.io"

-- An image without a host is one of Docker Hub.
abbrev pub registry_of : Text → Text
registry_of registry = if is_empty registry then docker_io else registry

unfoldable pub does_match_policy : RegistryPolicyCache → Text → Text → Bool × RegistrySpec
unfolding match_policies policy_of spec_of
does_match_policy c registry namespace = elim (c.cluster_cached_client.list []) [
  | err e ↦ (false, empty_spec)
  | ok cluster_objs ↦ elim (c.namespace_cached_client.list namespace) [
    | err e ↦ (false, empty_spec)
    | ok namespace_objs ↦ match_policies (registry_of registry) cluster_objs namespace_objs
  ]
]
