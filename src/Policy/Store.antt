-- ===== src/Policy/Store.antt =====
-- pkg/admissions/pods/policy.go over pkg/watcher/cachedclient.go: policies are listed from the caches of
-- two watchers.
use image_validating_webhook.Base.{
  inl, inr, Result-cases, ◌≡◌, ◌≢◌, refl, List, [], Text, Lacks, codes, Result, ok, err, Outcome,
  done, panics,
}
use image_validating_webhook.Cache.{Object, Indexer, FakeCache, list}
use image_validating_webhook.Cache.Isolation.{Backed, SameIn, list-isolated}
use image_validating_webhook.Policy.{
  SecurityPolicy, CachedClient, RegistryPolicyCache, does_match_policy,
}

answers_same :
    (cluster k m : CachedClient SecurityPolicy) (registry namespace : Text)
    → k.list namespace ≡ m.list namespace
    → does_match_policy
        (record { cluster_cached_client = cluster; namespace_cached_client = k })
        registry
        namespace
      ≡ does_match_policy
          (record { cluster_cached_client = cluster; namespace_cached_client = m })
          registry
          namespace
unfolding does_match_policy
answers_same cluster k m registry namespace same = elim (Result-cases (cluster.list [])) [
  | inr (e, bad) ↦ rw (bad, does_match_policy) refl
  | inl (cs, listed) ↦ rw (listed, same, does_match_policy) refl
]

module _ (set_list : List (Object SecurityPolicy) → Result (List SecurityPolicy)) where
  -- The client of a watcher's indexer, as the policy cache uses it.
  unfoldable pub new_cached_client : Indexer SecurityPolicy → CachedClient SecurityPolicy
  new_cached_client indexer = record { list = λ namespace. list indexer set_list namespace }

  -- The fields that newRegistryPolicyCache fills from the two watchers.
  unfoldable pub policy_cache :
      Indexer SecurityPolicy → Indexer SecurityPolicy → RegistryPolicyCache
  unfolding new_cached_client
  policy_cache cluster namespaced = record {
    cluster_cached_client = new_cached_client cluster;
    namespace_cached_client = new_cached_client namespaced;
  }

  -- `newRegistryPolicyCache` up to the start of its watchers, given the answer of k8s.NewGroupVersionClient and the
  -- indexer that the informer of a client fills for a resource.
  unfoldable pub new_registry_policy_cache :
      {C : Type 0} → (C → Text → Indexer SecurityPolicy) → Result C → Outcome RegistryPolicyCache
  unfolding policy_cache
  new_registry_policy_cache indexer_of (err e) = panics
  new_registry_policy_cache indexer_of (ok client) = done (
      policy_cache (indexer_of client (codes "clusterregistrysecuritypolicies"))
        (indexer_of client (codes "registrysecuritypolicies")))

  -- Policies of other namespaces never count: where two caches hold the same policies of a pod's namespace,
  -- and the cluster's policies are the same, each registry gets the same answer.
  pub does_match_policy-isolated :
      (cluster a b : Indexer SecurityPolicy) (c d : FakeCache SecurityPolicy)
      (registry namespace : Text)
      → Backed a c
      → Backed b d
      → namespace ≢ []
      → Lacks b'/' namespace
      → SameIn namespace c d
      → does_match_policy (policy_cache cluster a) registry namespace
        ≡ does_match_policy (policy_cache cluster b) registry namespace
  unfolding does_match_policy policy_cache
  does_match_policy-isolated cluster a b c d registry namespace p q ne l same =
      answers_same (new_cached_client cluster) (new_cached_client a) (new_cached_client b) registry
        namespace (list-isolated a b c d set_list namespace p q ne l same)
