-- ===== src/Policy/FirstMatch.antt =====
-- pkg/admissions/pods/policy.go: `doesMatchPolicy` against the flat list of all registries.
use mathlib.Core.Bool.{false≢true}
use image_validating_webhook.Base.{
  ◌≡◌, refl, sym, ap, ◌∙◌, ◌≢◌, ◌⊎◌, inl, inr, Bool, true, false, Option, none, some, List, [], ◌∷◌,
  ◌++◌, arith, if◌then◌else◌, Text, ◌==◌, text_eq_iff, Bool-cases, ok, err, Result-cases,
  Option-cases, append_assoc, Some,
}
use image_validating_webhook.Policy.{
  RegistrySpec, SecurityPolicy, RegistryPolicyCache, empty_spec, spec_of, policy_of, match_policies,
  registry_of, does_match_policy,
}

-- All registries of the policies, in their order.
abbrev pub all_registries : List SecurityPolicy → List RegistrySpec
all_registries [] = []
all_registries (p ∷ ps) = p.registries ++ all_registries ps

-- The first registry of that name.
pub first_match : Text → List RegistrySpec → Option RegistrySpec
first_match registry [] = none
first_match registry (s ∷ specs) =
    if s.registry == registry then some s else first_match registry specs

abbrev or_else : Option RegistrySpec → Option RegistrySpec → Option RegistrySpec
or_else (some s) o = some s
or_else none o = o

first_match-append :
    (r : Text) (xs ys : List RegistrySpec)
    → first_match r (xs ++ ys) ≡ or_else (first_match r xs) (first_match r ys)
unfolding first_match
first_match-append r [] ys = refl
first_match-append r (x ∷ xs) ys = ground (arith, first_match-append r xs ys)

spec_of-first : (r : Text) (xs : List RegistrySpec) → spec_of r xs ≡ first_match r xs
unfolding spec_of first_match
spec_of-first r [] = refl
spec_of-first r (x ∷ xs) = ground (arith, spec_of-first r xs)

policy_of-first :
    (r : Text) (ps : List SecurityPolicy) → policy_of r ps ≡ first_match r (all_registries ps)
unfolding policy_of first_match
policy_of-first r [] = refl
policy_of-first r (p ∷ ps) = ground (
  arith,
  spec_of-first r p.registries,
  first_match-append r p.registries (all_registries ps),
  policy_of-first r ps,
)

-- What `doesMatchPolicy` is to return, given all the policies that apply.
pub verdict : Text → List SecurityPolicy → Bool × RegistrySpec
verdict registry [] = (true, empty_spec)
verdict registry (p ∷ ps) = elim (first_match registry (all_registries (p ∷ ps))) [
  | some s ↦ (true, s)
  | none ↦ (false, empty_spec)
]

all_registries-append :
    (ps qs : List SecurityPolicy)
    → all_registries (ps ++ qs) ≡ all_registries ps ++ all_registries qs
all_registries-append [] qs = refl
all_registries-append (p ∷ ps) qs =
    rw (all_registries-append ps qs)
      (sym (append_assoc p.registries (all_registries ps) (all_registries qs)))

match_policies-verdict :
    (r : Text) (cs ns : List SecurityPolicy) → match_policies r cs ns ≡ verdict r (cs ++ ns)
unfolding match_policies verdict policy_of first_match
match_policies-verdict r [] [] = refl
match_policies-verdict r [] (n ∷ ns) = ground (arith, policy_of-first r (n ∷ ns))
match_policies-verdict r (c ∷ cs) ns = ground (
  arith,
  policy_of-first r (c ∷ cs),
  policy_of-first r ns,
  first_match-append r (all_registries (c ∷ cs)) (all_registries ns),
  all_registries-append (c ∷ cs) ns,
)

module _ (c : RegistryPolicyCache) (registry namespace : Text) where
  -- If both caches can be listed, the answer is that of the first registry of the image's name, in the
  -- cluster's policies and then in the namespace's, and every registry is allowed if there is no
  -- policy at all.
  pub does_match_policy-verdict :
      (cs ns : List SecurityPolicy)
      → c.cluster_cached_client.list [] ≡ ok cs
      → c.namespace_cached_client.list namespace ≡ ok ns
      → does_match_policy c registry namespace ≡ verdict (registry_of registry) (cs ++ ns)
  unfolding does_match_policy
  does_match_policy-verdict cs ns e f =
      rw (e, f, does_match_policy) (match_policies-verdict (registry_of registry) cs ns)

  -- A cache that cannot be listed denies every image.
  pub does_match_policy-unlisted :
      (e : Text)
      → (c.cluster_cached_client.list [] ≡ err e)
        ⊎ (c.namespace_cached_client.list namespace ≡ err e)
      → does_match_policy c registry namespace ≡ (false, empty_spec)
  unfolding does_match_policy
  does_match_policy-unlisted e (inl h) = rw (h, does_match_policy)
  does_match_policy-unlisted e (inr h) = elim (Result-cases (c.cluster_cached_client.list [])) [
    | inl (cs, listed) ↦ rw (listed, h, does_match_policy)
    | inr (other, failed) ↦ rw (failed, does_match_policy)
  ]

-- Where a registry that was found stands.
first_match_sound :
    (r : Text) (xs : List RegistrySpec) (s : RegistrySpec)
    → first_match r xs ≡ some s
    → (s.registry ≡ r) × Some (λ x. x ≡ s) xs
unfolding first_match
first_match_sound r [] s h = cc
first_match_sound r (x ∷ xs) s h = elim (Bool-cases (x.registry == r)) [
  | inl same ↦ let e : x ≡ s = ground arith in (rw (← e) ((text_eq_iff x.registry r).0 same), inl e)
  | inr other ↦ let (found, place) = first_match_sound r xs s (rw other at h) in (found, inr place)
]

registry_of-ne : (r : Text) → registry_of r ≢ []
registry_of-ne [] e = cc
registry_of-ne (x ∷ r) e = cc

-- What a positive answer means: no policy exists, or the answer is a listed registry of that name.
pub record Permits (c : RegistryPolicyCache) (registry namespace : Text) (p : RegistrySpec)
    : Type 0 where
  pub cluster_policies : List SecurityPolicy
  pub namespace_policies : List SecurityPolicy
  pub cluster_listed : c.cluster_cached_client.list [] ≡ ok cluster_policies
  pub namespace_listed : c.namespace_cached_client.list namespace ≡ ok namespace_policies
  pub reason :
      ((cluster_policies ++ namespace_policies ≡ []) × (p ≡ empty_spec))
      ⊎ ((p.registry ≡ registry_of registry)
          × (p.registry ≢ [])
          × Some (λ s. s ≡ p) (all_registries (cluster_policies ++ namespace_policies)))

verdict_sound :
    (r : Text) (ps : List SecurityPolicy) (p : RegistrySpec)
    → r ≢ []
    → verdict r ps ≡ (true, p)
    → ((ps ≡ []) × (p ≡ empty_spec))
      ⊎ ((p.registry ≡ r) × (p.registry ≢ []) × Some (λ s. s ≡ p) (all_registries ps))
unfolding verdict
verdict_sound r [] p ne h = inl (refl, ap (λ t. t.1) (sym h))
verdict_sound r (q ∷ ps) p ne h = elim (Option-cases (first_match r (all_registries (q ∷ ps)))) [
  | inl missing ↦ absurd (false≢true (ap (λ t. t.0) (rw (missing, verdict) at h)))
  | inr (s, found) ↦
      let same : s ≡ p = ap (λ t. t.1) (rw (found, verdict) at h) in
      let (e, place) = first_match_sound r (all_registries (q ∷ ps)) p (found ∙ ap some same) in
      inr (e, λ z. ne (sym e ∙ z), place)
]

-- A positive answer means that both caches were listed, and that no policy exists at all, in which
-- case the answer has no registry, or that the answer is a listed registry of the image's name, which
-- is not empty. So an empty registry in the answer tells the first case from the second.
pub does_match_policy-Permits :
    (c : RegistryPolicyCache) (registry namespace : Text) (p : RegistrySpec)
    → does_match_policy c registry namespace ≡ (true, p)
    → Permits c registry namespace p
does_match_policy-Permits c registry namespace p h =
    elim (Result-cases (c.cluster_cached_client.list [])) [
      | inr (e, failed) ↦ absurd (
          false≢true (
            ap (λ t. t.0)
              (sym (does_match_policy-unlisted c registry namespace e (inl failed)) ∙ h)))
      | inl (cs, listed) ↦ elim (Result-cases (c.namespace_cached_client.list namespace)) [
        | inr (e, failed) ↦ absurd (
            false≢true (
              ap (λ t. t.0)
                (sym (does_match_policy-unlisted c registry namespace e (inr failed)) ∙ h)))
        | inl (ns, also) ↦ record {
          cluster_policies = cs;
          namespace_policies = ns;
          cluster_listed = listed;
          namespace_listed = also;
          reason =
              verdict_sound (registry_of registry) (cs ++ ns) p (registry_of-ne registry)
                (sym (does_match_policy-verdict c registry namespace cs ns listed also) ∙ h);
        }
      ]
    ]
