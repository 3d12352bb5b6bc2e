-- ===== src/Cluster/Placement.antt =====
-- internal/k8s/namespace.go: the answers of `Namespace`.
use image_validating_webhook.Base.{
  ◌≡◌, ◌≢◌, ◌⊎◌, refl, inl, inr, Bool, true, false, Bool-cases, is_empty, arith, codes, done,
  panics,
}
use image_validating_webhook.Cluster.{
  Stat, missing, unreadable, info, System, file_exists, ns_path, local_namespace, in_cluster,
  namespace,
}

pub Stat-cases :
    (s : Stat) → (s ≡ unreadable) ⊎ ((s ≡ missing) ⊎ ((is_dir : Bool) × (s ≡ info is_dir)))
Stat-cases missing = inr (inl refl)
Stat-cases unreadable = inl refl
Stat-cases (info d) = inr (inr (d, refl))

-- The program runs in a cluster: there is a file with the namespace.
abbrev pub InCluster : System → Type 0
InCluster os = os.stat ns_path ≡ info false

local_namespace-nonempty : (os : System) → is_empty (local_namespace os) ≡ false
unfolding local_namespace
local_namespace-nonempty os = elim (Bool-cases (is_empty (os.getenv (codes "NAMESPACE")))) [
  | inl unset ↦ rw unset refl
  | inr set ↦ rw (set, local_namespace) set
]

-- The namespace is the content of the file that a cluster mounts, whatever that is, with an error if it cannot be read;
-- if there is no such file, it is the variable or "registry-system"; and a file whose status cannot be
-- read for another reason makes the program panic.
pub namespace-cases :
    (os : System)
    → ((namespace os ≡ panics) × (os.stat ns_path ≡ unreadable))
      ⊎ ((InCluster os × (namespace os ≡ in_cluster (os.read_file ns_path)))
          ⊎ ((os.stat ns_path ≢ info false)
              × (namespace os ≡ done (local_namespace os))
              × (is_empty (local_namespace os) ≡ false)))
unfolding namespace file_exists
namespace-cases os = elim (Stat-cases (os.stat ns_path)) [
  | inl bad ↦ inl (rw (bad, namespace, file_exists) refl, bad)
  | inr (inl gone) ↦ inr (
      inr (
        λ e. absurd (ground arith),
        rw (gone, namespace, file_exists) refl,
        local_namespace-nonempty os,
      ))
  | inr (inr (true, there)) ↦ inr (
      inr (
        λ e. absurd (ground arith),
        rw (there, namespace, file_exists) refl,
        local_namespace-nonempty os,
      ))
  | inr (inr (false, there)) ↦ inr (inl (there, rw (there, namespace, file_exists) refl))
]
