-- ===== src/Admission/Patch.antt =====
-- pkg/admissions/pods/pods.go: the JSON patch that the response holds.
use image_validating_webhook.Base.{
  ◌≡◌, refl, ap, ◌∙◌, List, [], ◌∷◌, arith, ◌==◌, codes, not, Option, none, some, if◌then◌else◌,
}
use image_validating_webhook.Validator.{
  Container, Pod, Services, Validator, check_is_valid_and_add_digest,
}
use image_validating_webhook.Validator.Names.{names, check-names}
use image_validating_webhook.Admission.{
  PatchOperation, patch_operations, containers_path, init_containers_path,
}

-- What the API server does with an operation of a JSON patch on the two paths (RFC 6902): a `replace`
-- puts its value in the place of one that must be there, and a list of init containers that is empty
-- is not there. Any other operation is none that this patch can hold, and counts as refused.
pub apply_operation : PatchOperation → Pod → Option Pod
apply_operation o pod =
    if not (o.op == codes "replace")
    then none
    else if o.path == containers_path
    then some (record pod { containers = o.value })
    else if o.path == init_containers_path
    then (elim pod.init_containers [
      | [] ↦ none
      | c ∷ cs ↦ some (record pod { init_containers = o.value })
    ])
    else none

pub apply_patch : List PatchOperation → Pod → Option Pod
apply_patch [] pod = some pod
apply_patch (o ∷ os) pod = elim (apply_operation o pod) [
  | none ↦ none
  | some next ↦ apply_patch os next
]

apply_patch-lists :
    (pod checked : Pod) (inits before : List Container)
    → checked.init_containers ≡ inits
    → pod.init_containers ≡ before
    → names inits ≡ names before
    → apply_patch (patch_operations checked) pod
      ≡ some (record pod { init_containers = inits; containers = checked.containers })
unfolding apply_patch apply_operation patch_operations ◌==◌
apply_patch-lists pod checked [] [] same had e =
    rw (same, patch_operations)
      (ap (λ is. some (record pod { init_containers = is; containers = checked.containers })) had)
apply_patch-lists pod checked [] (b ∷ bs) same had e = absurd (ground arith)
apply_patch-lists pod checked (c ∷ cs) [] same had e = absurd (ground arith)
apply_patch-lists pod checked (c ∷ cs) (b ∷ bs) same had e =
    rw (same, had, patch_operations, apply_operation) refl

checked_pod :
    (pod checked : Pod)
    → checked.namespace ≡ pod.namespace
    → checked.image_pull_secrets ≡ pod.image_pull_secrets
    → record pod { init_containers = checked.init_containers; containers = checked.containers }
      ≡ checked
checked_pod pod checked n s = cc

module _ {Image Reference Block Key Verifier Sig : Type 0}
    (services : Services Image Reference Block Key Verifier Sig) (h : Validator) where
  -- Applied to the pod that was validated, the operations of the patch are all carried out, and give
  -- exactly the pod that the validator left.
  pub patch-check :
      (pod : Pod)
      → let checked = (check_is_valid_and_add_digest services h pod).0 in
        apply_patch (patch_operations checked) pod ≡ some checked
  patch-check pod =
      let checked = (check_is_valid_and_add_digest services h pod).0 in
      let ((n, s, inits, _), _) = check-names services h pod in
      apply_patch-lists pod checked checked.init_containers pod.init_containers refl refl inits
      ∙ ap some (checked_pod pod checked n s)
