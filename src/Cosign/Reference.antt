-- ===== src/Cosign/Reference.antt =====
-- pkg/cosign/secret.go: which references `parseRef` accepts.
use image_validating_webhook.Base.{
  ◌≡◌, sym, ap, subst, ◌∙◌, ◌↔◌, List, [], ◌∷◌, ◌++◌, arith, Text, split, join, trim_prefix, All,
  Lacks, split-part, split-append, split-Lacks, join-split, ok,
}
use image_validating_webhook.Cosign.{two_parts, key_reference, parse_ref}

two_parts-inv :
    (ps : List Text) (namespace name : Text)
    → two_parts ps ≡ ok (namespace, name)
    → ps ≡ namespace ∷ name ∷ []
two_parts-inv [] namespace name h = absurd (ground arith)
two_parts-inv (a ∷ []) namespace name h = absurd (ground arith)
two_parts-inv (a ∷ b ∷ []) namespace name h = ground arith
two_parts-inv (a ∷ b ∷ c ∷ ps) namespace name h = absurd (ground arith)

-- A reference is accepted exactly if, without the prefix `k8s://`, it is the namespace, one slash and
-- the secret's name, neither of which holds a slash.
pub parse_ref_iff :
    (k8s_ref namespace name : Text)
    → (parse_ref k8s_ref ≡ ok (namespace, name)) ↔ (
        (trim_prefix k8s_ref key_reference ≡ namespace ++ b'/' ∷ name)
        × Lacks b'/' namespace
        × Lacks b'/' name)
unfolding parse_ref join
parse_ref_iff k8s_ref namespace name =
    let rest = trim_prefix k8s_ref key_reference in
    (
      (λ h.
          let parts = two_parts-inv (split rest b'/') namespace name h in
          let lacks = subst (All (Lacks b'/')) parts (split-Lacks rest b'/') in
          (sym (join-split rest b'/') ∙ ap (λ ps. join ps b'/') parts, lacks.0, lacks.1.0)),
      (λ (whole, left, right). ap two_parts (
          ap (λ t. split t b'/') whole
          ∙ split-append namespace name b'/' left
          ∙ ap (λ ps. namespace ∷ ps) (split-part name b'/' right))),
    )
