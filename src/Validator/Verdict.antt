-- ===== src/Validator/Verdict.antt =====
-- pkg/admissions/pods/validator.go: exactly which pods `CheckIsValidAndAddDigest` accepts, and as what.
use image_validating_webhook.Base.{
  ◌≡◌, ◌↔◌, ◌⊎◌, ◌∙◌, refl, sym, ap, ap₂, inl, inr, true, false, Bool-cases, arith, Text, done,
  fails, panics,
}
use image_validating_webhook.WhiteList.{is_namespace_white_listed}
use image_validating_webhook.Validator.{
  Pod, Answer, accept, reject, last_answer, Services, Validator, add_digest_when_image_valid,
  add_digest_when_image_valid_cosign, notary_image_valid, cosign_image_valid, or_cosign,
  check_is_valid_and_add_digest,
}
use image_validating_webhook.Validator.Acceptance.{
  LoopAccepts, add_digest_iff, CosignLoopAccepts, add_digest_cosign_iff,
}
use image_validating_webhook.Validator.Reasons.{
  next_answer-Plain, both_answered-Plain, Plain, add_digest-Plain, add_digest_cosign-Plain,
}
use image_validating_webhook.Validator.Combining.{
  next_answer_iff, last_answer_iff, both_answered_iff,
}

module _ {Image Reference Block Key Verifier Sig : Type 0}
    (services : Services Image Reference Block Key Verifier Sig) (h : Validator) where
  -- Both lists of the pod are accepted, and the rest of it is kept.
  abbrev pub NotaryAcceptsPod : Pod → Pod → Type 0
  NotaryAcceptsPod pod pod' =
      LoopAccepts services h pod.namespace pod.image_pull_secrets pod.init_containers
        pod'.init_containers
      × LoopAccepts services h pod.namespace pod.image_pull_secrets pod.containers pod'.containers
      × (pod'.namespace ≡ pod.namespace)
      × (pod'.image_pull_secrets ≡ pod.image_pull_secrets)

  notary_image_valid_iff :
      (pod pod' : Pod)
      → (notary_image_valid services h pod ≡ (pod', accept)) ↔ NotaryAcceptsPod pod pod'
  unfolding notary_image_valid
  notary_image_valid_iff pod pod' =
      let add = add_digest_when_image_valid services h pod.namespace pod.image_pull_secrets in
      let loops = add_digest_iff services h pod.namespace pod.image_pull_secrets in
      let plain = add_digest-Plain services h pod.namespace pod.image_pull_secrets in
      let (to, from) =
        both_answered_iff pod pod' (add pod.init_containers) (add pod.containers)
          (plain pod.init_containers) (plain pod.containers) in
      let (first_to, first_from) = loops pod.init_containers pod'.init_containers in
      let (second_to, second_from) = loops pod.containers pod'.containers in
      (
        λ e. (first_to (to e).0, second_to (to e).1, (to e).2, (to e).3),
        λ (f, s, n, p). from (first_from f, second_from s, n, p),
      )

  -- Cosign accepts both lists of the pod.
  abbrev pub CosignAcceptsPod : Pod → Type 0
  CosignAcceptsPod pod =
      CosignLoopAccepts services h pod.namespace pod.init_containers
      × CosignLoopAccepts services h pod.namespace pod.containers

  cosign_image_valid_iff :
      (pod : Pod) → (cosign_image_valid services h pod ≡ accept) ↔ CosignAcceptsPod pod
  unfolding cosign_image_valid
  cosign_image_valid_iff pod =
      let add = add_digest_when_image_valid_cosign services h pod.namespace in
      let plain = add_digest_cosign-Plain services h pod.namespace in
      let (to, from) =
        next_answer_iff (add pod.init_containers) (add pod.containers) (plain pod.init_containers)
          (plain pod.containers) in
      let (first_to, first_from) =
        add_digest_cosign_iff services h pod.namespace pod.init_containers in
      let (second_to, second_from) =
        add_digest_cosign_iff services h pod.namespace pod.containers in
      (λ e. (first_to (to e).0, second_to (to e).1), λ (f, s). from (first_from f, second_from s))

  -- The pod's namespace is whitelisted, or Notary accepts its images and may pin them, or Notary turns
  -- it down without an error and Cosign accepts what Notary left of it.
  abbrev pub Accepts : Pod → Pod → Type 0
  Accepts pod pod' =
      ((is_namespace_white_listed h.white_list pod.namespace ≡ true) × (pod ≡ pod'))
      ⊎ ((is_namespace_white_listed h.white_list pod.namespace ≡ false)
          × (NotaryAcceptsPod pod pod'
              ⊎ ((reason : Text) × (notary_image_valid services h pod ≡ (pod', reject reason))
                  × CosignAcceptsPod pod')))

  or_cosign_iff :
      (pod' : Pod) (given : Pod × Answer)
      → Plain given.1
      → Plain (cosign_image_valid services h pod')
      → (or_cosign services h given ≡ (pod', accept)) ↔ (
          (given ≡ (pod', accept))
          ⊎ ((reason : Text) × (given ≡ (pod', reject reason))
              × (cosign_image_valid services h pod' ≡ accept)))
  unfolding or_cosign
  or_cosign_iff pod' (pod, done (true, r)) p q = (
    λ e. inl (ap₂ (λ x a. (x, a)) (ap (λ x. x.0) e) (p r refl)),
    elim [ inl e ↦ ap (λ x. (x.0, accept)) e | inr (reason, e, f) ↦ absurd (ground arith) ],
  )
  or_cosign_iff pod' (pod, fails e') p q = (
    λ e. absurd (ground arith),
    elim [ inl e ↦ absurd (ground arith) | inr (reason, e, f) ↦ absurd (ground arith) ],
  )
  or_cosign_iff pod' (pod, panics) p q = (
    λ e. absurd (ground arith),
    elim [ inl e ↦ absurd (ground arith) | inr (reason, e, f) ↦ absurd (ground arith) ],
  )
  or_cosign_iff pod' (pod, done (false, r)) p q = (
    λ e.
        let same : pod ≡ pod' = ap (λ x. x.0) e in
        inr (
          r,
          ap (λ x. (x, reject r)) same,
          (last_answer_iff r (cosign_image_valid services h pod') q).0 (
              ap (λ x. last_answer r (cosign_image_valid services h x)) (sym same)
              ∙ ap (λ x. x.1) e),
        ),
    elim [
      | inl e ↦ absurd (ground arith)
      | inr (reason, e, f) ↦
          let same : pod ≡ pod' = ap (λ x. x.0) e in
          ap (λ x. (x, last_answer r (cosign_image_valid services h x))) same
          ∙ ap (λ a. (pod', a)) ((last_answer_iff r (cosign_image_valid services h pod') q).1 f)
    ],
  )

  notary_image_valid-Plain : (pod : Pod) → Plain (notary_image_valid services h pod).1
  unfolding notary_image_valid
  notary_image_valid-Plain pod = both_answered-Plain pod _ _

  cosign_image_valid-Plain : (pod : Pod) → Plain (cosign_image_valid services h pod)
  unfolding cosign_image_valid
  cosign_image_valid-Plain pod =
      next_answer-Plain _ _ (add_digest_cosign-Plain services h pod.namespace pod.init_containers)

  -- A pod is accepted, with what is left of it, exactly if its namespace is whitelisted and it is left as
  -- it is; or each of its two lists of containers is whitelisted, or has a first other container that Notary
  -- accepts and may have pinned, the others being left as they are; or Notary turns the pod down
  -- without an error and each of the lists that it left is whitelisted or has a first other container that
  -- Cosign accepts.
  pub check_is_valid_and_add_digest_iff :
      (pod pod' : Pod)
      → (check_is_valid_and_add_digest services h pod ≡ (pod', accept)) ↔ Accepts pod pod'
  unfolding check_is_valid_and_add_digest
  check_is_valid_and_add_digest_iff pod pod' =
      let (one, back) = notary_image_valid_iff pod pod' in
      let (two, from) = cosign_image_valid_iff pod' in
      let (to, of) =
        or_cosign_iff pod' (notary_image_valid services h pod) (notary_image_valid-Plain pod)
          (cosign_image_valid-Plain pod') in
      elim (Bool-cases (is_namespace_white_listed h.white_list pod.namespace)) [
        | inl listed ↦
            rw (listed, check_is_valid_and_add_digest)
              (
                λ e. inl (refl, ap (λ x. x.0) e),
                elim [
                  | inl (_, same) ↦ ap (λ x. (x, accept)) same
                  | inr (f, _) ↦ absurd (ground arith)
                ],
              )
        | inr other ↦
            rw (other, check_is_valid_and_add_digest)
              (
                λ e. inr (
                  refl,
                  elim (to e) [ inl n ↦ inl (one n) | inr (reason, n, c) ↦ inr (reason, n, two c) ],
                ),
                elim [
                  | inl (f, _) ↦ absurd (ground arith)
                  | inr (_, inl n) ↦ of (inl (back n))
                  | inr (_, inr (reason, n, c)) ↦ of (inr (reason, n, from c))
                ],
              )
      ]
