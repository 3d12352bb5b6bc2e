-- ===== src/Validator/Combining.antt =====
-- pkg/admissions/pods/validator.go: how the answers for the two lists of containers make the answer for a
-- pod.
use image_validating_webhook.Base.{
  ◌≡◌, ◌↔◌, refl, sym, ap, ap₂, true, false, List, arith, Text, done, fails, panics,
}
use image_validating_webhook.Validator.{
  Container, Pod, Answer, accept, passed_up, next_answer, both_answered, last_answer,
}
use image_validating_webhook.Validator.Reasons.{Plain}

passed_up_iff : (a : Answer) → Plain a → (passed_up a ≡ accept) ↔ (a ≡ accept)
passed_up_iff (done (true, r)) plain = (λ _. plain r refl, λ _. refl)
passed_up_iff (done (false, r)) plain = (λ e. e, λ e. e)
passed_up_iff (fails e') plain = (λ e. e, λ e. e)
passed_up_iff panics plain = (λ e. e, λ e. e)

pub next_answer_iff :
    (a b : Answer) → Plain a → Plain b → (next_answer a b ≡ accept) ↔ ((a ≡ accept) × (b ≡ accept))
next_answer_iff (done (true, r)) b p q =
    (λ e. (p r refl, (passed_up_iff b q).0 e), λ (e, f). (passed_up_iff b q).1 f)
next_answer_iff (done (false, r)) b p q =
    (λ e. absurd (ground arith), λ (e, f). absurd (ground arith))
next_answer_iff (fails e') b p q = (λ e. absurd (ground arith), λ (e, f). absurd (ground arith))
next_answer_iff panics b p q = (λ e. absurd (ground arith), λ (e, f). absurd (ground arith))

pub last_answer_iff :
    (reason : Text) (a : Answer) → Plain a → (last_answer reason a ≡ accept) ↔ (a ≡ accept)
last_answer_iff reason (done (true, r)) plain = (λ _. plain r refl, λ _. refl)
last_answer_iff reason (done (false, r)) plain =
    (λ e. absurd (ground arith), λ e. absurd (ground arith))
last_answer_iff reason (fails e') plain = (λ e. e, λ e. e)
last_answer_iff reason panics plain = (λ e. e, λ e. e)

same_pod :
    (pod pod' : Pod) (inits cs : List Container)
    → inits ≡ pod'.init_containers
    → cs ≡ pod'.containers
    → pod'.namespace ≡ pod.namespace
    → pod'.image_pull_secrets ≡ pod.image_pull_secrets
    → record pod { init_containers = inits; containers = cs } ≡ pod'
same_pod pod pod' inits cs e f n s = cc

pub both_answered_iff :
    (pod pod' : Pod) (first second : List Container × Answer)
    → Plain first.1
    → Plain second.1
    → (both_answered pod first second ≡ (pod', accept)) ↔ (
        (first ≡ (pod'.init_containers, accept))
        × (second ≡ (pod'.containers, accept))
        × (pod'.namespace ≡ pod.namespace)
        × (pod'.image_pull_secrets ≡ pod.image_pull_secrets))
unfolding both_answered
both_answered_iff pod pod' (inits, panics) second p q =
    (λ e. absurd (ground arith), λ (e, _, _, _). absurd (ground arith))
both_answered_iff pod pod' (inits, fails e') second p q =
    (λ e. absurd (ground arith), λ (e, _, _, _). absurd (ground arith))
both_answered_iff pod pod' (inits, done (false, r)) second p q =
    (λ e. absurd (ground arith), λ (e, _, _, _). absurd (ground arith))
both_answered_iff pod pod' (inits, done (true, r)) (cs, next) p q =
    let (to, from) = passed_up_iff next q in
    (
      λ e. (
        ap₂ (λ i a. (i, a)) (ap (λ x. x.0.init_containers) e) (p r refl),
        ap₂ (λ c a. (c, a)) (ap (λ x. x.0.containers) e) (to (ap (λ x. x.1) e)),
        sym (ap (λ x. x.0.namespace) e),
        sym (ap (λ x. x.0.image_pull_secrets) e),
      ),
      λ (e, f, n, s).
          ap₂ (λ q a. (q, a)) (same_pod pod pod' inits cs (ap (λ x. x.0) e) (ap (λ x. x.0) f) n s)
            (from (ap (λ x. x.1) f)),
    )
