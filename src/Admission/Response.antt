-- ===== src/Admission/Response.antt =====
-- pkg/admissions/pods/pods.go: which reviews are allowed.
use image_validating_webhook.Base.{
  ◌≡◌, ◌↔◌, ◌⊎◌, refl, ap, inl, inr, true, false, Option, none, some, Option-cases, arith, Text,
  Result-cases, ok, err, Returns, done, fails, panics,
}
use image_validating_webhook.Validator.{Pod, Answer}
use image_validating_webhook.Admission.{
  AdmissionRequest, AdmissionResponse, AdmissionReview, Json, Ending, allowed_with, create_patch,
  answer_review, handle_admission, set_review_response_not_allowed, not_allowed, not_valid,
  internal_error,
}

-- The review has a response that allows it.
abbrev pub Allowed : AdmissionReview → Type 0
Allowed review =
    (response : AdmissionResponse) × (review.response ≡ some response) × (response.allowed ≡ true)

not-Allowed-refused :
    (review : AdmissionReview) (message : Text)
    → Allowed (set_review_response_not_allowed review message)
    → ⊥
unfolding set_review_response_not_allowed
not-Allowed-refused review message (response, same, allows) = ground arith

-- The review's response is one that does not allow the pod.
abbrev pub Refused : AdmissionReview → Type 0
Refused review = (message : Text) × (review.response ≡ some (not_allowed message))

pub set-Refused :
    (review : AdmissionReview) (message : Text)
    → Refused (set_review_response_not_allowed review message)
unfolding set_review_response_not_allowed
set-Refused review message = (message, refl)

abbrev pub Present : (AdmissionRequest → Type 0) → Option AdmissionRequest → Type 0
Present P none = ⊥
Present P (some request) = P request

module _ (json : Json) where
  -- The validator accepts, and the pod it leaves is the patch that the response holds.
  abbrev pub Approved : Pod × Answer → AdmissionReview → Type 0
  Approved given out =
      ((reason : Text) × (given.1 ≡ done (true, reason)))
      × Returns (create_patch json given.0) λ patch. out.response ≡ some (allowed_with patch)

  -- The validator accepts, and the patch of the pod that it left is this one.
  abbrev pub Passes : Pod × Answer → Text → Type 0
  Passes given patch =
      ((reason : Text) × (given.1 ≡ done (true, reason))) × (create_patch json given.0 ≡ ok patch)

  -- The review is handled without an error and its response is an allowing one; with this patch; or
  -- the handler panics.
  abbrev Cases : AdmissionReview × Ending → Text → (Text → Type 0) → Type 0 → Type 0
  Cases out patch P panicking =
      (((out.1 ≡ done tt) × Allowed out.0) ↔ ((p : Text) × P p))
      × (((out.1 ≡ done tt) × (out.0.response ≡ some (allowed_with patch))) ↔ P patch)
      × ((out.1 ≡ panics) ↔ panicking)

  fails-Cases : (out : AdmissionReview) (e patch : Text) → Cases (out, fails e) patch (λ p. ⊥) ⊥
  fails-Cases out e patch = (
    (λ (ended, _). absurd (ground arith), λ (p, h). absurd h),
    (λ (ended, _). absurd (ground arith), λ h. absurd h),
    (λ ended. absurd (ground arith), λ h. absurd h),
  )

  answer_review-Cases :
      (review : AdmissionReview) (given : Pod × Answer) (patch : Text)
      → Cases (answer_review json review given) patch (Passes given) (given.1 ≡ panics)
  unfolding answer_review set_review_response_not_allowed
  answer_review-Cases review (pod, panics) patch = (
    (λ (ended, _). absurd (ground arith), λ (p, ((r, e), _)). absurd (ground arith)),
    (λ (ended, _). absurd (ground arith), λ ((r, e), _). absurd (ground arith)),
    (λ _. refl, λ _. refl),
  )
  answer_review-Cases review (pod, fails m) patch = (
    (λ (ended, _). absurd (ground arith), λ (p, ((r, e), _)). absurd (ground arith)),
    (λ (ended, _). absurd (ground arith), λ ((r, e), _). absurd (ground arith)),
    (λ e. absurd (ground arith), λ e. absurd (ground arith)),
  )
  answer_review-Cases review (pod, done (false, reason)) patch = (
    (
      λ (_, a). absurd (not-Allowed-refused review (not_valid reason) a),
      λ (p, ((r, e), _)). absurd (ground arith),
    ),
    (λ (_, e). absurd (ground arith), λ ((r, e), _). absurd (ground arith)),
    (λ e. absurd (ground arith), λ e. absurd (ground arith)),
  )
  answer_review-Cases review (pod, done (true, reason)) patch =
      elim (Result-cases (create_patch json pod)) [
        | inr (e, bad) ↦
            rw (bad, answer_review)
              (
                (λ (ended, _). absurd (ground arith), λ (p, (_, e)). absurd (ground arith)),
                (λ (ended, _). absurd (ground arith), λ (_, e). absurd (ground arith)),
                (λ e. absurd (ground arith), λ e. absurd (ground arith)),
              )
        | inl (made_patch, made) ↦
            rw (made, answer_review)
              (
                (
                  λ _. (made_patch, ((reason, refl), refl)),
                  λ _. (refl, (allowed_with made_patch, refl, refl)),
                ),
                (
                  λ (_, e). ((reason, refl), ground arith),
                  λ (_, e).
                      (refl, ap (λ r. elim r [ err m ↦ none | ok t ↦ some (allowed_with t) ]) e),
                ),
                (λ e. absurd (ground arith), λ e. absurd (ground arith)),
              )
      ]

  answer_review-ended :
      (review : AdmissionReview) (given : Pod × Answer)
      → (answer_review json review given).1 ≡ done tt
      → Refused (answer_review json review given).0
        ⊎ Approved given (answer_review json review given).0
  unfolding answer_review
  answer_review-ended review (pod, panics) = λ ended. absurd (ground arith)
  answer_review-ended review (pod, fails m) = λ ended. absurd (ground arith)
  answer_review-ended review (pod, done (false, reason)) =
      λ ended. inl (set-Refused review (not_valid reason))
  answer_review-ended review (pod, done (true, reason)) =
      elim (Result-cases (create_patch json pod)) [
        | inr (e, bad) ↦ rw (bad, answer_review) (λ ended. absurd (ground arith))
        | inl (patch, made) ↦ rw (made, answer_review) (λ ended. inr ((reason, refl), refl))
      ]

  module _ (check : Pod → Pod × Answer) where
    -- The request's pod can be read, the validator accepts it in the request's namespace, and the
    -- response allows it with the patch of the pod that the validator left.
    abbrev pub Admits : AdmissionRequest → AdmissionReview → Type 0
    Admits request out =
        Returns (json.unmarshal_pod request.raw)
          λ pod. Approved (check (record pod { namespace = request.namespace })) out

    -- The request's pod can be read, the validator accepts it in the request's namespace, and the patch
    -- of the pod that it left is this one.
    abbrev pub Grants : Text → AdmissionRequest → Type 0
    Grants patch request =
        Returns (json.unmarshal_pod request.raw)
          λ pod. Passes (check (record pod { namespace = request.namespace })) patch

    -- There is no request, or the validator panics on its pod.
    abbrev pub PanicsAt : Option AdmissionRequest → Type 0
    PanicsAt none = Unit
    PanicsAt (some request) =
        Returns (json.unmarshal_pod request.raw)
          λ pod. (check (record pod { namespace = request.namespace })).1 ≡ panics

    -- `HandleAdmission` returns no error and an allowing response exactly if the review has a request
    -- whose pod can be read and which the validator accepts in the request's namespace, and the patch
    -- of the pod that the validator left can be made. The response then is the one with that patch and
    -- no other. It panics exactly if the review has no request or the validator panics on the pod that
    -- was read.
    pub handle_admission_iff :
        (review : AdmissionReview) (patch : Text)
        → let (out, ending) = handle_admission json check review in
          (((ending ≡ done tt) × Allowed out) ↔ ((p : Text) × Present (Grants p) review.request))
          × (((ending ≡ done tt) × (out.response ≡ some (allowed_with patch)))
              ↔ Present (Grants patch) review.request)
          × ((ending ≡ panics) ↔ PanicsAt review.request)
    unfolding handle_admission
    handle_admission_iff review patch = elim (Option-cases review.request) [
      | inl missing ↦
          rw (missing, handle_admission)
            (
              (λ (ended, _). absurd (ground arith), λ (p, h). absurd h),
              (λ (ended, _). absurd (ground arith), λ h. absurd h),
              (λ _. tt, λ _. refl),
            )
      | inr (request, there) ↦ elim (Result-cases (json.unmarshal_pod request.raw)) [
        | inr (e, bad) ↦
            rw (there, bad, handle_admission)
              (fails-Cases (set_review_response_not_allowed review (internal_error e)) e patch)
        | inl (pod, read) ↦
            rw (there, read, handle_admission)
              (answer_review-Cases review (check (record pod { namespace = request.namespace }))
                patch)
      ]
    ]

    pub handle_admission-ended :
        (review : AdmissionReview)
        → (handle_admission json check review).1 ≡ done tt
        → Refused (handle_admission json check review).0
          ⊎ Present
              (λ request. Admits request (handle_admission json check review).0)
              review.request
    unfolding handle_admission
    handle_admission-ended review = elim (Option-cases review.request) [
      | inl missing ↦ rw (missing, handle_admission) (λ ended. absurd (ground arith))
      | inr (request, there) ↦ elim (Result-cases (json.unmarshal_pod request.raw)) [
        | inr (e, bad) ↦ rw (there, bad, handle_admission) (λ ended. absurd (ground arith))
        | inl (pod, read) ↦
            rw (there, read, handle_admission)
              (answer_review-ended review (check (record pod { namespace = request.namespace })))
      ]
    ]
