-- ===== src/Admission/Serving.antt =====
-- pkg/admissions/pods/pods.go: what `ServeHTTP` sends.
use image_validating_webhook.Base.{
  subst, ◌≡◌, ◌≢◌, ◌⊎◌, ◌∙◌, refl, ap, inl, inr, none, Option-cases, arith, Text, ok, Result-cases,
  done, fails, panics,
}
use image_validating_webhook.Validator.{Pod, Answer}
use image_validating_webhook.Admission.{
  AdmissionReview, Json, Ending, body, no_body, panicked, handle_admission, serve_review,
  serve_http, set_review_response_not_allowed, write_review_response, cannot_handle, cannot_decode,
}
use image_validating_webhook.Admission.Response.{
  Refused, set-Refused, Present, Admits, handle_admission-ended,
}

body_injective : (b c : Text) → body b ≡ body c → b ≡ c
body_injective b c e = cc

no_body≢body : (b : Text) → no_body ≢ body b
no_body≢body b e = ground arith

panicked≢body : (b : Text) → panicked ≢ body b
panicked≢body b e = ground arith

module _ (json : Json) where
  written :
      (out : AdmissionReview) (b : Text)
      → write_review_response json out ≡ body b
      → json.marshal_review out ≡ ok b
  unfolding write_review_response
  written out b e = elim (Result-cases (json.marshal_review out)) [
    | inl (c, made) ↦ made ∙ ap ok (body_injective c b (rw made at e))
    | inr (m, bad) ↦ absurd (no_body≢body b (rw bad at e))
  ]

  serve_review-body :
      (given : AdmissionReview × Ending) (b : Text)
      → serve_review json given ≡ body b
      → (out : AdmissionReview) × (json.marshal_review out ≡ ok b)
        × (Refused out ⊎ ((given.1 ≡ done tt) × (given.0 ≡ out)))
  unfolding serve_review
  serve_review-body (review, panics) b e = absurd (panicked≢body b e)
  serve_review-body (review, fails m) b e =
      let out = set_review_response_not_allowed review (cannot_handle m) in
      (out, written out b e, inl (set-Refused review (cannot_handle m)))
  serve_review-body (review, done u) b e = (review, written review b e, inr (refl, refl))

  module _ (check : Pod → Pod × Answer) where
    -- The response refuses the pod, or the request's body was decoded without an error and its request
    -- is admitted.
    abbrev pub Answers : Text → AdmissionReview → Type 0
    Answers raw out =
        Refused out
        ⊎ (((json.decode_review raw).1 ≡ none)
            × Present (λ request. Admits json check request out) (json.decode_review raw).0.request)

    -- A body that `ServeHTTP` sends is a marshalled review that refuses the pod, unless the request's
    -- body was decoded without an error, its pod could be read, the validator accepted it in the request's
    -- namespace and the patch was made, which the response then holds.
    pub serve_http-body :
        (raw b : Text)
        → serve_http json check (ok raw) ≡ body b
        → (out : AdmissionReview) × (json.marshal_review out ≡ ok b) × Answers raw out
    unfolding serve_http
    serve_http-body raw b e = elim (Option-cases (json.decode_review raw).1) [
      | inr (m, bad) ↦
          let review = (json.decode_review raw).0 in
          let out = set_review_response_not_allowed review (cannot_decode m) in
          (
            out,
            written out b (rw (bad, serve_http) at e),
            inl (set-Refused review (cannot_decode m)),
          )
      | inl good ↦
          let review = (json.decode_review raw).0 in
          let (out, made, which) =
            serve_review-body (handle_admission json check review) b (rw (good, serve_http) at e) in
          (
            out,
            made,
            elim which [
              | inl refused ↦ inl refused
              | inr (ended, same) ↦
                  subst (Answers raw) same (elim (handle_admission-ended json check review ended) [
                    | inl refused ↦ inl refused
                    | inr admitted ↦ inr (good, admitted)
                  ])
            ],
          )
    ]
