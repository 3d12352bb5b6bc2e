-- ===== src/Admission/Tests.antt =====
-- Reviews of a pod, with a validator that accepts every pod.
use image_validating_webhook.Base.{◌≡◌, ◌↔◌, refl, none, some, codes, Text, ok, done, panics}
use image_validating_webhook.Validator.{Pod, Answer, accept, check_is_valid_and_add_digest}
use image_validating_webhook.Validator.Tests.{services, validator, pod}
use image_validating_webhook.Admission.{
  AdmissionReview, Json, allowed_with, body, patch_operations, create_patch, answer_review,
  handle_admission, serve_review, serve_http, write_review_response,
}
use image_validating_webhook.Admission.Patch.{apply_patch, patch-check}
use image_validating_webhook.Admission.Serving.{Answers, serve_http-body}
use image_validating_webhook.Admission.Response.{
  Allowed, Present, Grants, PanicsAt, handle_admission_iff,
}

abbrev review : AdmissionReview
review = record {
  request = some (record { namespace = codes "default"; raw = codes "{}" });
  response = none;
}

-- Every text is the pod, or the review of it, and every value has the same text.
abbrev json : Json
json = record {
  unmarshal_pod = λ raw. ok pod;
  marshal_patch = λ operations. ok (codes "[]");
  decode_review = λ text. (review, none);
  marshal_review = λ r. ok (codes "{}");
}

abbrev accepting : Pod → Pod × Answer
accepting p = (p, accept)

handle_admission_iff_example :
    let (out, ending) = handle_admission json accepting review in
    (((ending ≡ done tt) × Allowed out)
      ↔ ((p : Text) × Present (Grants json accepting p) review.request))
    × (((ending ≡ done tt) × (out.response ≡ some (allowed_with (codes "[]"))))
        ↔ Present (Grants json accepting (codes "[]")) review.request)
    × ((ending ≡ panics) ↔ PanicsAt json accepting review.request)
handle_admission_iff_example = handle_admission_iff json accepting review (codes "[]")

served : serve_http json accepting (ok (codes "{}")) ≡ body (codes "{}")
unfolding serve_http serve_review handle_admission answer_review create_patch patch_operations
    write_review_response
served = refl

serve_http-body_example :
    (out : AdmissionReview) × (json.marshal_review out ≡ ok (codes "{}"))
    × Answers json accepting (codes "{}") out
serve_http-body_example = serve_http-body json accepting (codes "{}") (codes "{}") served

patch-check_example :
    let checked = (check_is_valid_and_add_digest services validator pod).0 in
    apply_patch (patch_operations checked) pod ≡ some checked
patch-check_example = patch-check services validator pod
