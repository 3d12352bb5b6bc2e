-- ===== src/Admission.antt =====
-- pkg/admissions/pods/pods.go: the admission handler, which answers a review by the validator's answer
-- and patches the pod. A method that changes the review returns it beside its error.
pub mod Patch
pub mod Response
pub mod Serving
mod Tests
use image_validating_webhook.Base.{
  ℕ, Bool, true, false, Option, none, some, List, [], ◌∷◌, ◌++◌, Text, codes, Result, ok, err,
  Outcome, done, fails, panics,
}
use image_validating_webhook.Validator.{
  Container, Pod, Answer, Services, Validator, check_is_valid_and_add_digest,
}

-- `admissionv1beta1.AdmissionRequest`, with the raw object.
pub record AdmissionRequest : Type 0 where
  pub namespace : Text
  pub raw : Text

-- `admissionv1beta1.AdmissionResponse`, with its status by the message.
pub record AdmissionResponse : Type 0 where
  pub allowed : Bool
  pub message : Text
  pub patch : Option Text
  pub patch_type : Option Text

-- `admissionv1beta1.AdmissionReview`
pub record AdmissionReview : Type 0 where
  pub request : Option AdmissionRequest
  pub response : Option AdmissionResponse

-- `patchOperation`
pub record PatchOperation : Type 0 where
  pub op : Text
  pub path : Text
  pub value : List Container

-- What the handler uses of encoding/json, the deserializer of the scheme included; that one fills the
-- review it is given as far as it gets.
pub record Json : Type 0 where
  pub unmarshal_pod : Text → Result Pod
  pub marshal_patch : List PatchOperation → Result Text
  pub decode_review : Text → AdmissionReview × Option Text
  pub marshal_review : AdmissionReview → Result Text

-- How a method ends that returns an error and no value.
abbrev pub Ending : Type 0
Ending = Outcome {0} Unit

-- What is sent: an error with its status code, a body, or no body since it could not be marshalled; a
-- panic sends nothing.
pub data Reply : Type 0 where
  http_error : ℕ → Text → Reply
  body : Text → Reply
  no_body : Reply
  panicked : Reply

abbrev pub not_allowed : Text → AdmissionResponse
not_allowed message = record { allowed = false; message = message; patch = none; patch_type = none }

unfoldable pub set_review_response_not_allowed : AdmissionReview → Text → AdmissionReview
set_review_response_not_allowed review message = record review {
  response = some (not_allowed message);
}

abbrev pub replace : Text → List Container → PatchOperation
replace path value = record { op = codes "replace"; path = path; value = value }

abbrev pub containers_path : Text
containers_path = codes "/spec/containers"

abbrev pub init_containers_path : Text
init_containers_path = codes "/spec/initContainers"

-- The operations of `createPatch`; the pod is never nil.
unfoldable pub patch_operations : Pod → List PatchOperation
patch_operations pod =
    replace containers_path pod.containers
    ∷ elim pod.init_containers [ [] ↦ [] | c ∷ cs ↦ replace init_containers_path (c ∷ cs) ∷ [] ]

abbrev pub internal_error : Text → Text
internal_error e = codes "Internal webhook server error: " ++ e

abbrev pub not_valid : Text → Text
not_valid reason = codes "Pod is not valid: \n" ++ reason

abbrev pub allowed_with : Text → AdmissionResponse
allowed_with patch = record {
  allowed = true;
  message = [];
  patch = some patch;
  patch_type = some (codes "JSONPatch");
}

abbrev pub cannot_read : Text → Text
cannot_read e = codes "Couldn't read request by " ++ e

abbrev pub cannot_decode : Text → Text
cannot_decode e = codes "Couldn't decode request by " ++ e

abbrev pub cannot_handle : Text → Text
cannot_handle e = codes "Couldn't handle admission request by " ++ e

module _ (json : Json) where
  unfoldable pub create_patch : Pod → Result Text
  create_patch patch_pod = json.marshal_patch (patch_operations patch_pod)

  -- The part of `HandleAdmission` behind the validator.
  unfoldable pub answer_review : AdmissionReview → Pod × Answer → AdmissionReview × Ending
  answer_review review (pod, panics) = (review, panics)
  answer_review review (pod, fails e) =
      (set_review_response_not_allowed review (internal_error e), fails e)
  answer_review review (pod, done (false, reason)) =
      (set_review_response_not_allowed review (not_valid reason), done tt)
  answer_review review (pod, done (true, _)) = elim (create_patch pod) [
    | err e ↦ (set_review_response_not_allowed review (internal_error e), fails e)
    | ok patch ↦ (record review { response = some (allowed_with patch) }, done tt)
  ]

  abbrev pub reply_of : Result Text → Reply
  reply_of (ok response_in_bytes) = body response_in_bytes
  reply_of (err e) = no_body

  unfoldable pub write_review_response : AdmissionReview → Reply
  write_review_response review = reply_of (json.marshal_review review)

  -- The part of `ServeHTTP` behind the decoded review.
  unfoldable pub serve_review : AdmissionReview × Ending → Reply
  serve_review (review, panics) = panicked
  serve_review (review, fails e) =
      write_review_response (set_review_response_not_allowed review (cannot_handle e))
  serve_review (review, done _) = write_review_response review

  -- `check` is the method of the `Validator` interface.
  module _ (check : Pod → Pod × Answer) where
    -- A review without a request is a nil pointer, which the first line reads.
    unfoldable pub handle_admission : AdmissionReview → AdmissionReview × Ending
    handle_admission review = elim review.request [
      | none ↦ (review, panics)
      | some request ↦ elim (json.unmarshal_pod request.raw) [
        | err e ↦ (set_review_response_not_allowed review (internal_error e), fails e)
        | ok pod ↦ answer_review review (check (record pod { namespace = request.namespace }))
      ]
    ]

    unfoldable pub serve_http : Result Text → Reply
    serve_http (err e) = http_error 400 (cannot_read e)
    serve_http (ok b) =
        let (review, error) = json.decode_review b in
        elim error [
          | some e ↦
              write_review_response (set_review_response_not_allowed review (cannot_decode e))
          | none ↦ serve_review (handle_admission review)
        ]
