-- ===== src/Validator/Answers.antt =====
-- pkg/admissions/pods/validator.go: the answers `(valid, reason)` and their messages.
use image_validating_webhook.Base.{
  Bool, true, false, List, [], ◌∷◌, ◌++◌, if◌then◌else◌, Text, codes, is_empty, join, Outcome, done,
  fails, panics,
}

-- Whether the image is valid, and the reason if it is not.
abbrev pub Answer : Type 0
Answer = Outcome (Bool × Text)

-- `return true, "", nil`
abbrev pub accept : Answer
accept = done (true, [])

-- `return false, reason, nil`
abbrev pub reject : Text → Answer
reject reason = done (false, reason)

abbrev pub image_message : Text → Text → Text → Text
image_message by image what = by ++ (codes ": Image '" ++ (image ++ what))

abbrev pub notary : Text
notary = codes "Notary"

abbrev pub cosign : Text
cosign = codes "Cosign"

abbrev pub is_invalid : Text
is_invalid = codes "' is invalid"

abbrev pub has_invalid_signer : Text
has_invalid_signer = codes "'s signer is invalid"

abbrev pub has_other_digest : Text
has_other_digest = codes "''s digest is different from the signed digest"

abbrev pub has_empty_signature : Text
has_empty_signature = codes "' signature is empty"

abbrev pub meets_no_policy : Text
meets_no_policy =
    codes "' does not meet registry security policy. Please check the RegistrySecurityPolicy"

abbrev pub incorrect_annotation : Text
incorrect_annotation = codes "missing or incorrect annotation"

abbrev pub no_secret : Text → Text → Text
no_secret name e = codes "couldn't get secret named " ++ (name ++ (codes " by " ++ e))

-- The reasons that are not empty.
abbrev pub add_reason : Text → List Text → List Text
add_reason reason reasons = if is_empty reason then reasons else reason ∷ reasons

-- The end of `CheckIsValidAndAddDigest`, behind a reason of the notary's.
abbrev pub last_answer : Text → Answer → Answer
last_answer reason panics = panics
last_answer reason (fails e) = fails e
last_answer reason (done (true, _)) = accept
last_answer reason (done (false, other)) =
    reject (join (add_reason reason (add_reason other [])) 10)

-- What is left of an answer on the way up: a positive one has no reason.
abbrev pub passed_up : Answer → Answer
passed_up panics = panics
passed_up (fails e) = fails e
passed_up (done (true, _)) = accept
passed_up (done (false, reason)) = reject reason

-- Goes on to the containers once the init containers have been answered positively.
abbrev pub next_answer : Answer → Answer → Answer
next_answer (done (true, _)) next = passed_up next
next_answer first next = first
