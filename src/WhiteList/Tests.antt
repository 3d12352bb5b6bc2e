-- ===== src/WhiteList/Tests.antt =====
-- Runs on the inputs of pkg/admissions/pods/whitelist_test.go.
use image_validating_webhook.Base.{
  ◌≡◌, ◌↔◌, refl, true, false, none, some, List, [], ◌∷◌, Some, Text, codes, is_space, trim_space,
  ◌==◌, split, join, lookup, ok, err,
}
use image_validating_webhook.ImageRef.{
  ImageRef, parse_image, parse_images, to_string, not_right_form,
}
use image_validating_webhook.ImageRef.Tests.{full, full-IsCanonical}
use image_validating_webhook.WhiteList.{
  WhiteList, assign_images, is_image_white_listed, entry_match, unmarshal_image,
  unmarshal_namespace, unmarshal, marshal, parse_line_separated_list,
}
use image_validating_webhook.WhiteList.ConfigMap.{
  Cluster, Session, whitelist_by_image, whitelist_by_namespace, whitelist_by_image_legacy,
  whitelist_by_namespace_legacy, unmarshal_legacy_image, unmarshal_legacy_namespace,
  update_config_map, read_images, read_namespaces, parse_or_update_white_list,
}
use image_validating_webhook.WhiteList.Matching.{Covers, is_image_white_listed_iff}
use image_validating_webhook.WhiteList.RoundTrip.{IsPrintable, unmarshal-marshal}
use image_validating_webhook.WhiteList.Migration.{
  Migrated, parse_or_update-malformed, parse_or_update-migrates,
}

abbrev only_name : Text → ImageRef
only_name n = record { host = []; name = n; tag = []; digest = [] }

abbrev listing : ImageRef → WhiteList
listing i = record { by_images = i ∷ []; by_namespaces = [] }

no_tag_listed :
    is_image_white_listed
      (listing (only_name (codes "notary")))
      (codes "registry-test.nip.io/notary")
    ≡ true
unfolding is_image_white_listed entry_match parse_image is_space ◌==◌
no_tag_listed = refl

no_tag_not_listed :
    is_image_white_listed
      (listing (only_name (codes "notary")))
      (codes "registry-test.nip.io/notary-2")
    ≡ false
unfolding is_image_white_listed entry_match parse_image is_space ◌==◌
no_tag_not_listed = refl

wildcard_listed :
    is_image_white_listed
      (listing (record (only_name (codes "*")) { host = codes "registry-2.nip.io" }))
      (codes "registry-2.nip.io/test-image:test")
    ≡ true
unfolding is_image_white_listed entry_match parse_image is_space ◌==◌
wildcard_listed = refl

abbrev two_names : WhiteList
two_names = record {
  by_images = only_name (codes "test-img") ∷ only_name (codes "webhook") ∷ [];
  by_namespaces = codes "test-ns" ∷ codes "default" ∷ [];
}

marshal_normal : marshal two_names ≡ (codes "test-img\nwebhook", codes "test-ns\ndefault")
unfolding marshal join to_string
marshal_normal = refl

unmarshal_normal :
    unmarshal
      (record { by_images = []; by_namespaces = [] })
      (codes "test-img\n webhook \n")
      (codes "test-ns\n\ndefault")
    ≡ (two_names, none)
unfolding unmarshal unmarshal_image unmarshal_namespace parse_image parse_line_separated_list
    parse_images split is_space
unmarshal_normal = refl

abbrev pub printable : WhiteList
printable = record { by_images = full ∷ []; by_namespaces = codes "default" ∷ [] }

abbrev nothing_listed : WhiteList
nothing_listed = record { by_images = []; by_namespaces = [] }

pub printable-IsPrintable : IsPrintable printable
unfolding trim_space is_space to_string
printable-IsPrintable = record {
  canonical = (full-IsCanonical, tt);
  image_lines = (record { nonempty = refl; one_line = refl; is_trimmed = refl }, tt);
  namespace_lines = (record { nonempty = refl; one_line = refl; is_trimmed = refl }, tt);
}

is_image_white_listed_iff_example :
    (is_image_white_listed printable (codes "reg.io/alpine:3@sha256:ab") ≡ true) ↔ (
      (img : ImageRef) × (parse_image (codes "reg.io/alpine:3@sha256:ab") ≡ ok img)
      × Some (λ i. Covers i img) printable.by_images)
is_image_white_listed_iff_example =
    is_image_white_listed_iff printable (codes "reg.io/alpine:3@sha256:ab")

unmarshal-marshal_example :
    unmarshal two_names (marshal printable).0 (marshal printable).1 ≡ (printable, none)
unmarshal-marshal_example = unmarshal-marshal printable two_names printable-IsPrintable

-- A server that takes every patch, and an encoding of a list of one string as that string.
abbrev pub cluster : Cluster
cluster = record {
  unmarshal_strings = λ text old. (text ∷ [], none);
  marshal_data = λ key text. ok text;
  patch_config_map = λ b. none;
}

abbrev session : Session
session = record { white_list = nothing_listed; patches = [] }

abbrev malformed : List (Text × Text)
malformed = (whitelist_by_image, codes "@") ∷ (whitelist_by_namespace, codes "default") ∷ []

malformed_images : lookup whitelist_by_image malformed ≡ some (codes "@")
unfolding lookup ◌==◌
malformed_images = refl

malformed_namespaces : lookup whitelist_by_namespace malformed ≡ some (codes "default")
unfolding lookup ◌==◌
malformed_namespaces = refl

malformed_error : parse_images (parse_line_separated_list (codes "@")) ≡ err not_right_form
unfolding parse_images parse_image parse_line_separated_list split is_space
malformed_error = refl

parse_or_update-malformed_example :
    parse_or_update_white_list cluster malformed session
    ≡ (record session { white_list = nothing_listed }, some not_right_form)
parse_or_update-malformed_example =
    parse_or_update-malformed cluster malformed (codes "@") not_right_form session malformed_images
      malformed_error

abbrev legacy_form : List (Text × Text)
legacy_form =
    (whitelist_by_image_legacy, codes "notary")
    ∷ (whitelist_by_namespace_legacy, codes "default")
    ∷ []

abbrev migrated : Session
migrated = record {
  white_list = record {
    by_images = only_name (codes "notary") ∷ [];
    by_namespaces = codes "default" ∷ [];
  };
  patches = codes "default" ∷ codes "notary" ∷ [];
}

no_new_images : lookup whitelist_by_image legacy_form ≡ none
unfolding lookup ◌==◌
no_new_images = refl

no_new_namespaces : lookup whitelist_by_namespace legacy_form ≡ none
unfolding lookup ◌==◌
no_new_namespaces = refl

legacy_handled : parse_or_update_white_list cluster legacy_form session ≡ (migrated, none)
unfolding parse_or_update_white_list read_images read_namespaces unmarshal_legacy_image
    unmarshal_legacy_namespace update_config_map marshal join to_string parse_images parse_image
    is_space lookup ◌==◌ assign_images
legacy_handled = refl

parse_or_update-migrates_example : Migrated cluster legacy_form session migrated
parse_or_update-migrates_example =
    parse_or_update-migrates cluster legacy_form session migrated no_new_images no_new_namespaces
      legacy_handled
