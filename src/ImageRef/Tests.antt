-- ===== src/ImageRef/Tests.antt =====
-- Runs of the parser and the printer on the inputs of pkg/admissions/pods/whitelist_test.go.
use image_validating_webhook.Base.{
  ◌≡◌, refl, inr, none, some, [], codes, ok, err, is_space, trim_space,
}
use image_validating_webhook.ImageRef.{ImageRef, to_string, parse_image, not_right_form}
use image_validating_webhook.Regex.{in_class}
use image_validating_webhook.ImageRef.Scan.{scan, trimmed}
use image_validating_webhook.ImageRef.Equivalence.{parse_image-scan}
use image_validating_webhook.ImageRef.RoundTrip.{IsCanonical, parse_image-to_string}

parse_full :
    parse_image (codes "reg-test.ip.nip.io/alpine:3@sha256:def822f9851")
    ≡ ok (record {
      host = codes "reg-test.ip.nip.io";
      name = codes "alpine";
      tag = codes "3";
      digest = codes "sha256:def822f9851";
    })
unfolding parse_image is_space
parse_full = refl

parse_contains_slash :
    parse_image (codes "tmax-cloud/alpine:3")
    ≡ ok (record { host = []; name = codes "tmax-cloud/alpine"; tag = codes "3"; digest = [] })
unfolding parse_image is_space
parse_contains_slash = refl

parse_empty : parse_image [] ≡ err not_right_form
unfolding parse_image is_space
parse_empty = refl

-- The expression is not anchored at the end: a digest in upper case is dropped.
parse_bad_digest :
    parse_image (codes "alpine@sha256:DEF")
    ≡ ok (record { host = []; name = codes "alpine"; tag = []; digest = [] })
unfolding parse_image is_space
parse_bad_digest = refl

-- A host without a dot is read as the name, its port as the tag.
parse_host_without_dot :
    parse_image (codes "localhost:5000/alpine:3")
    ≡ ok (record { host = []; name = codes "localhost"; tag = codes "5000/alpine:3"; digest = [] })
unfolding parse_image is_space
parse_host_without_dot = refl

abbrev pub full : ImageRef
full = record {
  host = codes "reg.io";
  name = codes "alpine";
  tag = codes "3";
  digest = codes "sha256:ab";
}

pub full-IsCanonical : IsCanonical full
unfolding trim_space is_space in_class
full-IsCanonical = record {
  host_form = inr (record {
    label = codes "reg";
    domain = codes "io";
    splits = refl;
    label_run = record { nonempty = refl; in_it = refl };
    domain_run = record { nonempty = refl; in_it = refl };
  });
  name_form = record { nonempty = refl; in_it = refl };
  tag_form = refl;
  digest_form = inr (record {
    algorithm = codes "sha256";
    encoded = codes "ab";
    splits = refl;
    algorithm_run = record { nonempty = refl; in_it = refl };
    encoded_run = record { nonempty = refl; in_it = refl };
  });
  host_trimmed = refl;
  name_trimmed = refl;
  tag_trimmed = refl;
  digest_trimmed = refl;
}

parse_image-to_string_example : parse_image (to_string full) ≡ ok full
parse_image-to_string_example = parse_image-to_string full full-IsCanonical

parse_image-scan_example :
    parse_image (codes "reg.io/alpine:3@sha256:ab")
    ≡ elim (scan (codes "reg.io/alpine:3@sha256:ab")) [
      | none ↦ err not_right_form
      | some r ↦ trimmed r
    ]
parse_image-scan_example = parse_image-scan (codes "reg.io/alpine:3@sha256:ab")
