-- ===== src/Image/Tests.antt =====
-- References to one repository, "docker.io/library/alpine", by their tag and digest, "" for none.
use image_validating_webhook.Base.{
  ◌≡◌, ◌≢◌, ◌↔◌, ◌⊎◌, refl, false, Option, none, some, [], ◌∷◌, arith, Text, codes, ◌==◌,
  if◌then◌else◌, is_empty, path_join, join, split, Result, ok, err,
}
use image_validating_webhook.Image.{
  Image, References, zero_image, default_server, set_image, normalized_named,
}
use image_validating_webhook.Image.Endpoint.{OnHub, Elsewhere, with_scheme, set_image-server}
use image_validating_webhook.Image.Parts.{IsReferences}
use image_validating_webhook.Image.Tags.{parts_of, hub_parts, set_image-fails_iff, set_image-parts}

abbrev pub Named : Type 0
Named = Text × Text

abbrev pub shown : Text → Option Text
shown [] = none
shown (c ∷ t) = some (c ∷ t)

abbrev pub latest : Named → Named
latest ([], []) = (codes "latest", [])
latest ([], c ∷ d) = ([], c ∷ d)
latest (c ∷ t, d) = (c ∷ t, d)

abbrev pub tagging : Named → Text → Result Named
tagging n [] = err (codes "invalid tag format")
tagging n (c ∷ t) = ok (c ∷ t, n.1)

abbrev pub digesting : Named → Text → Result Named
digesting n [] = err (codes "invalid digest format")
digesting n (c ∷ d) = ok (n.0, c ∷ d)

abbrev pub both : Text
both = codes "alpine:3@sha256:ab"

abbrev pub reference : References Named
reference = record {
  parse_named = λ s. err (codes "repository name must be canonical");
  parse_normalized_named = λ s.
      if s == both
      then ok (codes "3", codes "sha256:ab")
      else if is_empty s
      then err (codes "invalid reference format")
      else ok ([], []);
  domain = λ n. codes "docker.io";
  path = λ n. codes "library/alpine";
  familiar_name = λ n. codes "alpine";
  split_hostname = λ n. (codes "docker.io", codes "library/alpine");
  as_canonical = λ n. shown n.1;
  as_digested = λ n. shown n.1;
  as_tagged = λ n. shown n.0;
  tag_name_only = latest;
  with_tag = tagging;
  with_digest = digesting;
}

shown-nonempty : (s t : Text) → shown s ≡ some t → is_empty t ≡ false
shown-nonempty [] t e = absurd (ground arith)
shown-nonempty (c ∷ s) t e = ground arith

only_tagged : (n : Named) (t : Text) → shown n.0 ≡ some t → latest n ≡ n
only_tagged ([], d) t e = absurd (ground arith)
only_tagged (c ∷ s, d) t e = refl

only_digested : (n : Named) (d : Text) → shown n.1 ≡ some d → latest n ≡ n
only_digested ([], []) d e = absurd (ground arith)
only_digested ([], c ∷ s) d e = refl
only_digested (c ∷ t, []) d e = refl
only_digested (c ∷ t, b ∷ s) d e = refl

only_named :
    (n : Named) → shown n.0 ≡ none → shown n.1 ≡ none → shown (latest n).0 ≡ some (codes "latest")
only_named ([], []) e f = refl
only_named ([], c ∷ s) e f = absurd (ground arith)
only_named (c ∷ t, d) e f = absurd (ground arith)

tag_added :
    (n m : Named) (t : Text) → tagging n t ≡ ok m → (shown m.0 ≡ some t) × (shown m.1 ≡ shown n.1)
tag_added n m [] e = absurd (ground arith)
tag_added n m (c ∷ t) e = ground arith

digest_added :
    (n m : Named) (d : Text) → digesting n d ≡ ok m → (shown m.1 ≡ some d) × (shown m.0 ≡ shown n.0)
digest_added n m [] e = absurd (ground arith)
digest_added n m (c ∷ d) e = ground arith

bare_alpine :
    (m : Named)
    → reference.parse_normalized_named (path_join (codes "docker.io") (codes "library/alpine"))
      ≡ ok m
    → (shown m.0 ≡ none) × (shown m.1 ≡ none)
unfolding path_join ◌==◌ join split
bare_alpine m e = ground arith

pub reference_laws : IsReferences reference
reference_laws = record {
  tag_nonempty = λ n t e. shown-nonempty n.0 t e;
  digest_nonempty = λ n d e. shown-nonempty n.1 d e;
  same_digest = λ n. refl;
  only_tagged = only_tagged;
  only_digested = only_digested;
  only_named = only_named;
  tag_added = tag_added;
  digest_added = digest_added;
  bare = λ n norm m e. bare_alpine m e;
}

abbrev pub alpine : Image
alpine = record zero_image {
  server_url = default_server;
  host = codes "docker.io";
  name = codes "library/alpine";
  familiar_name = codes "alpine";
  tag = codes "3";
}

pub accepted : set_image reference zero_image both ≡ ok alpine
unfolding set_image normalized_named path_join ◌==◌ join split
accepted = refl

pub not_parsed : OnHub reference both
not_parsed img parsed = absurd (ground arith)

set_image-server_example :
    (OnHub reference both × (alpine.server_url ≡ default_server))
    ⊎ ((img : Named) × Elsewhere reference both img
        × (alpine.server_url ≡ with_scheme (reference.domain img))
        × (alpine.server_url ≢ default_server))
set_image-server_example = set_image-server reference zero_image alpine both accepted

set_image-fails_iff_example :
    (set_image reference zero_image [] ≡ err (codes "invalid reference format")) ↔ (
      OnHub reference [] × (normalized_named reference [] ≡ err (codes "invalid reference format")))
set_image-fails_iff_example =
    set_image-fails_iff reference reference_laws zero_image [] (codes "invalid reference format")

set_image-parts_example : parts_of alpine ≡ hub_parts (some (codes "3")) (some (codes "sha256:ab"))
unfolding ◌==◌
set_image-parts_example =
    set_image-parts reference reference_laws zero_image alpine both (codes "3", codes "sha256:ab")
      not_parsed refl accepted
