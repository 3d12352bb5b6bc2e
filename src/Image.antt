-- ===== src/Image.antt =====
-- pkg/image/image.go: the registry server, the name, the tag and the digest of an image. The parser of
-- references of docker/distribution is a parameter. The client's HTTP transport is left out.
pub mod Endpoint
pub mod Parts
pub mod Tags
pub mod Tests
use image_validating_webhook.Base.{
  Bool, true, false, ◌&&◌, ◌||◌, not, Option, none, some, List, [], ◌++◌, if◌then◌else◌, Text,
  codes, ◌==◌, is_empty, has_prefix, trim_prefix, contains, path_join, Result, ok, err, ◌>>=◌,
}
use image_validating_webhook.Token.{Token}

abbrev pub default_server_host_name : Text
default_server_host_name = codes "registry-1.docker.io"

abbrev pub default_server : Text
default_server = codes "https://" ++ default_server_host_name

abbrev pub default_hostname : Text
default_hostname = codes "docker.io"

abbrev pub legacy_default_domain : Text
legacy_default_domain = codes "index.docker.io"

-- `Image`, with the flag of its client's TLS configuration.
pub record Image : Type 0 where
  pub server_url : Text
  pub host : Text
  pub name : Text
  pub familiar_name : Text
  pub tag : Text
  pub digest : Text
  pub basic_auth : Text
  pub token : Token
  pub insecure_skip_verify : Bool

-- What the source uses of docker/distribution/reference, over its type `Named`. The type assertions give the
-- tag or the digest of a reference that has one.
pub record References (Named : Type 0) : Type 0 where
  pub parse_named : Text → Result Named
  pub parse_normalized_named : Text → Result Named
  pub domain : Named → Text
  pub path : Named → Text
  pub familiar_name : Named → Text
  pub split_hostname : Named → Text × Text
  pub as_canonical : Named → Option Text
  pub as_digested : Named → Option Text
  pub as_tagged : Named → Option Text
  pub tag_name_only : Named → Named
  pub with_tag : Named → Text → Result Named
  pub with_digest : Named → Text → Result Named

unfoldable pub is_default_server_domain : Text → Bool
is_default_server_domain domain =
    if not (domain == default_hostname)
      && (not (domain == default_server)
          && (not (domain == default_server_host_name) && not (domain == legacy_default_domain)))
    then false
    else true

unfoldable pub is_valid_domain : Image → Text → Bool
is_valid_domain r domain = contains r.server_url domain

unfoldable pub set_server_url : Image → Text → Image
set_server_url r url = record r {
  server_url =
      if not (has_prefix url (codes "https://")) && not (has_prefix url (codes "http://"))
      then codes "https://" ++ url
      else url;
}

-- The domain of a parsed image sets the server, if it is not the default.
unfoldable pub set_domain : Image → Text → Image
unfolding is_default_server_domain is_valid_domain set_server_url
set_domain r parsed =
    let domain = if is_default_server_domain parsed then default_server else parsed in
    if not (is_valid_domain r domain) then set_server_url r domain else r

abbrev pub no_tag_and_digest : Text
no_tag_and_digest = codes "no tag and digest given"

abbrev or_nothing : Option Text → Text
or_nothing none = []
or_nothing (some t) = t

abbrev is_some : Option Text → Bool
is_some none = false
is_some (some t) = true

unfoldable pub get_image_name_with_host : Image → Text
get_image_name_with_host r = path_join r.host r.name

abbrev pub zero_image : Image
zero_image = record {
  server_url = [];
  host = [];
  name = [];
  familiar_name = [];
  tag = [];
  digest = [];
  basic_auth = [];
  token = record { type = []; value = [] };
  insecure_skip_verify = false;
}

-- The credentials and the client of a new image.
abbrev pub with_credentials : Image → Text → Image
with_credentials r basic_auth = record r {
  basic_auth = basic_auth;
  token = record { type = []; value = [] };
  insecure_skip_verify = true;
}

module _ {Named : Type 0} (reference : References Named) where
  -- The tag, or the digest of a reference without a tag; "" for what is not given.
  unfoldable pub get_tag_or_digest : Named → Text × Text
  get_tag_or_digest named = elim (reference.as_tagged named) [
    | some tag ↦ (tag, [])
    | none ↦ elim (reference.as_digested named) [ some digest ↦ ([], digest) | none ↦ ([], []) ]
  ]

  -- The tag or digest is put behind the name again.
  unfoldable pub refer : Named → Text × Text → Result Named
  refer named (tag, digest) =
      if not (is_empty tag)
      then reference.with_tag named tag
      else if not (is_empty digest)
      then reference.with_digest named digest
      else ok named

  unfoldable pub normalized_named : Text → Result Named
  unfolding get_tag_or_digest refer path_join
  normalized_named image = do
    named ← reference.parse_normalized_named image
    norm ← reference.parse_normalized_named (reference.path named)
    bare ←
        reference.parse_normalized_named (path_join (reference.domain named) (reference.path norm))
    refer bare (get_tag_or_digest named)

  -- The end of `setImage`, with the parsed image.
  unfoldable pub set_parts : Image → Named → Result Image
  set_parts r img =
      let (host, name) = reference.split_hostname img in
      let canonical = reference.as_canonical img in
      let tagged = reference.as_tagged (reference.tag_name_only img) in
      if is_some canonical || is_some tagged
      then ok (record r {
        host = host;
        name = name;
        digest = or_nothing canonical;
        tag = or_nothing tagged;
      })
      else err no_tag_and_digest

  -- The reference of an image on another server; a short name is looked up below the server.
  unfoldable pub named_on_server : Image → Text → Result Named
  unfolding path_join
  named_on_server r image = elim (reference.parse_named image) [
    | ok img ↦ ok img
    | err e ↦ reference.parse_named (
        path_join (trim_prefix (trim_prefix r.server_url (codes "http://")) (codes "https://"))
          image)
  ]

  abbrev pub resolved : Image → Result Named → Image
  resolved r (ok img) = set_domain r (reference.domain img)
  resolved r (err e) = r

  abbrev pub on_default : Image → Result Named → Result Image
  on_default r (ok img) = set_parts (record r { familiar_name = reference.familiar_name img }) img
  on_default r (err e) = err e

  abbrev pub elsewhere : Image → Result Named → Result Image
  elsewhere r (ok img) = set_parts (record r { familiar_name = reference.path img }) img
  elsewhere r (err e) = err e

  unfoldable pub set_image : Image → Text → Result Image
  unfolding set_domain normalized_named named_on_server set_parts
  set_image old image =
      let r = resolved (record old { server_url = default_server }) (reference.parse_named image) in
      if r.server_url == default_server
      then on_default r (normalized_named image)
      else elsewhere r (named_on_server r image)

  unfoldable pub new_image : Text → Text → Result Image
  unfolding set_image
  new_image uri basic_auth =
      if not (is_empty uri)
      then (set_image zero_image uri >>= λ r. ok (with_credentials r basic_auth))
      else ok (with_credentials zero_image basic_auth)
