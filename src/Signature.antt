-- ===== src/Signature.antt =====
-- pkg/notary/signature.go: the signatures of an image, and the digest and the signers that they name.
pub mod Laws
pub mod Tests
use image_validating_webhook.Base.{
  Bool, true, false, ◌&&◌, ◌||◌, Option, none, some, List, [], ◌∷◌, if◌then◌else◌, Text, codes,
  ◌==◌, contains, Result, ok, err, ◌>>=◌,
}
use image_validating_webhook.Trust.{Repository, TrustTagRow, TrustRepo, get_signed_metadata}

pub record SignedTag : Type 0 where
  pub signed_tag : Text
  pub digest : Text
  pub signers : List Text

pub record Signature : Type 0 where
  pub name : Text
  pub signed_tags : List SignedTag

-- The loop of `GetDigest`, with the digest found so far.
digest_from : Text → List SignedTag → Text → Text
digest_from tag [] digest = digest
digest_from tag (t ∷ ts) digest =
    digest_from tag ts (if t.signed_tag == tag then t.digest else digest)

unfoldable pub get_digest : Signature → Text → Text
unfolding digest_from
get_digest s tag = digest_from tag s.signed_tags []

abbrev pub repo_admin : Text
repo_admin = codes "Repo Admin"

-- The innermost loop of `MatchSigner`, over the policy's signers.
in_policy : Text → List Text → Bool
in_policy signer [] = false
in_policy signer (sgr ∷ policy_signers) = sgr == signer || in_policy signer policy_signers

signers_match : List Text → List Text → Bool
signers_match policy_signers [] = false
signers_match policy_signers (signer ∷ signers) =
    signer == repo_admin || in_policy signer policy_signers || signers_match policy_signers signers

tags_match : List Text → List SignedTag → Bool
tags_match policy_signers [] = false
tags_match policy_signers (t ∷ ts) =
    signers_match policy_signers t.signers || tags_match policy_signers ts

unfoldable pub match_signer : Signature → List Text → Bool
unfolding tags_match signers_match in_policy
match_signer s policy_signers = tags_match policy_signers s.signed_tags

abbrev pub signed_tag_of : TrustTagRow → SignedTag
signed_tag_of r = record {
  signed_tag = r.key.signed_tag;
  digest = r.key.digest;
  signers = r.signers;
}

abbrev pub signed_tags_of : List TrustTagRow → List SignedTag
signed_tags_of [] = []
signed_tags_of (r ∷ rows) = signed_tag_of r ∷ signed_tags_of rows

abbrev pub no_trust_data : Text
no_trust_data = codes "does not have trust data for"

-- The end of `FetchSignature`: an image that is not signed is no error, and has no signature.
unfoldable pub signature_of : Result TrustRepo → Result (Option Signature)
signature_of (err e) = if contains e no_trust_data then ok none else err e
signature_of (ok repo) =
    ok (some (record { name = repo.name; signed_tags = signed_tags_of repo.signed_tags }))

-- `image.Image`, as far as this package reads it, and `trust.NewReadOnly`, whose directory is
-- removed at the end of the call.
pub record ImageClient (Image : Type 0) : Type 0 where
  pub new_image : Text → Text → Result Image
  pub tag : Image → Text
  pub new_read_only : Image → Text → Result Repository

-- The server of trust.go when the policy names none.
abbrev pub notary_server_or_default : Text → Text
notary_server_or_default [] = codes "https://notary.docker.io"
notary_server_or_default (c ∷ s) = c ∷ s

module _ {Image : Type 0} (client : ImageClient Image)
    (arrange : List TrustTagRow → List TrustTagRow) where
  unfoldable pub fetch_signature : Text → Text → Text → Result (Option Signature)
  fetch_signature image_uri basic_auth notary_server = do
    img ← client.new_image image_uri basic_auth
    repo ← client.new_read_only img notary_server
    signature_of
        (get_signed_metadata arrange (notary_server_or_default notary_server) repo (client.tag img))
