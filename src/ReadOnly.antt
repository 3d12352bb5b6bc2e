-- ===== src/ReadOnly.antt =====
-- pkg/trust/trust.go: `NewReadOnly`, over the models of the image, the token and the repository, and
-- `FetchSignature` of pkg/notary/signature.go with it. Removing the directory afterwards is left out.
pub mod Sources
pub mod Tests
use image_validating_webhook.Base.{
  ℕ, Bool, true, false, Option, none, some, List, is_empty, if◌then◌else◌, Text, codes, Result, ok,
  err, Outcome,
}
use image_validating_webhook.Image.{Image, References, new_image, get_image_name_with_host}
use image_validating_webhook.Token.{Token, NotaryRepo, HttpClient, get_token}
use image_validating_webhook.Trust.{Repository, TrustTagRow}
use image_validating_webhook.Phrases.{TrustPass, Answer, pass_retriever}
use image_validating_webhook.Signature.{
  Signature, ImageClient, notary_server_or_default, fetch_signature,
}

abbrev pub PassRetriever : Type 0
PassRetriever = Text → Bool → ℕ → Outcome (TrustPass × Answer)

-- client.NewFileCachedRepository of a directory, a name, a server, a transport with the token and a
-- retriever.
abbrev pub NewRepository : Type 0
NewRepository = Text → Text → Text → Option Token → PassRetriever → Result Repository

-- `notaryRepo` as `NewReadOnly` returns it.
pub record ReadOnly : Type 0 where
  pub notary_path : Text
  pub notary : NotaryRepo
  pub repo : Repository
  pub pass_phrase : TrustPass

-- The repository before its token is asked for; its map of phrases is nil.
unfoldable pub notary_repo : Image → Text → NotaryRepo
unfolding get_image_name_with_host
notary_repo image notary_url = record {
  notary_server_url = notary_server_or_default notary_url;
  basic_auth = image.basic_auth;
  image_name = get_image_name_with_host image;
  token = none;
}

module _ {Response : Type 0} (client : HttpClient Response) (new_repository : NewRepository)
    (intn : ℕ → ℕ → ℕ) where
  -- The repository with its token.
  unfoldable pub open_repository :
      Image → Text → NotaryRepo × Result (Option Token) → Result ReadOnly
  unfolding pass_retriever
  open_repository image path (n, err e) = err e
  open_repository image path (n, ok token) =
      elim (new_repository path (get_image_name_with_host image) n.notary_server_url token
        (pass_retriever intn none)) [
          | err e ↦ err e
          | ok repo ↦
              ok (record { notary_path = path; notary = n; repo = repo; pass_phrase = none })
        ]

  unfoldable pub new_read_only : Image → Text → Text → Result ReadOnly
  unfolding notary_repo get_token open_repository
  new_read_only image notary_url path =
      open_repository image path (get_token client (notary_repo image notary_url))

  -- The directory of a call is a parameter; its name is random in the source.
  unfoldable pub image_client : {Named : Type 0} → References Named → Text → ImageClient Image
  unfolding new_image new_read_only
  image_client reference path = record {
    new_image = new_image reference;
    tag = λ i. i.tag;
    new_read_only =
        λ i notary_url. elim (new_read_only i notary_url path) [ err e ↦ err e | ok n ↦ ok n.repo ];
  }
