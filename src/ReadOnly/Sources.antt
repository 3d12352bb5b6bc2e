-- ===== src/ReadOnly/Sources.antt =====
-- pkg/trust/trust.go and pkg/notary/signature.go: which repository a signature comes from.
use image_validating_webhook.Base.{
  ℕ, ◌≡◌, ◌∙◌, refl, sym, ap, subst, inl, inr, Option, none, some, List, false, is_empty, arith,
  Text, Result, ok, err, Result-cases,
}
use image_validating_webhook.Image.{
  Image, References, new_image, get_image_name_with_host, zero_image, set_image, with_credentials,
}
use image_validating_webhook.Image.Endpoint.{OnHub}
use image_validating_webhook.Image.Parts.{IsReferences}
use image_validating_webhook.Image.Tags.{hub_parts, set_image-parts}
use image_validating_webhook.Token.{Token, NotaryRepo, HttpClient, get_token}
use image_validating_webhook.Trust.{Repository, TrustTagRow, TrustRepo, get_signed_metadata}
use image_validating_webhook.Phrases.{pass_retriever}
use image_validating_webhook.Signature.{
  Signature, notary_server_or_default, signature_of, fetch_signature,
}
use image_validating_webhook.ReadOnly.{
  NewRepository, ReadOnly, notary_repo, open_repository, new_read_only, image_client,
}

same_repo : {p r : ReadOnly} → ◌≡◌ {A = Result ReadOnly} (ok p) (ok r) → p.repo ≡ r.repo
same_repo e = cc

same_ok : {A : Type 0} {a b : A} → ◌≡◌ {A = Result A} (ok a) (ok b) → a ≡ b
same_ok e = cc

-- The metadata becomes a signature only if it was read.
signature_of-read :
    (r : Result TrustRepo) (sig : Signature)
    → signature_of r ≡ ok (some sig)
    → (trust : TrustRepo) × (r ≡ ok trust) × (signature_of (ok trust) ≡ ok (some sig))
unfolding signature_of
signature_of-read (ok trust) sig e = (trust, refl, e)
signature_of-read (err f) sig e = absurd (ground arith)

-- An image with a name is one that was set, with the credentials.
new_image-set :
    {Named : Type 0} (reference : References Named) (uri basic_auth : Text) (image : Image)
    → is_empty uri ≡ false
    → new_image reference uri basic_auth ≡ ok image
    → (s : Image) × (set_image reference zero_image uri ≡ ok s)
      × (image ≡ with_credentials s basic_auth)
unfolding new_image
new_image-set reference uri basic_auth image named made =
    elim (Result-cases (set_image reference zero_image uri)) [
      | inr (e, failed) ↦ absurd (ground arith)
      | inl (s, done) ↦ (s, done, sym (same_ok (rw (new_image, named, done) at made)))
    ]

module _ {Response : Type 0} (client : HttpClient Response) (new_repository : NewRepository)
    (intn : ℕ → ℕ → ℕ) where
  -- The repository of an image: it is opened with the token that was got for it.
  pub record OpenedFor (image : Image) (notary_url path : Text) (repo : Repository) : Type 0 where
    pub notary : NotaryRepo
    pub token : Option Token
    pub asked : get_token client (notary_repo image notary_url) ≡ (notary, ok token)
    pub opened :
        new_repository path
          (get_image_name_with_host image)
          notary.notary_server_url
          token
          (pass_retriever intn none)
        ≡ ok repo

  open_repository-OpenedFor :
      (image : Image) (notary_url path : Text) (t : NotaryRepo × Result (Option Token))
      (r : ReadOnly)
      → get_token client (notary_repo image notary_url) ≡ t
      → open_repository client new_repository intn image path t ≡ ok r
      → OpenedFor image notary_url path r.repo
  unfolding open_repository
  open_repository-OpenedFor image notary_url path (n, err e) r asked made = absurd (ground arith)
  open_repository-OpenedFor image notary_url path (n, ok token) r asked made =
      elim (Result-cases (
        new_repository path (get_image_name_with_host image) n.notary_server_url token
          (pass_retriever intn none))) [
            | inr (e, failed) ↦ absurd (ground arith)
            | inl (repo, opened) ↦
                subst (OpenedFor image notary_url path)
                  (same_repo (rw (open_repository, opened) at made))
                  (record { notary = n; token = token; asked = asked; opened = opened })
          ]

  new_read_only-OpenedFor :
      (image : Image) (notary_url path : Text) (r : ReadOnly)
      → new_read_only client new_repository intn image notary_url path ≡ ok r
      → OpenedFor image notary_url path r.repo
  unfolding new_read_only
  new_read_only-OpenedFor image notary_url path r made =
      open_repository-OpenedFor image notary_url path
        (get_token client (notary_repo image notary_url)) r refl made

  -- Where a signature that was fetched comes from.
  pub record FetchedFrom {Named : Type 0} (reference : References Named)
      (arrange : List TrustTagRow → List TrustTagRow) (path uri basic_auth server tag : Text)
      (sig : Signature) : Type 0 where
    pub image : Image
    pub repo : Repository
    pub trust : TrustRepo
    pub parsed : new_image reference uri basic_auth ≡ ok image
    pub opened : OpenedFor image server path repo
    pub tag_of : image.tag ≡ tag
    pub read : get_signed_metadata arrange (notary_server_or_default server) repo tag ≡ ok trust
    pub signed : signature_of (ok trust) ≡ ok (some sig)

  module _ {Named : Type 0} (reference : References Named) (laws : IsReferences reference)
      (arrange : List TrustTagRow → List TrustTagRow) where
    fetched :
        (path uri basic_auth server : Text) (sig : Signature) (image : Image)
        → new_image reference uri basic_auth ≡ ok image
        → fetch_signature
            (image_client client new_repository intn reference path)
            arrange
            uri
            basic_auth
            server
          ≡ ok (some sig)
        → FetchedFrom reference arrange path uri basic_auth server image.tag sig
    unfolding fetch_signature image_client
    fetched path uri basic_auth server sig image parsed made =
        elim (Result-cases (new_read_only client new_repository intn image server path)) [
          | inr (e, failed) ↦ absurd (ground arith)
          | inl (r, opened) ↦
              let (trust, read, signed) =
                signature_of-read
                  (get_signed_metadata arrange (notary_server_or_default server) r.repo image.tag)
                  sig (rw (fetch_signature, image_client, parsed, opened) at made) in
              record {
                image = image;
                repo = r.repo;
                trust = trust;
                parsed = parsed;
                opened = new_read_only-OpenedFor image server path r opened;
                tag_of = refl;
                read = read;
                signed = signed;
              }
        ]

    -- A signature that is fetched for an image of Docker Hub, whose reference parses, consists of the
    -- signed rows of one repository, which was opened under the image's host and name, with the token
    -- that was got for the image; the rows are those of the tag that the image gives, "latest" if it
    -- gives neither tag nor digest, and of all tags if it gives a digest alone. The parser keeps the
    -- promises of its documentation.
    pub fetch_signature-FetchedFrom :
        (path uri basic_auth server : Text) (sig : Signature) (n : Named)
        → is_empty uri ≡ false
        → OnHub reference uri
        → reference.parse_normalized_named uri ≡ ok n
        → fetch_signature
            (image_client client new_repository intn reference path)
            arrange
            uri
            basic_auth
            server
          ≡ ok (some sig)
        → FetchedFrom reference arrange path uri basic_auth server
            (hub_parts (reference.as_tagged n) (reference.as_digested n)).0
            sig
    unfolding fetch_signature image_client
    fetch_signature-FetchedFrom path uri basic_auth server sig n named hub normal made =
        elim (Result-cases (new_image reference uri basic_auth)) [
          | inr (e, failed) ↦ absurd (ground arith)
          | inl (image, parsed) ↦
              let (s, accepted, same) = new_image-set reference uri basic_auth image named parsed in
              let tag =
                ap (λ i. i.tag) same
                ∙ ap (λ p. p.0)
                    (set_image-parts reference laws zero_image s uri n hub normal accepted) in
              subst (λ t. FetchedFrom reference arrange path uri basic_auth server t sig) tag
                (fetched path uri basic_auth server sig image parsed made)
        ]
