-- ===== src/ReadOnly/Tests.antt =====
-- The signature of "alpine:3@sha256:ab", from a notary server that wants a token.
use image_validating_webhook.Base.{◌≡◌, refl, some, codes, ◌==◌, lookup, ok}
use image_validating_webhook.Image.{new_image, with_credentials, get_image_name_with_host}
use image_validating_webhook.Image.Tests.{
  reference, reference_laws, both, alpine, accepted, not_parsed,
}
use image_validating_webhook.Token.{
  authorized, get_token, fetch_token, after_ping, challenged, set_token, store_token,
  check_ping_response,
}
use image_validating_webhook.Token.Tests.{client}
use image_validating_webhook.Trust.Tests.{in_order, repository}
use image_validating_webhook.Phrases.Tests.{least}
use image_validating_webhook.Signature.{fetch_signature}
use image_validating_webhook.Signature.Tests.{signature, signed}
use image_validating_webhook.ReadOnly.{
  ReadOnly, NewRepository, image_client, new_read_only, open_repository, notary_repo,
}
use image_validating_webhook.ReadOnly.Sources.{FetchedFrom, fetch_signature-FetchedFrom}

abbrev opens : NewRepository
opens path gun url token retriever = ok repository

parsed : new_image reference both (codes "dXNlcg") ≡ ok (with_credentials alpine (codes "dXNlcg"))
unfolding new_image
parsed = rw (accepted, new_image) refl

opened :
    (r : ReadOnly) × (new_read_only client opens least
        (with_credentials alpine (codes "dXNlcg"))
        (codes "https://notary.io")
        (codes "/tmp")
      ≡ ok r)
    × (r.repo ≡ repository)
unfolding new_read_only open_repository notary_repo get_token fetch_token after_ping challenged
    set_token store_token check_ping_response authorized get_image_name_with_host lookup ◌==◌
opened = (_, refl, refl)

got :
    fetch_signature
      (image_client client opens least reference (codes "/tmp"))
      in_order
      both
      (codes "dXNlcg")
      (codes "https://notary.io")
    ≡ ok (some signature)
unfolding fetch_signature image_client
got = let (r, made, same) = opened in rw (fetch_signature, image_client, parsed, made, same) signed

fetch_signature-FetchedFrom_example :
    FetchedFrom client opens least reference in_order
      (codes "/tmp")
      both
      (codes "dXNlcg")
      (codes "https://notary.io")
      (codes "3")
      signature
unfolding ◌==◌
fetch_signature-FetchedFrom_example =
    fetch_signature-FetchedFrom client opens least reference reference_laws in_order (codes "/tmp")
      both (codes "dXNlcg") (codes "https://notary.io") signature (codes "3", codes "sha256:ab")
      refl not_parsed refl got
