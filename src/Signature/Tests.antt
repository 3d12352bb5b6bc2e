-- ===== src/Signature/Tests.antt =====
-- The signature of an image with one signed tag.
use image_validating_webhook.Base.{◌≡◌, ◌↔◌, refl, true, some, List, [], ◌∷◌, codes, Some, ok}
use image_validating_webhook.Trust.{Target, get_signed_metadata}
use image_validating_webhook.Trust.Metadata.{Released}
use image_validating_webhook.Trust.Tests.{
  in_order, in_order-KeepsRows, targets, repository, fetched,
}
use image_validating_webhook.Signature.{Signature, match_signer, signature_of}
use image_validating_webhook.Signature.Laws.{Accepted, signature-match_signer}

abbrev pub signature : Signature
signature = record {
  name = codes "reg.io/alpine";
  signed_tags =
      record { signed_tag = codes "3"; digest = codes "ab"; signers = codes "alice" ∷ [] } ∷ [];
}

pub signed :
    signature_of (get_signed_metadata in_order (codes "https://notary.io") repository (codes "3"))
    ≡ ok (some signature)
unfolding signature_of
signed = rw fetched refl

signature-match_signer_example :
    (ts : List Target) × (ok targets ≡ ok ts)
    × ((match_signer signature (codes "alice" ∷ []) ≡ true)
        ↔ Released (λ r. Some (Accepted (codes "alice" ∷ [])) r.signers) ts)
signature-match_signer_example =
    signature-match_signer in_order in_order-KeepsRows (codes "https://notary.io") (codes "3")
      repository signature (codes "alice" ∷ []) signed
