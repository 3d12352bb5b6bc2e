-- ===== src/Trust/Tests.antt =====
-- A repository with one released target, which a delegation role signed too.
use image_validating_webhook.Base.{
  ◌≡◌, ◌↔◌, refl, List, [], ◌∷◌, codes, ◌==◌, trim_prefix, Some, ok,
}
use image_validating_webhook.Trust.{
  Target, TrustTagRow, TrustRepo, Repository, is_released_target, notary_role_to_signer, hex_encode,
  key_eq, row_at, set_row, released_rows, add_signer, signer_rows, with_admin, releases_role,
  match_released_signatures, get_signed_metadata,
}
use image_validating_webhook.Trust.Metadata.{Released, KeepsRows, get_signed_metadata-rows}

abbrev pub in_order : List TrustTagRow → List TrustTagRow
in_order rows = rows

pub in_order-KeepsRows : KeepsRows in_order
in_order-KeepsRows P rows = (λ h. h, λ h. h)

abbrev pub targets : List Target
targets =
    record { role = releases_role; name = codes "3"; sha256 = 0xab ∷ [] }
    ∷ record { role = codes "targets/alice"; name = codes "3"; sha256 = 0xab ∷ [] }
    ∷ []

abbrev pub repository : Repository
repository = record {
  get_all_target_metadata_by_name = λ tag. ok targets;
  list_roles = ok tt;
  gun = codes "reg.io/alpine";
}

abbrev pub metadata : TrustRepo
metadata = record {
  name = codes "reg.io/alpine";
  signed_tags =
      record {
        key = record { signed_tag = codes "3"; digest = codes "ab" };
        signers = codes "alice" ∷ [];
      }
      ∷ [];
}

pub fetched :
    get_signed_metadata in_order (codes "https://notary.io") repository (codes "3") ≡ ok metadata
unfolding get_signed_metadata match_released_signatures with_admin signer_rows add_signer
    released_rows set_row row_at key_eq hex_encode notary_role_to_signer is_released_target
    trim_prefix ◌==◌
fetched = refl

get_signed_metadata-rows_example :
    (ts : List Target) × (ok targets ≡ ok ts)
    × (Some (λ r. r.signers ≡ codes "alice" ∷ []) metadata.signed_tags
        ↔ Released (λ r. r.signers ≡ codes "alice" ∷ []) ts)
    × (repository.list_roles ≡ ok tt)
    × (metadata.name ≡ repository.gun)
get_signed_metadata-rows_example =
    get_signed_metadata-rows in_order in_order-KeepsRows (λ r. r.signers ≡ codes "alice" ∷ [])
      (codes "https://notary.io") (codes "3") repository metadata fetched
