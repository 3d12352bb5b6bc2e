-- ===== src/Trust.antt =====
-- pkg/trust/trust.go: the signed targets of a notary repository, as rows of a tag, a digest and the
-- signers.
pub mod Rows
pub mod Metadata
pub mod Tests
use Prim.Native.Nat.{◌/◌, ◌%◌}
use image_validating_webhook.Base.{
  ℕ, ◌+◌, ◌-◌, Bool, true, false, ◌&&◌, ◌||◌, Option, none, some, List, [], ◌∷◌, ◌++◌, ltb,
  if◌then◌else◌, Text, codes, ◌==◌, trim_prefix, Result, ok, err, ◌>>=◌,
}

-- `client.TargetSignedStruct`: the role that signed, the target's name and its SHA256 hash.
pub record Target : Type 0 where
  pub role : Text
  pub name : Text
  pub sha256 : Text

-- `trustTagKey`
pub record TrustTagKey : Type 0 where
  pub signed_tag : Text
  pub digest : Text

-- `trustTagRow`
pub record TrustTagRow : Type 0 where
  pub key : TrustTagKey
  pub signers : List Text

-- `trustRepo`
pub record TrustRepo : Type 0 where
  pub name : Text
  pub signed_tags : List TrustTagRow

-- `data.CanonicalTargetsRole`
abbrev pub targets_role : Text
targets_role = codes "targets"

abbrev pub releases_role : Text
releases_role = codes "targets/releases"

abbrev pub released_role_name : Text
released_role_name = codes "Repo Admin"

unfoldable pub is_released_target : Text → Bool
is_released_target role = role == targets_role || role == releases_role

unfoldable pub notary_role_to_signer : Text → Text
notary_role_to_signer tuf_role =
    if is_released_target tuf_role
    then released_role_name
    else trim_prefix tuf_role (codes "targets/")

abbrev pub hex_digit : ℕ → ℕ
hex_digit n = if ltb n 10 then b'0' + n else b'a' + n - 10

-- hex.EncodeToString
unfoldable pub hex_encode : Text → Text
hex_encode [] = []
hex_encode (b ∷ bs) = hex_digit (b / 16) ∷ hex_digit (b % 16) ∷ hex_encode bs

abbrev pub key_of : Target → TrustTagKey
key_of tgt = record { signed_tag = tgt.name; digest = hex_encode tgt.sha256 }

unfoldable pub key_eq : TrustTagKey → TrustTagKey → Bool
key_eq a b = a.signed_tag == b.signed_tag && a.digest == b.digest

-- `releasedTargetRows`, a map from keys to signers.
abbrev pub RowMap : Type 0
RowMap = List (TrustTagKey × List Text)

unfoldable pub row_at : TrustTagKey → RowMap → Option (List Text)
row_at k [] = none
row_at k ((j, signers) ∷ m) = if key_eq j k then some signers else row_at k m

-- `m[k] = signers`
unfoldable pub set_row : TrustTagKey → List Text → RowMap → RowMap
set_row k signers [] = (k, signers) ∷ []
set_row k signers ((j, old) ∷ m) =
    if key_eq j k then (j, signers) ∷ m else (j, old) ∷ set_row k signers m

-- The first pass.
unfoldable pub released_rows : List Target → RowMap → RowMap
released_rows [] m = m
released_rows (tgt ∷ ts) m =
    released_rows ts (if is_released_target tgt.role then set_row (key_of tgt) [] m else m)

-- One round of the second pass.
unfoldable pub add_signer : Target → RowMap → RowMap
add_signer tgt m = elim (row_at (key_of tgt) m) [
  | none ↦ m
  | some signers ↦
      if is_released_target tgt.role
      then m
      else set_row (key_of tgt) (signers ++ notary_role_to_signer tgt.role ∷ []) m
]

unfoldable pub signer_rows : List Target → RowMap → RowMap
signer_rows [] m = m
signer_rows (tgt ∷ ts) m = signer_rows ts (add_signer tgt m)

abbrev pub row_of : TrustTagKey × List Text → TrustTagRow
row_of (k, signers) = record { key = k; signers = signers }

abbrev pub rows_of : RowMap → List TrustTagRow
rows_of [] = []
rows_of (r ∷ m) = row_of r ∷ rows_of m

-- A row without signers was signed by the base targets role.
unfoldable pub with_admin : List TrustTagRow → List TrustTagRow
with_admin [] = []
with_admin (r ∷ rows) =
    (elim r.signers [ [] ↦ record r { signers = released_role_name ∷ [] } | s ∷ ss ↦ r ])
    ∷ with_admin rows

-- What the source uses of the notary client's repository.
pub record Repository : Type 0 where
  pub get_all_target_metadata_by_name : Text → Result (List Target)
  pub list_roles : Result (Unit {0})
  pub gun : Text

-- `arrange` stands for the order in which Go ranges over the map and for the sort by
-- `sortorder.NaturalLess` of the tags, which leaves rows of one tag in any order.
module _ (arrange : List TrustTagRow → List TrustTagRow) where
  unfoldable pub match_released_signatures : List Target → List TrustTagRow
  match_released_signatures all_targets =
      arrange (rows_of (signer_rows all_targets (released_rows all_targets [])))

  unfoldable pub get_signed_metadata : Text → Repository → Text → Result TrustRepo
  get_signed_metadata notary_server_url repo tag = do
    all_signed_targets ← repo.get_all_target_metadata_by_name tag
    elim repo.list_roles [
      | err e ↦ err (codes "no signers for " ++ notary_server_url)
      | ok _ ↦ ok (record {
        name = repo.gun;
        signed_tags = with_admin (match_released_signatures all_signed_targets);
      })
    ]
