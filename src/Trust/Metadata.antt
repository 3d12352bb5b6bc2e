-- ===== src/Trust/Metadata.antt =====
-- pkg/trust/trust.go: the rows that `GetSignedMetadata` returns.
use image_validating_webhook.Base.{
  ◌≡◌, refl, subst, sym, ◌∙◌, ◌↔◌, inl, inr, true, none, some, List, [], ◌∷◌, ◌++◌, arith, Text,
  Some, Option-cases, Bool-cases, ok, Result-cases,
}
use image_validating_webhook.Trust.{
  Target, TrustTagKey, TrustTagRow, TrustRepo, Repository, RowMap, key_of, key_eq, row_at, set_row,
  row_of, rows_of, with_admin, released_rows, add_signer, signer_rows, released_role_name,
  is_released_target, notary_role_to_signer, match_released_signatures, get_signed_metadata,
}
use image_validating_webhook.Trust.Rows.{
  key_eq_iff, row_at-set_row, is_released_key, signers_for, row_at-match,
}

-- No key stands twice in the map.
abbrev Unique : RowMap → Type 0
Unique [] = Unit
Unique ((k, s) ∷ m) = (row_at k m ≡ none) × Unique m

set_row-Unique : (k : TrustTagKey) (s : List Text) (m : RowMap) → Unique m → Unique (set_row k s m)
unfolding set_row row_at
set_row-Unique k s [] u = (refl, tt)
set_row-Unique k s ((j, old) ∷ m) (fresh, u) =
    ground (arith, set_row-Unique k s m u, row_at-set_row k j s m, key_eq_iff k j, key_eq_iff j k)

released_rows-Unique : (ts : List Target) (m : RowMap) → Unique m → Unique (released_rows ts m)
unfolding released_rows
released_rows-Unique [] m u = u
released_rows-Unique (t ∷ ts) m u = elim (Bool-cases (is_released_target t.role)) [
  | inl released ↦
      rw released
        (released_rows-Unique ts (set_row (key_of t) [] m) (set_row-Unique (key_of t) [] m u))
  | inr other ↦ rw other (released_rows-Unique ts m u)
]

add_signer-Unique : (t : Target) (m : RowMap) → Unique m → Unique (add_signer t m)
unfolding add_signer
add_signer-Unique t m u = elim (Option-cases (row_at (key_of t) m)) [
  | inl missing ↦ rw (missing, add_signer) u
  | inr (signers, found) ↦ elim (Bool-cases (is_released_target t.role)) [
    | inl released ↦ rw (found, add_signer, released) u
    | inr other ↦
        rw (found, add_signer, other)
          (set_row-Unique (key_of t) (signers ++ notary_role_to_signer t.role ∷ []) m u)
  ]
]

signer_rows-Unique : (ts : List Target) (m : RowMap) → Unique m → Unique (signer_rows ts m)
unfolding signer_rows
signer_rows-Unique [] m u = u
signer_rows-Unique (t ∷ ts) m u = signer_rows-Unique ts (add_signer t m) (add_signer-Unique t m u)

module _ (P : TrustTagRow → Type 0) where
  -- A row of the map of which `P` holds.
  abbrev At : RowMap → Type 0
  At m = (k : TrustTagKey) × (s : List Text) × (row_at k m ≡ some s) × P (row_of (k, s))

  rows_of→At : (m : RowMap) → Unique m → Some P (rows_of m) → At m
  unfolding row_at
  rows_of→At [] u h = absurd h
  rows_of→At ((k, s) ∷ m) (fresh, u) (inl p) = (k, s, rw ((key_eq_iff k k).1 refl), p)
  rows_of→At ((k, s) ∷ m) (fresh, u) (inr h) =
      let (j, r, e, p) = rows_of→At m u h in (j, r, ground (arith, key_eq_iff k j), p)

  At→rows_of :
      (m : RowMap) (k : TrustTagKey) (s : List Text)
      → row_at k m ≡ some s
      → P (row_of (k, s))
      → Some P (rows_of m)
  unfolding row_at
  At→rows_of [] k s e p = absurd (ground arith)
  At→rows_of ((j, r) ∷ m) k s e p = elim (Bool-cases (key_eq j k)) [
    | inl same ↦ let e' : r ≡ s = ground arith in inl (rw ((key_eq_iff j k).0 same, e') p)
    | inr other ↦ inr (At→rows_of m k s (rw other at e) p)
  ]

-- The signers that a row shows: the base roles count as the repository's administrator.
pub shown_signers : TrustTagKey → List Target → List Text
shown_signers k ts = elim (signers_for k ts) [ [] ↦ released_role_name ∷ [] | s ∷ ss ↦ s ∷ ss ]

abbrev shown : TrustTagRow → TrustTagRow
shown r = elim r.signers [ [] ↦ record r { signers = released_role_name ∷ [] } | s ∷ ss ↦ r ]

with_admin-Some :
    (P : TrustTagRow → Type 0) (rows : List TrustTagRow)
    → Some P (with_admin rows) ↔ Some (λ r. P (shown r)) rows
unfolding with_admin
with_admin-Some P [] = (λ h. h, λ h. h)
with_admin-Some P (r ∷ rows) =
    let (to, from) = with_admin-Some P rows in
    (elim [ inl p ↦ inl p | inr h ↦ inr (to h) ], elim [ inl p ↦ inl p | inr h ↦ inr (from h) ])

shown-row_of :
    (k : TrustTagKey) (ts : List Target)
    → shown (row_of (k, signers_for k ts)) ≡ record { key = k; signers = shown_signers k ts }
unfolding shown_signers
shown-row_of k ts = ground arith

-- `arrange` only puts the rows in another order.
abbrev pub KeepsRows : (List TrustTagRow → List TrustTagRow) → Type 1
KeepsRows arrange =
    (P : TrustTagRow → Type 0) (rows : List TrustTagRow) → Some P (arrange rows) ↔ Some P rows

-- A key that a released role signed, and whose row satisfies `P`.
pub record Released (P : TrustTagRow → Type 0) (ts : List Target) : Type 0 where
  pub key : TrustTagKey
  pub is_released : is_released_key key ts ≡ true
  pub holds : P (record { key = key; signers = shown_signers key ts })

-- The map after both passes.
map_of : List Target → RowMap
map_of ts = signer_rows ts (released_rows ts [])

map_of-Unique : (ts : List Target) → Unique (map_of ts)
unfolding map_of
map_of-Unique ts = signer_rows-Unique ts (released_rows ts []) (released_rows-Unique ts [] tt)

map_of-released :
    (ts : List Target) (k : TrustTagKey) (s : List Text)
    → row_at k (map_of ts) ≡ some s
    → (is_released_key k ts ≡ true) × (signers_for k ts ≡ s)
unfolding map_of
map_of-released ts k s e = ground (arith, row_at-match k ts)

row_of_key :
    (P : TrustTagRow → Type 0) (ts : List Target)
    → Some (λ r. P (shown r)) (rows_of (map_of ts)) ↔ Released P ts
unfolding map_of
row_of_key P ts = (
  λ h.
      let (k, s, e, p) = rows_of→At (λ r. P (shown r)) (map_of ts) (map_of-Unique ts) h in
      let (released, same) = map_of-released ts k s e in
      record {
        key = k;
        is_released = released;
        holds = subst P (shown-row_of k ts) (subst (λ s. P (shown (row_of (k, s)))) (sym same) p);
      },
  λ d.
      At→rows_of (λ r. P (shown r)) (map_of ts) d.key (signers_for d.key ts)
        (row_at-match d.key ts ∙ rw d.is_released) (subst P (sym (shown-row_of d.key ts)) d.holds),
)

shown_rows :
    (P : TrustTagRow → Type 0) (arrange : List TrustTagRow → List TrustTagRow)
    → KeepsRows arrange
    → (ts : List Target)
    → Some P (with_admin (match_released_signatures arrange ts)) ↔ Released P ts
unfolding match_released_signatures map_of
shown_rows P arrange keeps ts =
    let rows = rows_of (map_of ts) in
    let (to, from) = with_admin-Some P (arrange rows) in
    let (back, forth) = keeps (λ r. P (shown r)) rows in
    let (down, up) = row_of_key P ts in (λ h. down (back (to h)), λ d. from (forth (up d)))

module _ (arrange : List TrustTagRow → List TrustTagRow) (keeps : KeepsRows arrange) where
  -- Where there is a result, the targets and the roles were both fetched, the result has the
  -- repository's name, and its rows are those of the tags and digests that a released role signed, each
  -- with the delegation roles that signed it too, or with the administrator if there are none.
  pub get_signed_metadata-rows :
      (P : TrustTagRow → Type 0) (url tag : Text) (repo : Repository) (r : TrustRepo)
      → get_signed_metadata arrange url repo tag ≡ ok r
      → (ts : List Target) × (repo.get_all_target_metadata_by_name tag ≡ ok ts)
        × (Some P r.signed_tags ↔ Released P ts)
        × (repo.list_roles ≡ ok tt)
        × (r.name ≡ repo.gun)
  unfolding get_signed_metadata
  get_signed_metadata-rows P url tag repo r h =
      elim (Result-cases (repo.get_all_target_metadata_by_name tag)) [
        | inr (e, failed) ↦ absurd (ground arith)
        | inl (ts, fetched) ↦ elim (Result-cases repo.list_roles) [
          | inr (e, failed) ↦ absurd (ground arith)
          | inl (u, listed) ↦
              let same : with_admin (match_released_signatures arrange ts) ≡ r.signed_tags =
                ground arith in
              let named : repo.gun ≡ r.name = ground arith in
              (ts, fetched, rw (← same) (shown_rows P arrange keeps ts), listed, sym named)
        ]
      ]
