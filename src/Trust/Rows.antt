-- ===== src/Trust/Rows.antt =====
-- pkg/trust/trust.go: which rows `matchReleasedSignatures` makes, and with which signers.
use image_validating_webhook.Base.{
  ◌≡◌, refl, sym, ap, ◌∙◌, ◌↔◌, inl, inr, Bool, true, false, not, ◌&&◌, ◌||◌, Option, none, some,
  List, [], ◌∷◌, ◌++◌, arith, if◌then◌else◌, Text, text_eq_iff, Option-cases, append-nil,
  append_assoc,
}
use image_validating_webhook.Trust.{
  Target, TrustTagKey, RowMap, key_of, key_eq, row_at, set_row, released_rows, add_signer,
  signer_rows, is_released_target, notary_role_to_signer,
}

pub key_eq_iff : (a b : TrustTagKey) → (key_eq a b ≡ true) ↔ (a ≡ b)
unfolding key_eq
key_eq_iff a b =
    ground (arith, text_eq_iff a.signed_tag b.signed_tag, text_eq_iff a.digest b.digest)

pub row_at-set_row :
    (k j : TrustTagKey) (signers : List Text) (m : RowMap)
    → row_at j (set_row k signers m) ≡ (if key_eq k j then some signers else row_at j m)
unfolding row_at set_row
row_at-set_row k j signers [] = refl
row_at-set_row k j signers ((i, old) ∷ m) =
    ground (arith, key_eq_iff k j, key_eq_iff i k, key_eq_iff i j, row_at-set_row k j signers m)

-- Some target of this key was signed by a released role.
pub is_released_key : TrustTagKey → List Target → Bool
is_released_key k [] = false
is_released_key k (t ∷ ts) =
    (is_released_target t.role && key_eq (key_of t) k) || is_released_key k ts

-- The names of the delegation roles that signed the targets of this key, in their order.
pub signers_for : TrustTagKey → List Target → List Text
signers_for k [] = []
signers_for k (t ∷ ts) =
    if not (is_released_target t.role) && key_eq (key_of t) k
    then notary_role_to_signer t.role ∷ signers_for k ts
    else signers_for k ts

row_at-released_rows :
    (k : TrustTagKey) (ts : List Target) (m : RowMap)
    → row_at k (released_rows ts m) ≡ (if is_released_key k ts then some [] else row_at k m)
unfolding released_rows is_released_key
row_at-released_rows k [] m = refl
row_at-released_rows k (t ∷ ts) m = ground (
  arith,
  row_at-released_rows k ts (set_row (key_of t) [] m),
  row_at-released_rows k ts m,
  row_at-set_row (key_of t) k [] m,
)

abbrev append_to : Option (List Text) → List Text → Option (List Text)
append_to none more = none
append_to (some signers) more = some (signers ++ more)

append_to-nil : (o : Option (List Text)) → append_to o [] ≡ o
append_to-nil none = refl
append_to-nil (some s) = ap some (append-nil s)

row_at-add_signer :
    (k : TrustTagKey) (t : Target) (m : RowMap)
    → row_at k (add_signer t m) ≡ append_to (row_at k m) (signers_for k (t ∷ []))
unfolding add_signer signers_for
row_at-add_signer k t m = elim (Option-cases (row_at (key_of t) m)) [
  | inl missing ↦ ground (arith, append_to-nil (row_at k m), key_eq_iff (key_of t) k)
  | inr (signers, found) ↦ ground (
    arith,
    append_to-nil (row_at k m),
    key_eq_iff (key_of t) k,
    row_at-set_row (key_of t) k (signers ++ notary_role_to_signer t.role ∷ []) m,
  )
]

append_to-append :
    (o : Option (List Text)) (xs ys : List Text)
    → append_to (append_to o xs) ys ≡ append_to o (xs ++ ys)
append_to-append none xs ys = refl
append_to-append (some s) xs ys = ap some (append_assoc s xs ys)

signers_for-cons :
    (k : TrustTagKey) (t : Target) (ts : List Target)
    → signers_for k (t ∷ ts) ≡ signers_for k (t ∷ []) ++ signers_for k ts
unfolding signers_for
signers_for-cons k t ts = ground arith

row_at-signer_rows :
    (k : TrustTagKey) (ts : List Target) (m : RowMap)
    → row_at k (signer_rows ts m) ≡ append_to (row_at k m) (signers_for k ts)
unfolding signer_rows signers_for
row_at-signer_rows k [] m = sym (append_to-nil (row_at k m))
row_at-signer_rows k (t ∷ ts) m =
    row_at-signer_rows k ts (add_signer t m)
    ∙ ap (λ o. append_to o (signers_for k ts)) (row_at-add_signer k t m)
    ∙ append_to-append (row_at k m) (signers_for k (t ∷ [])) (signers_for k ts)
    ∙ ap (append_to (row_at k m)) (sym (signers_for-cons k t ts))

-- The map that `matchReleasedSignatures` fills: a tag and digest has a row exactly if a released role
-- signed a target of it, and the row's signers are the delegation roles that signed such targets,
-- in the order of the targets.
pub row_at-match :
    (k : TrustTagKey) (ts : List Target)
    → row_at k (signer_rows ts (released_rows ts []))
      ≡ (if is_released_key k ts then some (signers_for k ts) else none)
unfolding row_at
row_at-match k ts =
    ground (arith, row_at-signer_rows k ts (released_rows ts []), row_at-released_rows k ts [])
