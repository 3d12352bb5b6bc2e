-- ===== src/Image/Parts.antt =====
-- pkg/image/image.go: the end of `setImage` for a reference with a tag, a digest or neither.
use image_validating_webhook.Base.{
  ◌≡◌, refl, inl, inr, false, none, some, Option-cases, [], Text, codes, is_empty, path_join, ok,
}
use image_validating_webhook.Image.{Image, References, set_parts}

-- What the documentation of docker/distribution says of references: tags and digests are not empty; the
-- two interfaces of digests agree; a reference with neither gets the tag "latest"; a tag or a digest is added to what is
-- there; and a domain with a path has neither.
pub record IsReferences {Named : Type 0} (reference : References Named) : Type 0 where
  pub tag_nonempty : (n : Named) (t : Text) → reference.as_tagged n ≡ some t → is_empty t ≡ false
  pub digest_nonempty :
      (n : Named) (d : Text) → reference.as_digested n ≡ some d → is_empty d ≡ false
  pub same_digest : (n : Named) → reference.as_canonical n ≡ reference.as_digested n
  pub only_tagged :
      (n : Named) (t : Text) → reference.as_tagged n ≡ some t → reference.tag_name_only n ≡ n
  pub only_digested :
      (n : Named) (d : Text) → reference.as_digested n ≡ some d → reference.tag_name_only n ≡ n
  pub only_named :
      (n : Named)
      → reference.as_tagged n ≡ none
      → reference.as_digested n ≡ none
      → reference.as_tagged (reference.tag_name_only n) ≡ some (codes "latest")
  pub tag_added :
      (n m : Named) (t : Text)
      → reference.with_tag n t ≡ ok m
      → (reference.as_tagged m ≡ some t) × (reference.as_digested m ≡ reference.as_digested n)
  pub digest_added :
      (n m : Named) (d : Text)
      → reference.with_digest n d ≡ ok m
      → (reference.as_digested m ≡ some d) × (reference.as_tagged m ≡ reference.as_tagged n)
  pub bare :
      (n norm m : Named)
      → reference.parse_normalized_named (path_join (reference.domain n) (reference.path norm))
        ≡ ok m
      → (reference.as_tagged m ≡ none) × (reference.as_digested m ≡ none)

module _ {Named : Type 0} (reference : References Named) (laws : IsReferences reference) where
  -- The parts of an image whose reference has these.
  pub set_parts-tagged :
      (r : Image) (img : Named) (t : Text)
      → reference.as_tagged img ≡ some t
      → reference.as_digested img ≡ none
      → (s : Image) × (set_parts reference r img ≡ ok s) × (s.tag ≡ t) × (s.digest ≡ [])
  unfolding set_parts
  set_parts-tagged r img t tagged plain =
      rw (laws.same_digest img, plain, laws.only_tagged img t tagged, tagged, set_parts)
        (_, refl, refl, refl)

  pub set_parts-digested :
      (r : Image) (img : Named) (d : Text)
      → reference.as_tagged img ≡ none
      → reference.as_digested img ≡ some d
      → (s : Image) × (set_parts reference r img ≡ ok s) × (s.tag ≡ []) × (s.digest ≡ d)
  unfolding set_parts
  set_parts-digested r img d untagged digested =
      rw (laws.only_digested img d digested, laws.same_digest img, digested, untagged, set_parts)
        (_, refl, refl, refl)

  pub set_parts-bare :
      (r : Image) (img : Named)
      → reference.as_tagged img ≡ none
      → reference.as_digested img ≡ none
      → (s : Image) × (set_parts reference r img ≡ ok s)
        × (s.tag ≡ codes "latest")
        × (s.digest ≡ [])
  unfolding set_parts
  set_parts-bare r img untagged plain =
      rw (laws.same_digest img, plain, laws.only_named img untagged plain, set_parts)
        (_, refl, refl, refl)

  -- Every reference has a tag or a digest in the end.
  pub set_parts-total : (r : Image) (img : Named) → (s : Image) × (set_parts reference r img ≡ ok s)
  unfolding set_parts
  set_parts-total r img = elim (Option-cases (reference.as_digested img)) [
    | inr (d, digested) ↦ rw (laws.same_digest img, digested, set_parts) (_, refl)
    | inl plain ↦ elim (Option-cases (reference.as_tagged img)) [
      | inr (t, tagged) ↦ let (s, e, _, _) = set_parts-tagged r img t tagged plain in (s, e)
      | inl untagged ↦ let (s, e, _, _) = set_parts-bare r img untagged plain in (s, e)
    ]
  ]
