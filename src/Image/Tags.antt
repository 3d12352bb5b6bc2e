-- ===== src/Image/Tags.antt =====
-- pkg/image/image.go: the tag and the digest that an image gets, and when `setImage` fails.
use image_validating_webhook.Base.{
  ◌≡◌, ◌≢◌, ◌↔◌, ◌∙◌, sym, ap, ap₂, inl, inr, Option, none, some, Option-cases, [], arith, Text,
  codes, path_join, Result, ok, err, Result-cases,
}
use image_validating_webhook.Image.{
  Image, References, get_tag_or_digest, refer, normalized_named, set_parts, on_default, set_image,
}
use image_validating_webhook.Image.Endpoint.{OnHub, Elsewhere, fresh, set_image-cases}
use image_validating_webhook.Image.Parts.{
  IsReferences, set_parts-tagged, set_parts-digested, set_parts-bare, set_parts-total,
}

abbrev pub parts_of : Image → Text × Text
parts_of s = (s.tag, s.digest)

-- The tag and the digest of an image on Docker Hub, from those that are given.
abbrev pub hub_parts : Option Text → Option Text → Text × Text
hub_parts (some tag) digest = (tag, [])
hub_parts none (some digest) = ([], digest)
hub_parts none none = (codes "latest", [])

ok_injective : {A : Type 0} {a b : A} → ◌≡◌ {A = Result A} (ok a) (ok b) → a ≡ b
ok_injective h = cc

err_injective : {A : Type 0} {e f : Text} → ◌≡◌ {A = Result A} (err e) (err f) → e ≡ f
err_injective h = cc

module _ {Named : Type 0} (reference : References Named) (laws : IsReferences reference) where
  never_fails : (r : Image) (img : Named) (e : Text) → set_parts reference r img ≢ err e
  never_fails r img e failed =
      let (s, succeeded) = set_parts-total reference laws r img in absurd (ground arith)

  on_default-fails :
      (r : Image) (parsed : Result Named) (e : Text)
      → on_default reference r parsed ≡ err e
      → parsed ≡ err e
  on_default-fails r (ok img) e failed = absurd (never_fails _ img e failed)
  on_default-fails r (err f) e failed = ap err (err_injective failed)

  apart :
      {P : Type 0} (image : Text) (img : Named)
      → OnHub reference image
      → Elsewhere reference image img
      → P
  apart image img hub other = elim (hub img other.parsed) [
    | inl known ↦ absurd (ground (arith, other.unknown))
    | inr inside ↦ absurd (ground (arith, other.outside))
  ]

  -- With a parser that keeps the promises of its documentation, `setImage` fails exactly for an
  -- image of Docker Hub that is not normalized, with that error: an image of another server is never
  -- refused, and there is always a tag or a digest.
  pub set_image-fails_iff :
      (old : Image) (image e : Text)
      → (set_image reference old image ≡ err e)
        ↔ (OnHub reference image × (normalized_named reference image ≡ err e))
  set_image-fails_iff old image e = elim (set_image-cases reference old image) [
    | inl (hub, same) ↦ (
      λ failed. (
        hub,
        on_default-fails (fresh reference old) (normalized_named reference image) e
            (sym same ∙ failed),
      ),
      λ (_, failed). same ∙ ap (on_default reference (fresh reference old)) failed,
    )
    | inr (img, other, same) ↦ (
      λ failed. absurd (never_fails _ img e (sym same ∙ failed)),
      λ (hub, failed). apart image img hub other,
    )
  ]

  -- Two descriptions of what `set_parts` returns.
  parts :
      (r s : Image) (m : Named) (t d : Text)
      → set_parts reference r m ≡ ok s
      → (v : Image) × (set_parts reference r m ≡ ok v) × (v.tag ≡ t) × (v.digest ≡ d)
      → parts_of s ≡ (t, d)
  parts r s m t d is (v, returned, tag, digest) =
      let same : s ≡ v = ok_injective (sym is ∙ returned) in
      ap parts_of same ∙ ap₂ (λ x y. (x, y)) tag digest

  refer-tagged :
      (n b m : Named) (t : Text)
      → reference.as_tagged n ≡ some t
      → refer reference b (get_tag_or_digest reference n) ≡ ok m
      → reference.with_tag b t ≡ ok m
  unfolding refer get_tag_or_digest
  refer-tagged n b m t tagged made =
      rw (get_tag_or_digest, tagged, refer, laws.tag_nonempty n t tagged) at made

  refer-digested :
      (n b m : Named) (d : Text)
      → reference.as_tagged n ≡ none
      → reference.as_digested n ≡ some d
      → refer reference b (get_tag_or_digest reference n) ≡ ok m
      → reference.with_digest b d ≡ ok m
  unfolding refer get_tag_or_digest
  refer-digested n b m d untagged digested made =
      rw (get_tag_or_digest, untagged, digested, refer, laws.digest_nonempty n d digested) at made

  refer-bare :
      (n b m : Named)
      → reference.as_tagged n ≡ none
      → reference.as_digested n ≡ none
      → refer reference b (get_tag_or_digest reference n) ≡ ok m
      → b ≡ m
  unfolding refer get_tag_or_digest
  refer-bare n b m untagged plain made =
      ok_injective (rw (get_tag_or_digest, untagged, plain, refer) at made)

  refer-parts :
      (n b m : Named) (s r : Image)
      → reference.as_tagged b ≡ none
      → reference.as_digested b ≡ none
      → refer reference b (get_tag_or_digest reference n) ≡ ok m
      → set_parts reference r m ≡ ok s
      → parts_of s ≡ hub_parts (reference.as_tagged n) (reference.as_digested n)
  refer-parts n b m s r untagged plain made is = elim (Option-cases (reference.as_tagged n)) [
    | inr (t, tagged) ↦
        let (there, kept) = laws.tag_added b m t (refer-tagged n b m t tagged made) in
        rw tagged (parts r s m t [] is (set_parts-tagged reference laws r m t there (kept ∙ plain)))
    | inl no_tag ↦ elim (Option-cases (reference.as_digested n)) [
      | inr (d, digested) ↦
          let (there, kept) =
            laws.digest_added b m d (refer-digested n b m d no_tag digested made) in
          rw (no_tag, digested)
            (parts r s m [] d is (set_parts-digested reference laws r m d (kept ∙ untagged) there))
      | inl no_digest ↦
          let same = refer-bare n b m no_tag no_digest made in
          rw (no_tag, no_digest)
            (parts r s m (codes "latest") [] is (
              set_parts-bare reference laws r m (ap reference.as_tagged (sym same) ∙ untagged)
                (ap reference.as_digested (sym same) ∙ plain)))
    ]
  ]

  normalized_parts :
      (image : Text) (n m : Named) (s r : Image)
      → reference.parse_normalized_named image ≡ ok n
      → normalized_named reference image ≡ ok m
      → set_parts reference r m ≡ ok s
      → parts_of s ≡ hub_parts (reference.as_tagged n) (reference.as_digested n)
  unfolding normalized_named
  normalized_parts image n m s r parsed made is =
      elim (Result-cases (reference.parse_normalized_named (reference.path n))) [
        | inr (e, failed) ↦ absurd (ground (arith))
        | inl (norm, path_parsed) ↦
            elim (Result-cases (
              reference.parse_normalized_named
                (path_join (reference.domain n) (reference.path norm)))) [
                  | inr (e, failed) ↦ absurd (ground arith)
                  | inl (b, joined) ↦
                      let (untagged, plain) = laws.bare n norm b joined in
                      refer-parts n b m s r untagged plain
                        (rw (normalized_named, parsed, path_parsed, joined) at made) is
                ]
      ]

  -- The tag and the digest of an image that is taken from Docker Hub and accepted, with a parser
  -- that keeps the promises of its documentation: a tag that is given counts, and then a digest that
  -- is given beside it is dropped; a digest alone counts; and otherwise the tag is "latest".
  pub set_image-parts :
      (old s : Image) (image : Text) (n : Named)
      → OnHub reference image
      → reference.parse_normalized_named image ≡ ok n
      → set_image reference old image ≡ ok s
      → parts_of s ≡ hub_parts (reference.as_tagged n) (reference.as_digested n)
  set_image-parts old s image n hub parsed accepted = elim (set_image-cases reference old image) [
    | inr (img, other, _) ↦ apart image img hub other
    | inl (_, same) ↦ elim (Result-cases (normalized_named reference image)) [
      | inr (e, failed) ↦ absurd (ground arith)
      | inl (m, made) ↦
          normalized_parts image n m s _ parsed made
            (ap (on_default reference (fresh reference old)) (sym made) ∙ (sym same ∙ accepted))
    ]
  ]
