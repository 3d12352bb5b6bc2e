-- ===== src/ImageRef/RoundTrip.antt =====
-- `imageRef.String` and `parseImage`: the printed form of a reference is read back as it was.
use image_validating_webhook.Base.{
  ◌≡◌, refl, true, false, none, some, [], ◌∷◌, ◌++◌, ◌∙◌, ap, ap₂, sym, Text-cases, Text, inl, inr,
  ◌⊎◌, is_empty, trim_space, ok, all, append_assoc,
}
use image_validating_webhook.Regex.{in_class}
use image_validating_webhook.ImageRef.{ImageRef, not_colon_at, not_at, parse_image, to_string}
use image_validating_webhook.ImageRef.Delimiters.{colon_ends_name, at_ends_name, at_ends_tag}
use image_validating_webhook.ImageRef.Scan.{scan, scan_host, scan_name, scan_behind, trimmed}
use image_validating_webhook.ImageRef.Equivalence.{parse_image-scan}
use image_validating_webhook.ImageRef.Printed.{
  IsRun, IsHost, IsDigest, take_while-append, drop_while-append, begins-append, scan_host-print,
  scan_tag-print, scan_digest-print, tail-begins, digest-begins, digest-begins_no_colon, tag_text,
  digest_text,
}

-- A reference that `parseImage` can return for a text without spaces at the ends of its parts. Where
-- there is no host, the printed form must not begin like one, as `a.b/c` does.
pub record IsCanonical (r : ImageRef) : Type 0 where
  pub host_form : ((r.host ≡ []) × (scan_host (to_string r) ≡ none)) ⊎ IsHost r.host
  pub name_form : IsRun not_colon_at r.name
  pub tag_form : all (in_class not_at) r.tag ≡ true
  pub digest_form : (r.digest ≡ []) ⊎ IsDigest r.digest
  pub host_trimmed : trim_space r.host ≡ r.host
  pub name_trimmed : trim_space r.name ≡ r.name
  pub tag_trimmed : trim_space r.tag ≡ r.tag
  pub digest_trimmed : trim_space r.digest ≡ r.digest

scan_name-print :
    (r : ImageRef)
    → IsCanonical r
    → scan_name r.host (r.name ++ (tag_text r.tag ++ digest_text r.digest)) ≡ some r
unfolding scan_name
scan_name-print r i =
    let behind = tag_text r.tag ++ digest_text r.digest in
    let ends = tail-begins not_colon_at r.tag r.digest colon_ends_name at_ends_name in
    rw (
      begins-append (in_class not_colon_at) r.name behind i.name_form.nonempty i.name_form.in_it,
      drop_while-append (in_class not_colon_at) r.name behind i.name_form.in_it ends,
      take_while-append (in_class not_colon_at) r.name behind i.name_form.in_it ends,
      scan_tag-print r.tag (digest_text r.digest) i.tag_form
          (digest-begins not_at r.digest at_ends_tag) (digest-begins_no_colon r.digest),
      scan_digest-print r.digest i.digest_form,
    )

abbrev behind_host : ImageRef → Text
behind_host r = r.name ++ (tag_text r.tag ++ digest_text r.digest)

to_string-no_host : (r : ImageRef) → r.host ≡ [] → to_string r ≡ behind_host r
unfolding to_string
to_string-no_host r e = rw e

IsHost-nonempty : (h : Text) → IsHost h → is_empty h ≡ false
IsHost-nonempty [] i = elim (Text-cases i.label) [
  | inl e ↦ let f : [] ≡ b'.' ∷ i.domain = i.splits ∙ ap (λ l. l ++ b'.' ∷ i.domain) e in cc
  | inr (x, l, e) ↦
      let f : [] ≡ x ∷ (l ++ b'.' ∷ i.domain) = i.splits ∙ ap (λ l. l ++ b'.' ∷ i.domain) e in cc
]
IsHost-nonempty (x ∷ h) i = refl

to_string-host : (r : ImageRef) → IsHost r.host → to_string r ≡ r.host ++ b'/' ∷ behind_host r
unfolding to_string
to_string-host r i = rw (IsHost-nonempty r.host i, append_assoc)

scan-to_string : (r : ImageRef) → IsCanonical r → scan (to_string r) ≡ some r
unfolding scan
scan-to_string r i = elim i.host_form [
  | inl (e, none_found) ↦
      ap (scan_behind (to_string r)) none_found
      ∙ ap₂ scan_name (sym e) (to_string-no_host r e)
      ∙ scan_name-print r i
  | inr host ↦ rw (
    to_string-host r host,
    scan_host-print r.host (behind_host r) host,
    scan_behind,
    scan_name-print r i,
  )
]

trimmed-IsCanonical : (r : ImageRef) → IsCanonical r → trimmed r ≡ ok r
unfolding trimmed
trimmed-IsCanonical r i =
    rw (i.host_trimmed, i.name_trimmed, i.tag_trimmed, i.digest_trimmed, i.name_form.nonempty)

-- A canonical reference is what its printed form is parsed to.
pub parse_image-to_string : (r : ImageRef) → IsCanonical r → parse_image (to_string r) ≡ ok r
parse_image-to_string r i =
    parse_image-scan (to_string r) ∙ rw (scan-to_string r i) (trimmed-IsCanonical r i)
