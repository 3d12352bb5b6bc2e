-- ===== src/WhiteList/Matching.antt =====
-- pkg/admissions/pods/whitelist.go: which images and namespaces the whitelist covers.
use mathlib.Core.Bool.{false≢true}
use image_validating_webhook.Base.{
  ◌≡◌, ◌↔◌, ◌⊎◌, inl, inr, true, List, [], ◌∷◌, arith, Some, Text, codes, text_eq_iff, is_empty_iff,
  ok, Result-cases,
}
use image_validating_webhook.ImageRef.{ImageRef, parse_image}
use image_validating_webhook.WhiteList.{
  WhiteList, entry_match, any_match, listed, is_image_white_listed, is_namespace_white_listed,
}

-- A part that an entry leaves out stands for any part.
abbrev pub Admits : Text → Text → Text → Type 0
Admits any entry part = (entry ≡ any) ⊎ (entry ≡ part)

-- What an entry of the whitelist covers.
pub record Covers (i img : ImageRef) : Type 0 where
  pub host : Admits [] i.host img.host
  pub name : Admits (codes "*") i.name img.name
  pub tag : Admits [] i.tag img.tag
  pub digest : Admits [] i.digest img.digest

entry_match_iff : (i img : ImageRef) → (entry_match i img ≡ true) ↔ Covers i img
unfolding entry_match
entry_match_iff i img = ground (
  arith,
  is_empty_iff i.host,
  is_empty_iff i.tag,
  is_empty_iff i.digest,
  text_eq_iff i.host img.host,
  text_eq_iff i.name (codes "*"),
  text_eq_iff i.name img.name,
  text_eq_iff i.tag img.tag,
  text_eq_iff i.digest img.digest,
)

any_match_iff :
    (is : List ImageRef) (img : ImageRef) → (any_match is img ≡ true) ↔ Some (λ i. Covers i img) is
unfolding any_match
any_match_iff [] img = (λ h. cc, λ h. absurd h)
any_match_iff (i ∷ is) img = ground (arith, entry_match_iff i img, any_match_iff is img)

-- An image is whitelisted exactly if its text can be parsed and an entry covers what it says: each
-- of host, tag and digest is left out of the entry or the same, and the name is `*` or the same.
pub is_image_white_listed_iff :
    (w : WhiteList) (uri : Text)
    → (is_image_white_listed w uri ≡ true)
      ↔ ((img : ImageRef) × (parse_image uri ≡ ok img) × Some (λ i. Covers i img) w.by_images)
unfolding is_image_white_listed
is_image_white_listed_iff w uri = (
  λ h. elim (Result-cases (parse_image uri)) [
    | inl (img, e) ↦
        (img, e, (any_match_iff w.by_images img).0 (rw (e, is_image_white_listed) at h))
    | inr (e, failed) ↦ absurd (false≢true (rw (failed, is_image_white_listed) at h))
  ],
  λ t. rw (t.1, is_image_white_listed) ((any_match_iff w.by_images t.0).1 t.2),
)

listed_iff : (ns : Text) (ws : List Text) → (listed ns ws ≡ true) ↔ Some (λ w. ns ≡ w) ws
unfolding listed
listed_iff ns [] = (λ h. cc, λ h. absurd h)
listed_iff ns (w ∷ ws) = ground (arith, text_eq_iff ns w, listed_iff ns ws)

-- A namespace is whitelisted exactly if it stands in the list.
pub is_namespace_white_listed_iff :
    (w : WhiteList) (ns : Text)
    → (is_namespace_white_listed w ns ≡ true) ↔ Some (λ w. ns ≡ w) w.by_namespaces
unfolding is_namespace_white_listed
is_namespace_white_listed_iff w ns = listed_iff ns w.by_namespaces
