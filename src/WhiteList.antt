-- ===== src/WhiteList.antt =====
-- pkg/admissions/pods/whitelist.go: the whitelist of images and namespaces and its text form.
-- The mutex makes each operation one step, so it has no place in the model. An `error` is an
-- `Option`, `none` for nil.
pub mod ConfigMap
pub mod Matching
pub mod Lines
pub mod RoundTrip
pub mod Watch
pub mod Legacy
pub mod Migration
pub mod Tests
use image_validating_webhook.Base.{
  ℕ, Bool, false, ◌&&◌, ◌||◌, Option, none, some, List, [], ◌∷◌, ◌++◌, map, if◌then◌else◌, Text,
  codes, ◌==◌, is_empty, trim_space, split, join, lookup, Result, ok, err,
}
use image_validating_webhook.ImageRef.{ImageRef, to_string, parse_image, parse_images}

pub record WhiteList : Type 0 where
  pub by_images : List ImageRef
  pub by_namespaces : List Text

-- The loop of `IsNamespaceWhiteListed`.
listed : Text → List Text → Bool
listed ns [] = false
listed ns (w ∷ ws) = ns == w || listed ns ws

unfoldable pub is_namespace_white_listed : WhiteList → Text → Bool
unfolding listed
is_namespace_white_listed w ns = listed ns w.by_namespaces

-- `match` in `IsImageWhiteListed`: an entry `i` against a parsed image.
unfoldable pub entry_match : ImageRef → ImageRef → Bool
entry_match i img =
    (is_empty i.host || i.host == img.host)
    && (i.name == codes "*" || i.name == img.name)
    && (is_empty i.tag || i.tag == img.tag)
    && (is_empty i.digest || i.digest == img.digest)

-- The loop of `IsImageWhiteListed`.
any_match : List ImageRef → ImageRef → Bool
any_match [] img = false
any_match (i ∷ is) img = entry_match i img || any_match is img

-- An image that cannot be parsed is not whitelisted.
unfoldable pub is_image_white_listed : WhiteList → Text → Bool
unfolding any_match
is_image_white_listed w image_uri = elim (parse_image image_uri) [
  | err e ↦ false
  | ok img ↦ any_match w.by_images img
]

-- The constant `delimiter`.
abbrev pub delimiter : ℕ
delimiter = 10

-- Goes on only if the step before it returned no error.
abbrev pub if_no_error : {S : Type 0} → S × Option Text → (S → S × Option Text) → S × Option Text
if_no_error (s, none) next = next s
if_no_error (s, some e) next = (s, some e)

-- The loop of `parseLineSeparatedList`.
keep_lines : List Text → List Text
keep_lines [] = []
keep_lines (line ∷ tokens) =
    let rest = keep_lines tokens in
    if is_empty (trim_space line) then rest else trim_space line ∷ rest

unfoldable pub parse_line_separated_list : Text → List Text
unfolding keep_lines
parse_line_separated_list list = keep_lines (split list delimiter)

-- `w.byImages, err = parseImages(…)`: on an error the assignment leaves no image in the list.
pub assign_images : WhiteList → Result (List ImageRef) → WhiteList × Option Text
assign_images w (ok refs) = (record w { by_images = refs }, none)
assign_images w (err e) = (record w { by_images = [] }, some e)

unfoldable pub unmarshal_image : WhiteList → Text → WhiteList × Option Text
unfolding assign_images
unmarshal_image w img = assign_images w (parse_images (parse_line_separated_list img))

unfoldable pub unmarshal_namespace : WhiteList → Text → WhiteList
unmarshal_namespace w ns = record w { by_namespaces = parse_line_separated_list ns }

unfoldable pub unmarshal : WhiteList → Text → Text → WhiteList × Option Text
unmarshal w img ns = if_no_error (unmarshal_image w img) λ w'. (unmarshal_namespace w' ns, none)

unfoldable pub marshal : WhiteList → Text × Text
marshal w = (join (map to_string w.by_images) delimiter, join w.by_namespaces delimiter)
