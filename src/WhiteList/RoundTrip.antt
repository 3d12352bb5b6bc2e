-- ===== src/WhiteList/RoundTrip.antt =====
-- pkg/admissions/pods/whitelist.go: `Marshal` and `Unmarshal`.
use image_validating_webhook.Base.{◌≡◌, refl, none, List, [], ◌∷◌, map, All, ok}
use image_validating_webhook.ImageRef.{ImageRef, to_string, parse_images}
use image_validating_webhook.ImageRef.RoundTrip.{IsCanonical, parse_image-to_string}
use image_validating_webhook.WhiteList.{
  WhiteList, unmarshal_image, unmarshal_namespace, unmarshal, marshal,
}
use image_validating_webhook.WhiteList.Lines.{IsLine, parse_line_separated_list-join}

-- A whitelist that its text form can hold: each image is canonical and, printed, a line of its own,
-- and each namespace is a line.
pub record IsPrintable (w : WhiteList) : Type 0 where
  pub canonical : All IsCanonical w.by_images
  pub image_lines : All IsLine (map to_string w.by_images)
  pub namespace_lines : All IsLine w.by_namespaces

parse_images-map :
    (rs : List ImageRef) → All IsCanonical rs → parse_images (map to_string rs) ≡ ok rs
unfolding parse_images
parse_images-map [] h = refl
parse_images-map (r ∷ rs) (c, h) = rw (parse_image-to_string r c, parse_images-map rs h)

pub unmarshal_image-marshal :
    (w v : WhiteList)
    → IsPrintable w
    → unmarshal_image v (marshal w).0 ≡ (record v { by_images = w.by_images }, none)
unfolding unmarshal_image marshal
unmarshal_image-marshal w v p = rw (
  parse_line_separated_list-join (map to_string w.by_images) p.image_lines,
  parse_images-map w.by_images p.canonical,
)

pub unmarshal_namespace-marshal :
    (w v : WhiteList)
    → IsPrintable w
    → unmarshal_namespace v (marshal w).1 ≡ record v { by_namespaces = w.by_namespaces }
unfolding unmarshal_namespace marshal
unmarshal_namespace-marshal w v p =
    rw (parse_line_separated_list-join w.by_namespaces p.namespace_lines)

-- `Unmarshal` of what `Marshal` printed gives the whitelist back, whatever stood there before.
pub unmarshal-marshal :
    (w v : WhiteList) → IsPrintable w → unmarshal v (marshal w).0 (marshal w).1 ≡ (w, none)
unfolding unmarshal
unmarshal-marshal w v p = rw (
  unmarshal_image-marshal w v p,
  unmarshal_namespace-marshal w (record v { by_images = w.by_images }) p,
)
