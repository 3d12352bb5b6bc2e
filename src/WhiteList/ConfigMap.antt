-- ===== src/WhiteList/ConfigMap.antt =====
-- pkg/admissions/pods/whitelist.go: the handler of the whitelist's config map, which reads the
-- lists, or reads their legacy form and writes the new form back by a patch.
use image_validating_webhook.Base.{
  Option, none, some, List, [], ◌∷◌, ◌++◌, Text, codes, lookup, Result, ok, err,
}
use image_validating_webhook.ImageRef.{parse_images}
use image_validating_webhook.WhiteList.{
  WhiteList, if_no_error, assign_images, unmarshal_image, unmarshal_namespace, marshal,
}

-- What the handler uses of encoding/json and of the API server.
pub record Cluster : Type 0 where
  -- json.Unmarshal of a text into a []string variable: its old value ↦ its new value, and the error
  pub unmarshal_strings : Text → List Text → List Text × Option Text
  -- json.Marshal of a config map whose data has one key
  pub marshal_data : Text → Text → Result Text
  -- the answer to a patch of the whitelist's config map with this body
  pub patch_config_map : Text → Option Text

-- The whitelist, and the bodies of the patches that were sent, the latest first.
pub record Session : Type 0 where
  pub white_list : WhiteList
  pub patches : List Text

-- A sequence of statements of which each may return an error.
abbrev pub Action : Type 0
Action = Session → Session × Option Text

infixl 5 ◌>>◌
abbrev pub ◌>>◌ : Action → Action → Action
◌>>◌ a b s = if_no_error (a s) b

abbrev pub on_white_list : (WhiteList → WhiteList × Option Text) → Action
on_white_list f s = (record s { white_list = (f s.white_list).0 }, (f s.white_list).1)

abbrev pub whitelist_by_image : Text
whitelist_by_image = codes "whitelist-images"

abbrev pub whitelist_by_namespace : Text
whitelist_by_namespace = codes "whitelist-namespaces"

abbrev pub whitelist_by_image_legacy : Text
whitelist_by_image_legacy = codes "whitelist-image.json"

abbrev pub whitelist_by_namespace_legacy : Text
whitelist_by_namespace_legacy = codes "whitelist-namespace.json"

abbrev pub neither : Text → Text → Text
neither key legacy =
    codes "there are neither " ++ (key ++ (codes " nor " ++ (legacy ++ codes " in whitelist")))

abbrev pub fail : Text → Action
fail e s = (s, some e)

module _ (cluster : Cluster) where
  unfoldable pub unmarshal_legacy_image : WhiteList → Text → WhiteList × Option Text
  unmarshal_legacy_image w img =
      let (by_images, error) = cluster.unmarshal_strings img [] in
      elim error [ some e ↦ (w, some e) | none ↦ assign_images w (parse_images by_images) ]

  unfoldable pub unmarshal_legacy_namespace : WhiteList → Text → WhiteList × Option Text
  unmarshal_legacy_namespace w ns =
      let (by_namespaces, e) = cluster.unmarshal_strings ns w.by_namespaces in
      (record w { by_namespaces = by_namespaces }, e)

  unfoldable pub unmarshal_legacy : WhiteList → Text → Text → WhiteList × Option Text
  unfolding unmarshal_legacy_image unmarshal_legacy_namespace
  unmarshal_legacy w img ns =
      if_no_error (unmarshal_legacy_image w img) λ w'. unmarshal_legacy_namespace w' ns

  -- The update of the config map: marshals one key and sends the patch.
  unfoldable pub update_config_map : Text → Text → Action
  update_config_map key converted s = elim (cluster.marshal_data key converted) [
    | err e ↦ (s, some e)
    | ok b ↦ (record s { patches = b ∷ s.patches }, cluster.patch_config_map b)
  ]

  -- The first half of `ParseOrUpdateWhiteList`.
  unfoldable pub read_images : List (Text × Text) → Action
  read_images cm = elim (lookup whitelist_by_image cm) [
    | some image_white_list ↦ on_white_list (λ w. unmarshal_image w image_white_list)
    | none ↦ elim (lookup whitelist_by_image_legacy cm) [
      | none ↦ fail (neither whitelist_by_image whitelist_by_image_legacy)
      | some legacy ↦ do
        on_white_list (λ w. unmarshal_legacy_image w legacy)
        λ s. update_config_map whitelist_by_image (marshal s.white_list).0 s
    ]
  ]

  -- The second half.
  unfoldable pub read_namespaces : List (Text × Text) → Action
  read_namespaces cm = elim (lookup whitelist_by_namespace cm) [
    | some ns_white_list ↦ on_white_list (λ w. (unmarshal_namespace w ns_white_list, none))
    | none ↦ elim (lookup whitelist_by_namespace_legacy cm) [
      | none ↦ fail (neither whitelist_by_namespace whitelist_by_namespace_legacy)
      | some legacy ↦ do
        on_white_list (λ w. unmarshal_legacy_namespace w legacy)
        λ s. update_config_map whitelist_by_namespace (marshal s.white_list).1 s
    ]
  ]

  unfoldable pub parse_or_update_white_list : List (Text × Text) → Action
  parse_or_update_white_list cm = do read_images cm; read_namespaces cm

  -- An object that the watcher hands over: a config map, by its data, or something else.
  unfoldable pub handle : Option (List (Text × Text)) → Action
  handle none = fail (codes "object is not a ConfigMap")
  handle (some cm) = parse_or_update_white_list cm
