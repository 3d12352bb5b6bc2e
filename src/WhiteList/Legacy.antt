-- ===== src/WhiteList/Legacy.antt =====
-- pkg/admissions/pods/whitelist.go: what `ParseOrUpdateWhiteList` reads and sends where a new key of the
-- config map is missing.
use image_validating_webhook.Base.{
  ◌≡◌, refl, sym, subst, ap, ◌∙◌, inl, inr, Option, none, some, List, [], ◌∷◌, arith, Text, lookup,
  ok, Option-cases, Result-cases,
}
use image_validating_webhook.ImageRef.{parse_images}
use image_validating_webhook.WhiteList.{WhiteList, if_no_error, assign_images, marshal}
use image_validating_webhook.WhiteList.ConfigMap.{
  Cluster, Session, ◌>>◌, on_white_list, whitelist_by_image, whitelist_by_namespace,
  whitelist_by_image_legacy, whitelist_by_namespace_legacy, unmarshal_legacy_image,
  unmarshal_legacy_namespace, update_config_map, read_images, read_namespaces,
}

pub if_no_error-inv :
    {S : Type 0} (m : S × Option Text) (f : S → S × Option Text) {t : S}
    → if_no_error m f ≡ (t, none)
    → (s : S) × (m ≡ (s, none)) × (f s ≡ (t, none))
if_no_error-inv (s, none) f h = (s, refl, h)
if_no_error-inv (s, some e) f h = cc

module _ (cluster : Cluster) where
  update_config_map-inv :
      (key converted : Text) (s t : Session)
      → update_config_map cluster key converted s ≡ (t, none)
      → (b : Text) × (cluster.marshal_data key converted ≡ ok b)
        × (cluster.patch_config_map b ≡ none)
        × (t ≡ record s { patches = b ∷ s.patches })
  unfolding update_config_map
  update_config_map-inv key converted s t h =
      elim (Result-cases (cluster.marshal_data key converted)) [
        | inl (b, sent) ↦ (b, sent, ground arith, ground arith)
        | inr (e, failed) ↦ absurd (ground arith)
      ]

  -- What a legacy half has sent, if it succeeds: a body that the API server took.
  pub record Sent (key printed : Text) (s t : Session) : Type 0 where
    pub body : Text
    pub marshalled : cluster.marshal_data key printed ≡ ok body
    pub taken : cluster.patch_config_map body ≡ none
    pub patched : t.patches ≡ body ∷ s.patches

  legacy_half :
      (key : Text) (print : WhiteList → Text) (f : WhiteList → WhiteList × Option Text)
      (s t : Session)
      → (on_white_list f >> λ u. update_config_map cluster key (print u.white_list) u) s ≡ (t, none)
      → Sent key (print t.white_list) s t × (f s.white_list ≡ (t.white_list, none))
  legacy_half key print f s t h =
      let (u, first, second) =
        if_no_error-inv (on_white_list f s)
          (λ u. update_config_map cluster key (print u.white_list) u) h in
      let (b, sent, taken, last) = update_config_map-inv key (print u.white_list) u t second in
      (
        record {
          body = b;
          marshalled =
              subst (λ v. cluster.marshal_data key (print v.white_list) ≡ ok b) (sym last) sent;
          taken = taken;
          patched = ap (λ v. v.patches) last ∙ ap (λ v. b ∷ v.0.patches) (sym first);
        },
        ap (λ v. (v.0.white_list, v.1)) first ∙ ap (λ v. (v.white_list, none)) (sym last),
      )

  -- The images of a whitelist are read from the legacy list of a config map.
  pub record ImagesFrom (cm : List (Text × Text)) (w : WhiteList) : Type 0 where
    pub legacy : Text
    pub images : List Text
    pub found : lookup whitelist_by_image_legacy cm ≡ some legacy
    pub unmarshalled : cluster.unmarshal_strings legacy [] ≡ (images, none)
    pub parsed : parse_images images ≡ ok w.by_images

  -- The namespaces are; a JSON text is read over the namespaces that stood there before.
  pub record NamespacesFrom (cm : List (Text × Text)) (before w : WhiteList) : Type 0 where
    pub legacy : Text
    pub found : lookup whitelist_by_namespace_legacy cm ≡ some legacy
    pub unmarshalled :
        cluster.unmarshal_strings legacy before.by_namespaces ≡ (w.by_namespaces, none)

  legacy_images :
      (w v : WhiteList) (img : Text)
      → unmarshal_legacy_image cluster w img ≡ (v, none)
      → (images : List Text) × (cluster.unmarshal_strings img [] ≡ (images, none))
        × (parse_images images ≡ ok v.by_images)
        × (v.by_namespaces ≡ w.by_namespaces)
  unfolding unmarshal_legacy_image assign_images
  legacy_images w v img h = elim (Option-cases (cluster.unmarshal_strings img []).1) [
    | inr (e, bad) ↦ absurd (ground arith)
    | inl good ↦
        let images = (cluster.unmarshal_strings img []).0 in
        elim (Result-cases (parse_images images)) [
          | inr (e, bad) ↦ absurd (ground arith)
          | inl (refs, parsed) ↦
              let same : record w { by_images = refs } ≡ v = ground arith in
              (
                images,
                ap (λ e. (images, e)) good,
                parsed ∙ ap (λ x. ok x.by_images) same,
                ap (λ x. x.by_namespaces) (sym same),
              )
        ]
  ]

  pub read_images-legacy :
      (cm : List (Text × Text)) (s t : Session)
      → lookup whitelist_by_image cm ≡ none
      → read_images cluster cm s ≡ (t, none)
      → Sent whitelist_by_image (marshal t.white_list).0 s t
        × ImagesFrom cm t.white_list
        × (t.white_list.by_namespaces ≡ s.white_list.by_namespaces)
  unfolding read_images
  read_images-legacy cm s t missing h = elim (Option-cases (lookup whitelist_by_image_legacy cm)) [
    | inl gone ↦ absurd (ground arith)
    | inr (legacy, found) ↦
        let (sent, done) =
          legacy_half whitelist_by_image (λ w. (marshal w).0)
            (λ w. unmarshal_legacy_image cluster w legacy) s t
            (rw (missing, read_images, found) at h) in
        let (images, unmarshalled, parsed, kept) =
          legacy_images s.white_list t.white_list legacy done in
        (
          sent,
          record {
            legacy = legacy;
            images = images;
            found = found;
            unmarshalled = unmarshalled;
            parsed = parsed;
          },
          kept,
        )
  ]

  legacy_namespaces :
      (w v : WhiteList) (ns : Text)
      → unmarshal_legacy_namespace cluster w ns ≡ (v, none)
      → (cluster.unmarshal_strings ns w.by_namespaces ≡ (v.by_namespaces, none))
        × (v.by_images ≡ w.by_images)
  unfolding unmarshal_legacy_namespace
  legacy_namespaces w v ns h =
      (ap (λ x. (x.0.by_namespaces, x.1)) h, ap (λ x. x.0.by_images) (sym h))

  pub read_namespaces-legacy :
      (cm : List (Text × Text)) (s t : Session)
      → lookup whitelist_by_namespace cm ≡ none
      → read_namespaces cluster cm s ≡ (t, none)
      → Sent whitelist_by_namespace (marshal t.white_list).1 s t
        × NamespacesFrom cm s.white_list t.white_list
        × (t.white_list.by_images ≡ s.white_list.by_images)
  unfolding read_namespaces
  read_namespaces-legacy cm s t missing h =
      elim (Option-cases (lookup whitelist_by_namespace_legacy cm)) [
        | inl gone ↦ absurd (ground arith)
        | inr (legacy, found) ↦
            let (sent, done) =
              legacy_half whitelist_by_namespace (λ w. (marshal w).1)
                (λ w. unmarshal_legacy_namespace cluster w legacy) s t
                (rw (missing, read_namespaces, found) at h) in
            let (unmarshalled, kept) = legacy_namespaces s.white_list t.white_list legacy done in
            (sent, record { legacy = legacy; found = found; unmarshalled = unmarshalled }, kept)
      ]
