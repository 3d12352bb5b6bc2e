-- ===== src/WhiteList/Migration.antt =====
-- pkg/admissions/pods/whitelist.go: `ParseOrUpdateWhiteList`, on the new form and the legacy form of
-- the config map.
use image_validating_webhook.Base.{
  ◌≡◌, refl, sym, subst, ap, ◌∙◌, Option, none, some, List, [], ◌∷◌, Text, lookup, ok, err, ◌==◌,
}
use image_validating_webhook.ImageRef.{parse_images}
use image_validating_webhook.WhiteList.{
  WhiteList, if_no_error, parse_line_separated_list, unmarshal_image, unmarshal_namespace, marshal,
}
use image_validating_webhook.WhiteList.ConfigMap.{
  Cluster, Session, on_white_list, whitelist_by_image, whitelist_by_namespace, read_images,
  read_namespaces, parse_or_update_white_list,
}
use image_validating_webhook.WhiteList.Legacy.{
  if_no_error-inv, Sent, ImagesFrom, NamespacesFrom, read_images-legacy, read_namespaces-legacy,
}
use image_validating_webhook.WhiteList.RoundTrip.{
  IsPrintable, unmarshal_image-marshal, unmarshal_namespace-marshal,
}

-- The data of a config map in the new form.
abbrev pub new_form : WhiteList → List (Text × Text)
new_form w = (whitelist_by_image, (marshal w).0) ∷ (whitelist_by_namespace, (marshal w).1) ∷ []

marshal-images : (w v : WhiteList) → w.by_images ≡ v.by_images → (marshal w).0 ≡ (marshal v).0
unfolding marshal
marshal-images w v e = rw e

module _ (cluster : Cluster) where
  read_images-new :
      (cm : List (Text × Text)) (list : Text) (s : Session)
      → lookup whitelist_by_image cm ≡ some list
      → read_images cluster cm s ≡ on_white_list (λ w. unmarshal_image w list) s
  unfolding read_images
  read_images-new cm list s found = rw (found, read_images)

  read_namespaces-new :
      (cm : List (Text × Text)) (list : Text) (s : Session)
      → lookup whitelist_by_namespace cm ≡ some list
      → read_namespaces cluster cm s
        ≡ (record s { white_list = unmarshal_namespace s.white_list list }, none)
  unfolding read_namespaces
  read_namespaces-new cm list s found = rw (found, read_namespaces)

  -- A config map in the new form that holds a printed whitelist sets that whitelist, whatever stood
  -- there before, and sends no patch.
  pub parse_or_update-new_form :
      (w : WhiteList) (s : Session)
      → IsPrintable w
      → parse_or_update_white_list cluster (new_form w) s ≡ (record s { white_list = w }, none)
  unfolding parse_or_update_white_list read_images read_namespaces lookup ◌==◌
  parse_or_update-new_form w s p = rw (
    unmarshal_image-marshal w s.white_list p,
    unmarshal_namespace-marshal w (record s.white_list { by_images = w.by_images }) p,
  )

  -- A new image list with a line that is no image: the error is returned, the images of the
  -- whitelist are gone, and the namespaces and the API server are left alone.
  pub parse_or_update-malformed :
      (cm : List (Text × Text)) (list e : Text) (s : Session)
      → lookup whitelist_by_image cm ≡ some list
      → parse_images (parse_line_separated_list list) ≡ err e
      → parse_or_update_white_list cluster cm s ≡ (
        record s {
          white_list = record { by_images = []; by_namespaces = s.white_list.by_namespaces };
        },
        some e,
      )
  unfolding parse_or_update_white_list unmarshal_image
  parse_or_update-malformed cm list e s found bad = rw (read_images-new cm list s found, bad)

  after_images :
      (cm : List (Text × Text)) (namespaces : Text) (m : Session × Option Text)
      → lookup whitelist_by_namespace cm ≡ some namespaces
      → (if_no_error m (read_namespaces cluster cm)).0.patches ≡ m.0.patches
  after_images cm namespaces (s, none) also = rw (read_namespaces-new cm namespaces s also)
  after_images cm namespaces (s, some e) also = refl

  -- A config map with both new keys: no patch is sent, whether it can be read or not.
  pub parse_or_update-no_patch :
      (cm : List (Text × Text)) (images namespaces : Text) (s : Session)
      → lookup whitelist_by_image cm ≡ some images
      → lookup whitelist_by_namespace cm ≡ some namespaces
      → (parse_or_update_white_list cluster cm s).0.patches ≡ s.patches
  unfolding parse_or_update_white_list
  parse_or_update-no_patch cm images namespaces s found also =
      rw (read_images-new cm images s found)
        (after_images cm namespaces (on_white_list (λ w. unmarshal_image w images) s) also)

  -- What a migration leaves: the whitelist has the lists of the legacy keys, and the API server took two
  -- patches, which set the new keys to its printed form.
  pub record Migrated (cm : List (Text × Text)) (s t : Session) : Type 0 where
    pub images : ImagesFrom cluster cm t.white_list
    pub namespaces : NamespacesFrom cluster cm s.white_list t.white_list
    pub between : Session
    pub images_sent : Sent cluster whitelist_by_image (marshal t.white_list).0 s between
    pub namespaces_sent : Sent cluster whitelist_by_namespace (marshal t.white_list).1 between t

  -- The legacy form is migrated: where both new keys are missing and the handler succeeds, the images
  -- are those parsed from the list under the legacy key for images, the namespaces those read from the
  -- one for namespaces, and the API server took two patches, which set the new keys to the printed
  -- form of that whitelist.
  pub parse_or_update-migrates :
      (cm : List (Text × Text)) (s t : Session)
      → lookup whitelist_by_image cm ≡ none
      → lookup whitelist_by_namespace cm ≡ none
      → parse_or_update_white_list cluster cm s ≡ (t, none)
      → Migrated cm s t
  unfolding parse_or_update_white_list
  parse_or_update-migrates cm s t no_images no_namespaces e =
      let (u, first, second) =
        if_no_error-inv (read_images cluster cm s) (read_namespaces cluster cm) e in
      let (one, images, namespaces_kept) = read_images-legacy cluster cm s u no_images first in
      let (two, namespaces, kept) = read_namespaces-legacy cluster cm u t no_namespaces second in
      record {
        images = record {
          legacy = images.legacy;
          images = images.images;
          found = images.found;
          unmarshalled = images.unmarshalled;
          parsed = images.parsed ∙ ap ok (sym kept);
        };
        namespaces = record {
          legacy = namespaces.legacy;
          found = namespaces.found;
          unmarshalled =
              ap (λ ns. cluster.unmarshal_strings namespaces.legacy ns) (sym namespaces_kept)
              ∙ namespaces.unmarshalled;
        };
        between = u;
        images_sent = record {
          body = one.body;
          marshalled =
              subst (λ x. cluster.marshal_data whitelist_by_image x ≡ ok one.body)
                (marshal-images u.white_list t.white_list (sym kept)) one.marshalled;
          taken = one.taken;
          patched = one.patched;
        };
        namespaces_sent = two;
      }
