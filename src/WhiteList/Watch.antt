-- ===== src/WhiteList/Watch.antt =====
-- pkg/admissions/pods/whitelist.go over pkg/watcher/watcher.go: `newWhiteList`, whose watcher keeps the
-- whitelist up to date with its config map.
pub mod Tests
use image_validating_webhook.Base.{
  ℕ, ◌<◌, ◌≡◌, refl, true, sym, ap, subst, ◌∙◌, Option, none, some, List, [], ◌∷◌, ◌++◌, All, arith,
  Text, codes, ◌==◌, text_eq_refl, text_eq_iff, lookup, if◌then◌else◌, Result, ok, err, Outcome,
  done, panics,
}
use image_validating_webhook.Cache.{NamespacedName, Object, Entry, object, Indexer, key_str}
use image_validating_webhook.Watcher.{
  WorkQueue, Watcher, waiting, new_watcher, set_handler, watch, Steps,
}
use image_validating_webhook.Watcher.Queueing.{IsWorkQueue}
use image_validating_webhook.Watcher.Invariant.{replay, at_phase, Steps-Inv, new_watcher-Inv}
use image_validating_webhook.Watcher.Drain.{watch_catches_up, IsServed}
use image_validating_webhook.WhiteList.{WhiteList}
use image_validating_webhook.WhiteList.ConfigMap.{Cluster, Session, handle}
use image_validating_webhook.WhiteList.Migration.{new_form, parse_or_update-new_form}
use image_validating_webhook.WhiteList.RoundTrip.{IsPrintable}

abbrev pub Data : Type 0
Data = List (Text × Text)

-- The object as a `*corev1.ConfigMap`.
unfoldable pub config_map : Object Data → Option Data
config_map o = if o.type == codes "*v1.ConfigMap" then some o.value else none

unfoldable pub handler : Cluster → Object Data → Session → Session × Option Text
unfolding config_map
handler cluster o s = handle cluster (config_map o) s

abbrev pub registry_namespace : Text
registry_namespace = codes "registry-system"

abbrev pub whitelist_config_map : Text
whitelist_config_map = codes "image-validation-webhook-whitelist"

-- The key of the one object that the watcher's namespace and field selector select.
unfoldable pub config_map_key : Text
unfolding key_str
config_map_key = key_str (record { namespace = registry_namespace; name = whitelist_config_map })

abbrev pub Selected : Text → Type 0
Selected key = key ≡ config_map_key

abbrev pub empty_session : Session
empty_session = record { white_list = record { by_images = []; by_namespaces = [] }; patches = [] }

-- `newWhiteList` up to the start of its watcher, given the answer of k8s.NewGroupVersionClient and the indexer
-- that the informer of a client fills.
unfoldable pub new_white_list :
    {Q C : Type 0}
    → WorkQueue Q
    → Cluster
    → (C → Indexer Data)
    → Result C
    → Outcome (Watcher Q Data Session)
unfolding new_watcher set_handler
new_white_list queue cluster indexer_of (err e) = panics
new_white_list queue cluster indexer_of (ok client) =
    done (set_handler (handler cluster) (new_watcher queue (indexer_of client) empty_session))

-- The whitelist after a call with a config map in the new form.
handler-new_form :
    (cluster : Cluster) (o : Object Data) (w : WhiteList) (s : Session)
    → o.type ≡ codes "*v1.ConfigMap"
    → o.value ≡ new_form w
    → IsPrintable w
    → (handler cluster o s).0.white_list ≡ w
unfolding handler config_map handle
handler-new_form cluster o w s type value p =
    rw (type, text_eq_refl (codes "*v1.ConfigMap"), value)
      (ap (λ r. r.0.white_list) (parse_or_update-new_form cluster w s p))

-- The last call is with an object that is found.
last_call :
    (key : Text) (handed : List (Text × Object Data)) (o : Object Data)
    → All (λ c. c.0 ≡ key) handed
    → lookup key handed ≡ some o
    → (earlier : List (Text × Object Data)) × (handed ≡ (key, o) ∷ earlier)
unfolding lookup
last_call key [] o only found = absurd (ground arith)
last_call key ((k, p) ∷ handed) o (same, only) found = (handed, ground (arith, text_eq_iff k key))

replayed-new_form :
    (cluster : Cluster) (handed : List (Text × Object Data)) (o : Object Data) (w : WhiteList)
    → All (λ c. Selected c.0) handed
    → lookup config_map_key handed ≡ some o
    → o.type ≡ codes "*v1.ConfigMap"
    → o.value ≡ new_form w
    → IsPrintable w
    → (replay (handler cluster) empty_session handed).white_list ≡ w
replayed-new_form cluster handed o w only found type value p =
    let (earlier, e) = last_call config_map_key handed o only found in
    rw e
      (handler-new_form cluster o w (replay (handler cluster) empty_session earlier) type value p)

same_watcher : {W : Type 0} {v w : W} → ◌≡◌ {A = Outcome W} (done v) (done w) → w ≡ v
same_watcher e = cc

module _ {Q C : Type 0} (queue : WorkQueue Q) (laws : IsWorkQueue queue) (cluster : Cluster)
    (indexer_of : C → Indexer Data) (client : C)
    (key_func delete_key_func : Entry Data → Result Text) where
  -- From the watcher of newWhiteList, whose indexer is empty at first: after any steps of the informer and of the
  -- worker, `watch` on more fuel than items are pending comes to wait, and if the indexer has the config map in
  -- the new form of a printable whitelist by then, that is the whitelist.
  pub new_white_list-follows :
      (fuel : ℕ) (initial w : Watcher Q Data Session) (o : Object Data) (white_list : WhiteList)
      → new_white_list queue cluster indexer_of (ok client) ≡ done initial
      → ((j : Text) → (indexer_of client).get_by_key j ≡ none)
      → Steps queue key_func delete_key_func Selected initial w
      → w.phase ≡ waiting
      → laws.size w.queue < fuel
      → w.indexer.get_by_key config_map_key ≡ some (object o)
      → o.type ≡ codes "*v1.ConfigMap"
      → o.value ≡ new_form white_list
      → IsPrintable white_list
      → ((watch queue fuel w).1 ≡ true) × ((watch queue fuel w).0.state.white_list ≡ white_list)
  unfolding new_white_list
  new_white_list-follows fuel initial w o white_list made empty steps phase enough found type value
        p =
      let inv =
        new_watcher-Inv queue laws Selected (handler cluster) empty_session key_func delete_key_func
          (indexer_of client) empty
          (subst (λ v. Steps queue key_func delete_key_func Selected v w) (same_watcher made)
            steps) in
      let (still, caught) =
        watch_catches_up queue laws Selected (handler cluster) empty_session key_func
          delete_key_func fuel w inv phase enough in
      let after =
        Steps-Inv queue laws Selected (handler cluster) empty_session key_func delete_key_func inv
          caught.ran in
      let at_rest =
        at_phase queue laws Selected (handler cluster) empty_session (watch queue fuel w).0 waiting
          caught.stands after in
      (
        still,
        rw after.replayed (
            replayed-new_form cluster (watch queue fuel w).0.handed o white_list at_rest.called
              (caught.served config_map_key o
                (ap (λ i. i.get_by_key config_map_key) caught.kept ∙ found))
              type value p),
      )
