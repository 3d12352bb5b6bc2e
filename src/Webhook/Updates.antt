-- ===== src/Webhook/Updates.antt =====
-- newValidator over the watcher of the whitelist: pods are checked by the whitelist of the config map.
use image_validating_webhook.Base.{
  ℕ, ◌<◌, ◌≡◌, ◌∙◌, sym, ap, subst, inl, inr, true, none, some, arith, Text, codes, Result, Outcome,
  done,
}
use image_validating_webhook.Cluster.{RestConfig, GroupVersionClient}
use image_validating_webhook.Cache.{Object, Entry, object}
use image_validating_webhook.Watcher.{Watcher, waiting, watch, Steps}
use image_validating_webhook.Watcher.Queueing.{IsWorkQueue}
use image_validating_webhook.WhiteList.{WhiteList}
use image_validating_webhook.WhiteList.ConfigMap.{Session}
use image_validating_webhook.WhiteList.Migration.{new_form}
use image_validating_webhook.WhiteList.RoundTrip.{IsPrintable}
use image_validating_webhook.WhiteList.Watch.{
  Data, Selected, config_map_key, new_white_list-follows,
}
use image_validating_webhook.Validator.{Pod, Services, check_is_valid_and_add_digest}
use image_validating_webhook.Webhook.{ImageAdmission, Libraries, validator_now, new_validator}
use image_validating_webhook.Webhook.Start.{Made, new_validator-cases}

done_injective : {A : Type 0} {a b : A} → ◌≡◌ {A = Outcome A} (done a) (done b) → a ≡ b
done_injective e = cc

module _ {R C Q M Image Reference Block Key Verifier Sig : Type 0} (libraries : Libraries R C Q M)
    (services : Services Image Reference Block Key Verifier Sig)
    (laws : IsWorkQueue libraries.queue) (key_func delete_key_func : Entry Data → Result Text)
    (cfg : RestConfig R) where
  new_validator-Made :
      (a : ImageAdmission Q) → new_validator libraries cfg ≡ done a → Made libraries cfg a
  new_validator-Made a made = elim (new_validator-cases libraries cfg) [
    | inl (b, same, is) ↦ subst (Made libraries cfg) (done_injective (sym same ∙ made)) is
    | inr (panicked, _) ↦ absurd (ground arith)
  ]

  -- Of a handler that newValidator has made, where no indexer has an object at first, over a queue
  -- that keeps its promises: after any steps of the informer and of the worker, and when the worker
  -- waits for a key and is not at one, `watch` on more fuel than items are pending comes to wait; if the
  -- indexer has the config map in the new form of a printable whitelist by then, every pod is checked
  -- with that whitelist.
  pub check-follows :
      (fuel : ℕ) (a : ImageAdmission Q) (w : Watcher Q Data Session) (o : Object Data)
      (white_list : WhiteList) (pod : Pod)
      → new_validator libraries cfg ≡ done a
      → ((c : GroupVersionClient C) (j : Text)
          → (libraries.config_map_indexer c).get_by_key j ≡ none)
      → Steps libraries.queue key_func delete_key_func Selected a.watcher w
      → w.phase ≡ waiting
      → laws.size w.queue < fuel
      → w.indexer.get_by_key config_map_key ≡ some (object o)
      → o.type ≡ codes "*v1.ConfigMap"
      → o.value ≡ new_form white_list
      → IsPrintable white_list
      → let (v, still) = watch libraries.queue fuel w in
        (still ≡ true)
        × (check_is_valid_and_add_digest services (validator_now (record a { watcher = v })) pod
            ≡ check_is_valid_and_add_digest services
                (record {
                  registry_policy_cache = a.registry_policy_cache;
                  white_list = white_list;
                })
                pod)
  check-follows fuel a w o white_list pod made empty steps phase enough found type value p =
      let is = new_validator-Made a made in
      let (still, follows) =
        new_white_list-follows libraries.queue laws libraries.cluster libraries.config_map_indexer
          is.core_client key_func delete_key_func fuel a.watcher w o white_list is.watched
          (empty is.core_client) steps phase enough found type value p in
      (
        still,
        ap
            (λ l.
              check_is_valid_and_add_digest services
                (record { registry_policy_cache = a.registry_policy_cache; white_list = l }) pod)
            follows,
      )
