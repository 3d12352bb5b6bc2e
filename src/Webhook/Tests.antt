-- ===== src/Webhook/Tests.antt =====
-- A program whose REST clients are always made, and whose HTTP server ends without an error.
use image_validating_webhook.Base.{◌≡◌, none, true, List, [], ◌∷◌, ◌++◌, Text, codes, ok, done}
use image_validating_webhook.Base.{refl, true, arith, text_eq_refl}
use image_validating_webhook.Cluster.{RestConfig, new_group_version_client}
use image_validating_webhook.Cache.{key_str}
use image_validating_webhook.Watcher.{watch, on_add, set_handler, new_watcher}
use image_validating_webhook.WhiteList.Tests.{cluster, printable, printable-IsPrintable}
use image_validating_webhook.WhiteList.Watch.{config_map_key, new_white_list}
use image_validating_webhook.WhiteList.Watch.Tests.{stored_map, initial, informed, informed-Steps}
use image_validating_webhook.Policy.Store.{policy_cache, new_registry_policy_cache}
use image_validating_webhook.Validator.{check_is_valid_and_add_digest}
use image_validating_webhook.Validator.Tests.{services, pod}
use image_validating_webhook.Webhook.Updates.{check-follows}
use image_validating_webhook.Watcher.Tests.{fifo, fifo_laws, empty, key_function}
use image_validating_webhook.Webhook.{ImageAdmission, Libraries, validator_now, new_validator}

abbrev libraries : Libraries Text Text (List Text) (List Text)
libraries = record {
  rest_client_for = λ cfg. ok cfg.api_path;
  queue = fifo;
  cluster = cluster;
  policy_indexer = λ client resource. empty;
  config_map_indexer = λ client. empty;
  set_list = λ os. ok [];
  router = record { new_router = []; route = λ m methods path h. m ++ path ∷ [] };
  listen_and_serve_tls = λ s. none;
}

abbrev cfg : RestConfig Text
cfg = record { api_path = []; group_version = none; converts = true; fields = codes "host" }

abbrev admission : ImageAdmission (List Text)
admission = record {
  registry_policy_cache = policy_cache libraries.set_list empty empty;
  watcher = initial;
}

admission_made : new_validator libraries cfg ≡ done admission
unfolding new_validator new_registry_policy_cache new_white_list new_group_version_client
admission_made = refl

check-follows_example :
    let (v, still) = watch fifo 2 informed in
    (still ≡ true)
    × (check_is_valid_and_add_digest services (validator_now (record admission { watcher = v })) pod
        ≡ check_is_valid_and_add_digest services
            (record {
              registry_policy_cache = admission.registry_policy_cache;
              white_list = printable;
            })
            pod)
unfolding on_add key_str set_handler new_watcher
check-follows_example =
    check-follows libraries services fifo_laws key_function key_function cfg 2 admission informed
      stored_map printable pod admission_made (λ c j. refl) informed-Steps refl (omega arith)
      (rw (text_eq_refl config_map_key) refl) refl refl printable-IsPrintable
