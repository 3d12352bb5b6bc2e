-- ===== src/Webhook.antt =====
-- src/cmd/main.go, newValidator and NewPodsAdmissionHandler: how the parts are put together when the
-- program starts. The start of the watchers' goroutines is left out.
pub mod Start
pub mod Updates
pub mod Tests
use image_validating_webhook.Base.{
  Option, none, some, List, [], ◌∷◌, Text, codes, Result, ok, err, Outcome, done, fails, panics,
  ◌>=>◌,
}
use image_validating_webhook.Cluster.{
  GroupVersion, RestConfig, GroupVersionClient, new_group_version_client,
}
use image_validating_webhook.Cache.{Object, Indexer}
use image_validating_webhook.Watcher.{WorkQueue, Watcher}
use image_validating_webhook.WhiteList.ConfigMap.{Cluster, Session}
use image_validating_webhook.WhiteList.Watch.{Data, new_white_list}
use image_validating_webhook.Policy.{SecurityPolicy, RegistryPolicyCache}
use image_validating_webhook.Policy.Store.{new_registry_policy_cache}
use image_validating_webhook.Validator.{Validator}
use image_validating_webhook.Server.{
  HandlerContainer, Server, Mux, add_pods_handler, new_server, start,
}

-- `ImageAdmission` with its validator: the policies, and the watcher whose handler is the whitelist.
pub record ImageAdmission (Q : Type 0) : Type 0 where
  pub registry_policy_cache : RegistryPolicyCache
  pub watcher : Watcher Q Data Session

-- The validator as it checks a pod now: the whitelist is the one that the watcher's handler has set.
abbrev pub validator_now : {Q : Type 0} → ImageAdmission Q → Validator
validator_now a = record {
  registry_policy_cache = a.registry_policy_cache;
  white_list = a.watcher.state.white_list;
}

-- The libraries: the REST client of a configuration, the work queue, the config map's libraries, the indexers
-- that informers fill, meta.SetList for policies, the router, and ListenAndServeTLS.
pub record Libraries (R C Q M : Type 0) : Type 0 where
  pub rest_client_for : RestConfig R → Result C
  pub queue : WorkQueue Q
  pub cluster : Cluster
  pub policy_indexer : GroupVersionClient C → Text → Indexer SecurityPolicy
  pub config_map_indexer : GroupVersionClient C → Indexer Data
  pub set_list : List (Object SecurityPolicy) → Result (List SecurityPolicy)
  pub router : Mux M (ImageAdmission Q)
  pub listen_and_serve_tls : Server M (RestConfig R) → Option Text

-- `GroupVersion` of pkg/type, and the one of the core API.
abbrev pub type_group_version : GroupVersion
type_group_version = record { group = codes "tmax.io"; version = codes "v1" }

abbrev pub core_group_version : GroupVersion
core_group_version = record { group = []; version = codes "v1" }

module _ {R C Q M : Type 0} (libraries : Libraries R C Q M) where
  abbrev pub client_of : RestConfig R → GroupVersion → Result (GroupVersionClient C)
  client_of cfg gv = new_group_version_client libraries.rest_client_for cfg gv

  unfoldable pub new_validator : RestConfig R → Outcome (ImageAdmission Q)
  unfolding new_registry_policy_cache new_white_list new_group_version_client
  new_validator cfg =
      new_registry_policy_cache libraries.set_list libraries.policy_indexer
        (client_of cfg type_group_version)
      >=> λ cache.
          new_white_list libraries.queue libraries.cluster libraries.config_map_indexer
            (client_of cfg core_group_version)
          >=> λ watcher. done (record { registry_policy_cache = cache; watcher = watcher })

  unfoldable pub new_pods_admission_handler : RestConfig R → Outcome (ImageAdmission Q)
  unfolding new_validator
  new_pods_admission_handler cfg = new_validator cfg >=> λ v. done v

  -- The initiators that the packages' `init` functions have added.
  unfoldable pub handler_initiators : List (HandlerContainer (RestConfig R) (ImageAdmission Q))
  unfolding add_pods_handler new_pods_admission_handler
  handler_initiators = add_pods_handler new_pods_admission_handler []

  -- `main` behind the configuration: the server is made and started.
  unfoldable pub main : RestConfig R → Server M (RestConfig R) × Outcome (Unit {0})
  unfolding handler_initiators new_server start
  main cfg = start libraries.router libraries.listen_and_serve_tls handler_initiators (
      new_server libraries.router (codes "/etc/webhook/certs/tls.crt")
        (codes "/etc/webhook/certs/tls.key") (codes "0.0.0.0:8443") cfg)
