-- ===== src/Webhook/Start.antt =====
-- src/cmd/main.go: what the program serves once it has started.
use image_validating_webhook.Base.{
  ◌≡◌, ◌⊎◌, refl, inl, inr, some, [], ◌∷◌, Text, codes, ok, err, Result-cases, done, panics,
}
use image_validating_webhook.Cluster.{RestConfig, GroupVersionClient}
use image_validating_webhook.Policy.Store.{new_registry_policy_cache, policy_cache}
use image_validating_webhook.WhiteList.Watch.{handler, new_white_list, empty_session}
use image_validating_webhook.Watcher.{new_watcher, set_handler}
use image_validating_webhook.Server.{Server, new_server}
use image_validating_webhook.Webhook.{
  ImageAdmission, Libraries, type_group_version, core_group_version, client_of, new_validator,
}

module _ {R C Q M : Type 0} (libraries : Libraries R C Q M) (cfg : RestConfig R) where
  -- A handler that was made: both clients were, and its policies and its whitelist are those of the
  -- watchers that were set up with them. The steps that these watchers have taken when the program serves are
  -- not part of it.
  pub record Made (a : ImageAdmission Q) : Type 0 where
    pub type_client : GroupVersionClient C
    pub core_client : GroupVersionClient C
    pub types : client_of libraries cfg type_group_version ≡ ok type_client
    pub core : client_of libraries cfg core_group_version ≡ ok core_client
    pub policies :
        a.registry_policy_cache
        ≡ policy_cache libraries.set_list
            (libraries.policy_indexer type_client (codes "clusterregistrysecuritypolicies"))
            (libraries.policy_indexer type_client (codes "registrysecuritypolicies"))
    pub indexer : a.watcher.indexer ≡ libraries.config_map_indexer core_client
    pub watched :
        new_white_list libraries.queue libraries.cluster libraries.config_map_indexer
          (ok core_client)
        ≡ done a.watcher

  abbrev made : GroupVersionClient C → GroupVersionClient C → ImageAdmission Q
  made one two = record {
    registry_policy_cache =
        policy_cache libraries.set_list
          (libraries.policy_indexer one (codes "clusterregistrysecuritypolicies"))
          (libraries.policy_indexer one (codes "registrysecuritypolicies"));
    watcher =
        set_handler (handler libraries.cluster)
          (new_watcher libraries.queue (libraries.config_map_indexer two) empty_session);
  }

  -- A client of one of the two API groups could not be made.
  abbrev pub Unmade : Type 0
  Unmade =
      (e : Text) × ((client_of libraries cfg type_group_version ≡ err e)
        ⊎ (client_of libraries cfg core_group_version ≡ err e))

  pub new_validator-cases :
      ((a : ImageAdmission Q) × (new_validator libraries cfg ≡ done a) × Made a)
      ⊎ ((new_validator libraries cfg ≡ panics) × Unmade)
  unfolding new_validator new_registry_policy_cache new_white_list set_handler new_watcher
  new_validator-cases = elim (Result-cases (client_of libraries cfg type_group_version)) [
    | inr (e, failed) ↦
        inr (rw (failed, new_validator, new_registry_policy_cache) refl, (e, inl failed))
    | inl (one, types) ↦ elim (Result-cases (client_of libraries cfg core_group_version)) [
      | inr (e, failed) ↦ inr (
        rw (types, failed, new_validator, new_registry_policy_cache, new_white_list) refl,
        (e, inr failed),
      )
      | inl (two, core) ↦ inl (
        made one two,
        rw (types, core, new_validator, new_registry_policy_cache, new_white_list) refl,
        record {
          type_client = one;
          core_client = two;
          types = types;
          core = core;
          policies = refl;
          indexer = refl;
          watched = refl;
        },
      )
    ]
  ]

  -- The server of `main` when it begins to serve.
  abbrev pub serving : ImageAdmission Q → Server M (RestConfig R)
  serving a =
      let m =
        libraries.router.route libraries.router.new_router (codes "POST" ∷ []) (codes "/validate")
          a in
      record {
        addr = codes "0.0.0.0:8443";
        handler = some m;
        cert_file = codes "/etc/webhook/certs/tls.crt";
        key_file = codes "/etc/webhook/certs/tls.key";
        mux = m;
        cfg = cfg;
      }

  abbrev fresh : Server M (RestConfig R)
  fresh =
      new_server libraries.router (codes "/etc/webhook/certs/tls.crt")
        (codes "/etc/webhook/certs/tls.key") (codes "0.0.0.0:8443") cfg
