-- ===== src/Secret/Credentials.antt =====
-- internal/utils/secret.go: where the credentials that `GetHostBasicAuth` returns come from.
use image_validating_webhook.Base.{
  ◌≡◌, ◌↔◌, ◌≢◌, inl, inr, none, some, [], ◌∷◌, ◌++◌, arith, Text, lookup, ok, done, panics,
  Option-cases, text_eq_iff,
}
use image_validating_webhook.Secret.{
  Secret, DockerLoginCredential, Auths, ImagePullSecret, Codec, basic_auth_of,
  new_image_pull_secret, get_host_basic_auth, docker_config_auth_key, docker_config_user_key,
  docker_config_password_key, secret_type_docker_config_json, docker_config_json_key,
}

-- The entry of the config for a host: under the host as it is given, or else under the host of its URL.
pub data EntryFor (codec : Codec) (auths : Auths) (host : Text) (login : DockerLoginCredential)
    : Type 0 where
  as_given : lookup host auths ≡ some login → EntryFor codec auths host login
  by_url :
      (u : Text)
      → lookup host auths ≡ none
      → codec.url_host host ≡ some u
      → lookup u auths ≡ some login
      → EntryFor codec auths host login

-- What an entry gives as basic auth: its `auth`, or else its user and password encoded.
pub data Gives (codec : Codec) (login : DockerLoginCredential) (auth : Text) : Type 0 where
  stored : lookup docker_config_auth_key login ≡ some auth → Gives codec login auth
  encoded :
      (user password : Text)
      → lookup docker_config_auth_key login ≡ none
      → lookup docker_config_user_key login ≡ some user
      → lookup docker_config_password_key login ≡ some password
      → auth ≡ codec.base64 (user ++ b':' ∷ password)
      → Gives codec login auth

module _ (codec : Codec) where
  basic_auth_of-Gives :
      (host : Text) (login : DockerLoginCredential) (auth : Text)
      → basic_auth_of codec.base64 host login ≡ ok auth
      → Gives codec login auth
  unfolding basic_auth_of
  basic_auth_of-Gives host login auth h =
      elim (Option-cases (lookup docker_config_auth_key login)) [
        | inr (a, found) ↦ stored (ground arith)
        | inl no_auth ↦ elim (Option-cases (lookup docker_config_user_key login)) [
          | inl no_user ↦ absurd (ground arith)
          | inr (u, user) ↦ elim (Option-cases (lookup docker_config_password_key login)) [
            | inl no_password ↦ absurd (ground arith)
            | inr (p, password) ↦ encoded u p no_auth user password (ground arith)
          ]
        ]
      ]

  -- Basic auth that is returned and not empty is what the entry for the host gives; so credentials of
  -- another host are never sent.
  pub get_host_basic_auth_sound :
      (s : ImagePullSecret) (host auth : Text)
      → get_host_basic_auth codec s host ≡ done auth
      → auth ≢ []
      → (login : DockerLoginCredential) × EntryFor codec s.json host login × Gives codec login auth
  unfolding get_host_basic_auth
  get_host_basic_auth_sound s host auth h ne = elim (Option-cases (lookup host s.json)) [
    | inr (login, found) ↦
        (login, as_given found, basic_auth_of-Gives host login auth (ground arith))
    | inl missing ↦ elim (Option-cases (codec.url_host host)) [
      | inl bad ↦ absurd (ground arith)
      | inr (u, parsed) ↦ elim (Option-cases (lookup u s.json)) [
        | inl nothing ↦ absurd (ground arith)
        | inr (login, found) ↦ (
          login,
          by_url u missing parsed found,
          basic_auth_of-Gives host login auth (ground arith),
        )
      ]
    ]
  ]

  -- A host that no entry names and that is no URL panics: the error of url.Parse is ignored.
  pub get_host_basic_auth-panics :
      (s : ImagePullSecret) (host : Text)
      → (get_host_basic_auth codec s host ≡ panics)
        ↔ ((lookup host s.json ≡ none) × (codec.url_host host ≡ none))
  unfolding get_host_basic_auth
  get_host_basic_auth-panics s host = ground arith

  -- A secret is taken exactly if it has the type of a docker config, and its config is there and is
  -- JSON; the entries are those of the config.
  pub new_image_pull_secret_iff :
      (secret : Secret) (p : ImagePullSecret)
      → (new_image_pull_secret codec secret ≡ ok p) ↔ (
          (secret.type ≡ secret_type_docker_config_json)
          × ((config : Text) × (lookup docker_config_json_key secret.contents ≡ some config)
              × (codec.docker_config config ≡ ok p.json))
          × (p.secret ≡ secret))
  unfolding new_image_pull_secret
  new_image_pull_secret_iff secret p =
      ground (arith, text_eq_iff secret.type secret_type_docker_config_json)
