-- ===== src/Secret.antt =====
-- internal/utils/secret.go: basic auth for a registry's host from an image pull secret.
pub mod Credentials
pub mod Tests
use image_validating_webhook.Base.{
  Bool, Option, none, some, List, [], ◌∷◌, ◌++◌, if◌then◌else◌, Text, codes, ◌==◌, lookup, Result,
  ok, err, Outcome, done, panics, outcome_of,
}

-- `corev1.Secret`, as far as the source reads it.
pub record Secret : Type 0 where
  pub name : Text
  pub type : Text
  pub contents : List (Text × Text)

abbrev pub DockerLoginCredential : Type 0
DockerLoginCredential = List (Text × Text)

-- `DockerConfigJSON`
abbrev pub Auths : Type 0
Auths = List (Text × DockerLoginCredential)

pub record ImagePullSecret : Type 0 where
  pub secret : Secret
  pub json : Auths

-- What the source uses of encoding/json, net/url and encoding/base64.
pub record Codec : Type 0 where
  -- json.Unmarshal into a `DockerConfigJSON`: its `auths`
  pub docker_config : Text → Result Auths
  -- the host of url.Parse; the source ignores its error and reads the field of a nil URL, a panic, if
  -- there is none
  pub url_host : Text → Option Text
  -- base64.StdEncoding.EncodeToString
  pub base64 : Text → Text

abbrev pub secret_type_docker_config_json : Text
secret_type_docker_config_json = codes "kubernetes.io/dockerconfigjson"

abbrev pub docker_config_json_key : Text
docker_config_json_key = codes ".dockerconfigjson"

abbrev pub docker_config_auth_key : Text
docker_config_auth_key = codes "auth"

abbrev pub docker_config_user_key : Text
docker_config_user_key = codes "user"

abbrev pub docker_config_password_key : Text
docker_config_password_key = codes "password"

abbrev pub unsupported_type : Text
unsupported_type = codes "unsupported secret type"

abbrev pub no_docker_config : Text
no_docker_config = codes "failed to get dockerconfig from ImagePullSecret"

abbrev pub bad_docker_config : Text → Text
bad_docker_config name =
    codes "failed to unmarshal ImagePullSecret(" ++ (name ++ codes ")'s dockerconfig")

abbrev pub no_credential : Text → Text
no_credential host =
    codes "there is neither basic auth nor id/pw in docker config json for host " ++ host

-- The part of `GetHostBasicAuth` behind the two lookups.
unfoldable pub basic_auth_of : (Text → Text) → Text → DockerLoginCredential → Result Text
basic_auth_of base64 host login_auth = elim (lookup docker_config_auth_key login_auth) [
  | some basic_auth ↦ ok basic_auth
  | none ↦ elim (lookup docker_config_user_key login_auth) [
    | none ↦ err (no_credential host)
    | some username ↦ elim (lookup docker_config_password_key login_auth) [
      | none ↦ err (no_credential host)
      | some password ↦ ok (base64 (username ++ b':' ∷ password))
    ]
  ]
]

module _ (codec : Codec) where
  unfoldable pub new_image_pull_secret : Secret → Result ImagePullSecret
  new_image_pull_secret secret =
      if secret.type == secret_type_docker_config_json
      then elim (lookup docker_config_json_key secret.contents) [
        | none ↦ err no_docker_config
        | some image_pull_secret_data ↦ elim (codec.docker_config image_pull_secret_data) [
          | err e ↦ err (bad_docker_config secret.name)
          | ok auths ↦ ok (record { secret = secret; json = auths })
        ]
      ]
      else err unsupported_type

  unfoldable pub get_host_basic_auth : ImagePullSecret → Text → Outcome Text
  get_host_basic_auth s host = elim (lookup host s.json) [
    | some login_auth ↦ outcome_of (basic_auth_of codec.base64 host login_auth)
    | none ↦ elim (codec.url_host host) [
      | none ↦ panics
      | some u ↦ elim (lookup u s.json) [
        | none ↦ done []
        | some login_auth ↦ outcome_of (basic_auth_of codec.base64 host login_auth)
      ]
    ]
  ]
