-- ===== src/Secret/Tests.antt =====
-- Image pull secrets, as in internal/utils/secret_test.go.
use image_validating_webhook.Base.{
  ◌≡◌, ◌≢◌, ◌↔◌, refl, none, some, [], ◌∷◌, arith, Text, codes, ◌==◌, is_empty, if◌then◌else◌,
  lookup, ok, done, panics,
}
use image_validating_webhook.Secret.{
  Secret, Auths, ImagePullSecret, Codec, secret_type_docker_config_json, docker_config_json_key,
  basic_auth_of, get_host_basic_auth,
}
use image_validating_webhook.Secret.Credentials.{get_host_basic_auth-panics}

abbrev pub server : Text
server = codes "https://reg.io"

abbrev pub auths : Auths
auths = (server, (codes "auth", codes "dXNlcg") ∷ []) ∷ []

-- Every config is `auths`, a text is its own host unless it is empty, and base64 keeps the text.
abbrev pub codec : Codec
codec = record {
  docker_config = λ config. ok auths;
  url_host = λ url. if is_empty url then none else some url;
  base64 = λ text. text;
}

abbrev pub secret : Secret
secret = record {
  name = codes "pull";
  type = secret_type_docker_config_json;
  contents = (docker_config_json_key, codes "{}") ∷ [];
}

abbrev pull_secret : ImagePullSecret
pull_secret = record { secret = secret; json = auths }

found : get_host_basic_auth codec pull_secret server ≡ done (codes "dXNlcg")
unfolding get_host_basic_auth basic_auth_of lookup ◌==◌
found = refl

not_empty : codes "dXNlcg" ≢ []
not_empty e = ground arith

get_host_basic_auth-panics_example :
    (get_host_basic_auth codec pull_secret [] ≡ panics)
    ↔ ((lookup [] auths ≡ none) × (codec.url_host [] ≡ none))
get_host_basic_auth-panics_example = get_host_basic_auth-panics codec pull_secret []
