-- ===== src/Token/Tests.antt =====
-- A notary server that wants a token, and a token server.
use image_validating_webhook.Base.{
  ℕ, nat_eq, ◌≡◌, ◌⊎◌, refl, true, false, none, some, [], ◌∷◌, codes, lookup, ◌==◌, ok,
}
use image_validating_webhook.Token.{
  Token, NotaryRepo, HttpClient, authorized, check_ping_response, store_token, set_token,
  challenged, after_ping, fetch_token, get_token,
}
use image_validating_webhook.Token.Source.{FetchedFrom, get_token_source}

abbrev repo : NotaryRepo
repo = record {
  notary_server_url = codes "https://notary.io";
  basic_auth = codes "dXNlcg";
  image_name = codes "reg.io/alpine";
  token = none;
}

-- A response is its status code: 401 to the ping, which names no query, and 200 to the token request.
abbrev pub client : HttpClient ℕ
client = record {
  ping_url = λ url. ok url;
  new_request = λ url. ok (record { url = url; authorization = none; query = [] });
  send = λ request. elim request.query [ [] ↦ ok 401 | q ∷ qs ↦ ok 200 ];
  status_code = λ response. response;
  challenges = λ response.
      ((codes "realm", codes "https://auth.io") ∷ (codes "service", codes "notary") ∷ []) ∷ [];
  success_status = λ status. nat_eq status 200;
  error_response = λ response. codes "no success";
  decode_token = λ response. ok (codes "abc");
}

abbrev pub bearer : Token
bearer = record { type = codes "Bearer"; value = codes "abc" }

got : get_token client repo ≡ (record repo { token = some bearer }, ok (some bearer))
unfolding get_token fetch_token after_ping challenged set_token store_token check_ping_response
    authorized lookup ◌==◌
got = refl

get_token_source_example :
    ((true ≡ false) × (some bearer ≡ none) × (record repo { token = some bearer } ≡ repo))
    ⊎ ((true ≡ true) × FetchedFrom client repo (some bearer))
get_token_source_example =
    get_token_source client repo (record repo { token = some bearer }) (some bearer) got
