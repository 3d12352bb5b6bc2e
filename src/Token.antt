-- ===== src/Token.antt =====
-- pkg/trust/trust.go and pkg/auth/auth.go: the token with which the notary server is asked. A method
-- that sets the token returns the repository beside its error.
pub mod Source
pub mod Tests
use image_validating_webhook.Base.{
  ℕ, Bool, true, false, ◌&&◌, ◌||◌, Option, none, some, List, [], ◌∷◌, ◌++◌, ltb, leb,
  if◌then◌else◌, Text, codes, is_empty, lookup, Result, ok, err,
}

-- `auth.Token`
pub record Token : Type 0 where
  pub type : Text
  pub value : Text

-- `notaryRepo`, with what it reads of the image.
pub record NotaryRepo : Type 0 where
  pub notary_server_url : Text
  pub basic_auth : Text
  pub image_name : Text
  pub token : Option Token

-- A GET request, by what the source sets of it.
pub record Request : Type 0 where
  pub url : Text
  pub authorization : Option Text
  pub query : List (Text × Text)

-- What the source uses of net/url, net/http, the parser of challenges and regclient. A response's
-- challenges are the parameters of each.
pub record HttpClient (Response : Type 0) : Type 0 where
  -- the URL of the server with `v2` joined to its path
  pub ping_url : Text → Result Text
  pub new_request : Text → Result Request
  pub send : Request → Result Response
  pub status_code : Response → ℕ
  pub challenges : Response → List (List (Text × Text))
  pub success_status : ℕ → Bool
  pub error_response : Response → Text
  -- the token of the decoded body
  pub decode_token : Response → Result Text

abbrev pub basic : Text → Text
basic basic_auth = codes "Basic " ++ basic_auth

abbrev pub no_challenge : Text
no_challenge = codes "header does not contain WWW-Authenticate"

abbrev pub no_realm_or_service : Text
no_realm_or_service = codes "there is no realm or service in parameters"

-- The header is set if there is basic auth.
unfoldable pub authorized : NotaryRepo → Request → Request
authorized n req =
    if is_empty n.basic_auth then req else record req { authorization = some (basic n.basic_auth) }

unfoldable pub check_ping_response : NotaryRepo → ℕ → NotaryRepo × Bool
check_ping_response n ping_resp =
    if leb 200 ping_resp && ltb ping_resp 300
    then (
      record n {
        token =
            if is_empty n.basic_auth
            then none
            else some (record { type = codes "Basic"; value = n.basic_auth });
      },
      true,
    )
    else (n, false)

-- The query of a token request, sorted by key as it is encoded.
abbrev pub token_query : NotaryRepo → Text → List (Text × Text)
token_query n service =
    (codes "scope", codes "repository:" ++ (n.image_name ++ codes ":pull,push"))
    ∷ (codes "service", service)
    ∷ []

-- A token is missing if it is nil or has no type or no value.
abbrev pub is_missing : Option Token → Bool
is_missing none = true
is_missing (some t) = is_empty t.type || is_empty t.value

module _ {Response : Type 0} (client : HttpClient Response) where
  -- The part of `setToken` behind the response.
  unfoldable pub store_token : NotaryRepo → Response → NotaryRepo × Option Text
  store_token n token_resp =
      if client.success_status (client.status_code token_resp)
      then elim (client.decode_token token_resp) [
        | err e ↦ (n, some e)
        | ok t ↦ (record n { token = some (record { type = codes "Bearer"; value = t }) }, none)
      ]
      else (n, some (client.error_response token_resp))

  unfoldable pub set_token : NotaryRepo → Text → Text → NotaryRepo × Option Text
  set_token n service realm = elim (client.new_request realm) [
    | err e ↦ (n, some e)
    | ok req ↦ elim (client.send (record (authorized n req) { query = token_query n service })) [
      | err e ↦ (n, some e)
      | ok token_resp ↦ store_token n token_resp
    ]
  ]

  -- The part of `fetchToken` behind the ping.
  unfoldable pub challenged : NotaryRepo → List (List (Text × Text)) → NotaryRepo × Option Text
  challenged n [] = (n, some no_challenge)
  challenged n (parameters ∷ challenges) = elim (lookup (codes "realm") parameters) [
    | none ↦ (n, some no_realm_or_service)
    | some realm ↦ elim (lookup (codes "service") parameters) [
      | none ↦ (n, some no_realm_or_service)
      | some service ↦ set_token n service realm
    ]
  ]

  unfoldable pub after_ping : NotaryRepo → Response → NotaryRepo × Option Text
  after_ping n ping_resp =
      let (pinged, accepted) = check_ping_response n (client.status_code ping_resp) in
      if accepted then (pinged, none) else challenged pinged (client.challenges ping_resp)

  unfoldable pub fetch_token : NotaryRepo → NotaryRepo × Option Text
  fetch_token n = elim (client.ping_url n.notary_server_url) [
    | err e ↦ (n, some e)
    | ok u ↦ elim (client.new_request u) [
      | err e ↦ (n, some e)
      | ok req ↦ elim (client.send (authorized n req)) [
        | err e ↦ (n, some e)
        | ok ping_resp ↦ after_ping n ping_resp
      ]
    ]
  ]

  -- The token may be nil: a server that needs none was pinged without basic auth.
  unfoldable pub get_token : NotaryRepo → NotaryRepo × Result (Option Token)
  get_token n =
      let (fetched, error) = fetch_token n in
      if is_missing n.token
      then elim error [ some e ↦ (fetched, err e) | none ↦ (fetched, ok fetched.token) ]
      else (n, ok n.token)
