-- ===== src/Token/Source.antt =====
-- pkg/trust/trust.go: where a token that `getToken` returns comes from.
use image_validating_webhook.Base.{
  ◌≤◌, ◌<◌, ◌&&◌, leb, ltb, lookup, is_empty_iff, subst, ◌≡◌, ◌⊎◌, ap, inl, inr, true, false,
  Bool-cases, Option, none, some, Option-cases, List, [], ◌∷◌, arith, Text, codes, is_empty, ok,
  Result-cases,
}
use image_validating_webhook.Token.{
  Token, Request, NotaryRepo, HttpClient, is_missing, authorized, token_query, check_ping_response,
  store_token, set_token, challenged, after_ping, fetch_token, get_token,
}

-- The notary server answered the ping, which had the basic auth if there is one, with a status from
-- 200 to 299.
pub record Welcomed {Response : Type 0} (client : HttpClient Response) (n : NotaryRepo)
    : Type 0 where
  pub url : Text
  pub request : Request
  pub response : Response
  pub parsed : client.ping_url n.notary_server_url ≡ ok url
  pub made : client.new_request url ≡ ok request
  pub sent : client.send (authorized n request) ≡ ok response
  pub at_least : 200 ≤ client.status_code response
  pub below : client.status_code response < 300

-- A fetched token: none, if the server answers the ping of a repository without basic auth; the image's
-- basic auth, if it answers the ping with that; or a bearer token that the client decoded from a
-- response with a success status to a token request with the repository's scope.
pub data FetchedFrom {Response : Type 0} (client : HttpClient Response) (n : NotaryRepo)
    : Option Token → Type 0 where
  no_token : n.basic_auth ≡ [] → Welcomed client n → FetchedFrom client n none
  basic_token :
      is_empty n.basic_auth ≡ false
      → Welcomed client n
      → FetchedFrom client n (some (record { type = codes "Basic"; value = n.basic_auth }))
  bearer_token :
      (service : Text) (request : Request) (response : Response) (t : Text)
      → client.send (record (authorized n request) { query = token_query n service }) ≡ ok response
      → client.success_status (client.status_code response) ≡ true
      → client.decode_token response ≡ ok t
      → FetchedFrom client n (some (record { type = codes "Bearer"; value = t }))

module _ {Response : Type 0} (client : HttpClient Response) where
  -- If the step ends without an error, the token it leaves was fetched.
  abbrev Fetches : NotaryRepo → NotaryRepo × Option Text → Type 0
  Fetches n r = (m : NotaryRepo) → r ≡ (m, none) → FetchedFrom client n m.token

  failed-Fetches : (n k : NotaryRepo) (e : Text) → Fetches n (k, some e)
  failed-Fetches n k e m h = absurd (ground arith)

  kept-Fetches : (n k : NotaryRepo) → FetchedFrom client n k.token → Fetches n (k, none)
  kept-Fetches n k f m h = subst (λ x. FetchedFrom client n x.token) (ap (λ x. x.0) h) f

  store_token-Fetches :
      (n : NotaryRepo) (service : Text) (req : Request) (r : Response)
      → client.send (record (authorized n req) { query = token_query n service }) ≡ ok r
      → Fetches n (store_token client n r)
  unfolding store_token
  store_token-Fetches n service req r sent =
      elim (Bool-cases (client.success_status (client.status_code r))) [
        | inr failure ↦ rw (failure, store_token) (failed-Fetches n n _)
        | inl success ↦ elim (Result-cases (client.decode_token r)) [
          | inr (e, bad) ↦ rw (success, bad, store_token) (failed-Fetches n n e)
          | inl (t, decoded) ↦
              rw (success, decoded, store_token)
                (kept-Fetches n _ (bearer_token service req r t sent success decoded))
        ]
      ]

  set_token-Fetches :
      (n : NotaryRepo) (service realm : Text) → Fetches n (set_token client n service realm)
  unfolding set_token
  set_token-Fetches n service realm = elim (Result-cases (client.new_request realm)) [
    | inr (e, bad) ↦ rw (bad, set_token) (failed-Fetches n n e)
    | inl (req, made) ↦
        elim (Result-cases
          (client.send (record (authorized n req) { query = token_query n service }))) [
            | inr (e, bad) ↦ rw (made, bad, set_token) (failed-Fetches n n e)
            | inl (r, sent) ↦ rw (made, sent, set_token) (store_token-Fetches n service req r sent)
          ]
  ]

  challenged-Fetches :
      (n : NotaryRepo) (cs : List (List (Text × Text))) → Fetches n (challenged client n cs)
  unfolding challenged
  challenged-Fetches n [] = failed-Fetches n n _
  challenged-Fetches n (ps ∷ cs) = elim (Option-cases (lookup (codes "realm") ps)) [
    | inl missing ↦ rw (missing, challenged) (failed-Fetches n n _)
    | inr (realm, found) ↦ elim (Option-cases (lookup (codes "service") ps)) [
      | inl missing ↦ rw (found, missing, challenged) (failed-Fetches n n _)
      | inr (service, also) ↦ rw (found, also, challenged) (set_token-Fetches n service realm)
    ]
  ]

  after_ping-Fetches :
      (n : NotaryRepo) (url : Text) (req : Request) (r : Response)
      → client.ping_url n.notary_server_url ≡ ok url
      → client.new_request url ≡ ok req
      → client.send (authorized n req) ≡ ok r
      → Fetches n (after_ping client n r)
  unfolding after_ping check_ping_response
  after_ping-Fetches n url req r parsed made sent =
      elim (Bool-cases (leb 200 (client.status_code r) && ltb (client.status_code r) 300)) [
        | inr other ↦
            rw (other, after_ping, check_ping_response) (challenged-Fetches n (client.challenges r))
        | inl accepted ↦
            let welcomed : Welcomed client n = record {
              url = url;
              request = req;
              response = r;
              parsed = parsed;
              made = made;
              sent = sent;
              at_least = ground arith;
              below = ground arith;
            } in
            elim (Bool-cases (is_empty n.basic_auth)) [
              | inl empty ↦
                  rw (accepted, empty, after_ping, check_ping_response)
                    (kept-Fetches n _ (no_token ((is_empty_iff n.basic_auth).0 empty) welcomed))
              | inr given ↦
                  rw (accepted, given, after_ping, check_ping_response)
                    (kept-Fetches n _ (basic_token given welcomed))
            ]
      ]

  fetch_token-Fetches : (n : NotaryRepo) → Fetches n (fetch_token client n)
  unfolding fetch_token
  fetch_token-Fetches n = elim (Result-cases (client.ping_url n.notary_server_url)) [
    | inr (e, bad) ↦ rw (bad, fetch_token) (failed-Fetches n n e)
    | inl (u, parsed) ↦ elim (Result-cases (client.new_request u)) [
      | inr (e, bad) ↦ rw (parsed, bad, fetch_token) (failed-Fetches n n e)
      | inl (req, made) ↦ elim (Result-cases (client.send (authorized n req))) [
        | inr (e, bad) ↦ rw (parsed, made, bad, fetch_token) (failed-Fetches n n e)
        | inl (r, sent) ↦
            rw (parsed, made, sent, fetch_token) (after_ping-Fetches n u req r parsed made sent)
      ]
    ]
  ]

  -- A token that `getToken` returns is the one that the repository had, if that has a type and a value.
  -- Or else it is none, where there is no basic auth and the notary server answered the ping with a status
  -- from 200 to 299; or the image's basic auth, where the server answered the ping that carried it with
  -- such a status; or a bearer token decoded from a response with a success status to a token request
  -- for the repository's scope.
  pub get_token_source :
      (n m : NotaryRepo) (t : Option Token)
      → get_token client n ≡ (m, ok t)
      → ((is_missing n.token ≡ false) × (t ≡ n.token) × (m ≡ n))
        ⊎ ((is_missing n.token ≡ true) × FetchedFrom client n t)
  unfolding get_token
  get_token_source n m t h = elim (Bool-cases (is_missing n.token)) [
    | inr there ↦ inl (there, ground arith, ground arith)
    | inl missing ↦ elim (Option-cases (fetch_token client n).1) [
      | inr (e, bad) ↦ absurd (ground arith)
      | inl good ↦
          let fetched =
            fetch_token-Fetches n (fetch_token client n).0
              (ap (λ e. ((fetch_token client n).0, e)) good) in
          let same : (fetch_token client n).0.token ≡ t = ground arith in
          inr (missing, subst (FetchedFrom client n) same fetched)
    ]
  ]
