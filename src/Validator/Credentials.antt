-- ===== src/Validator/Credentials.antt =====
-- pkg/admissions/pods/validator.go: which credentials `getBasicAuthForRegistry` finds.
use image_validating_webhook.Base.{
  ◌≡◌, ◌≢◌, ◌↔◌, ◌⊎◌, refl, sym, ap, inl, inr, List, [], ◌∷◌, arith, Text, is_empty, Result-cases,
  Returns, Outcome, done, fails, panics, ◌>=>◌, if◌then◌else◌,
}
use image_validating_webhook.Secret.{new_image_pull_secret, get_host_basic_auth}
use image_validating_webhook.Validator.{Services, find_registry_server, get_basic_auth_for_registry}

first_given :
    (o rest : Outcome Text) (auth : Text) (F : Type 0)
    → (rest ≡ done auth) ↔ F
    → ((o >=> λ b. if is_empty b then rest else done b) ≡ done auth)
      ↔ (((auth ≢ []) × (o ≡ done auth)) ⊎ ((o ≡ done []) × F))
first_given (done []) rest auth F (to, from) =
    (λ e. inr (refl, to e), elim [ inl (k, e) ↦ absurd (k (ground arith)) | inr (_, f) ↦ from f ])
first_given (done (c ∷ s)) rest auth F (to, from) = (
  λ e. inl (λ k. absurd (ground arith), e),
  elim [ inl (k, e) ↦ e | inr (e, _) ↦ absurd (ground arith) ],
)
first_given (fails m) rest auth F (to, from) = (
  λ e. absurd (ground arith),
  elim [ inl (k, e) ↦ absurd (ground arith) | inr (e, _) ↦ absurd (ground arith) ],
)
first_given panics rest auth F (to, from) = (
  λ e. absurd (ground arith),
  elim [ inl (k, e) ↦ absurd (ground arith) | inr (e, _) ↦ absurd (ground arith) ],
)

module _ {Image Reference Block Key Verifier Sig : Type 0}
    (services : Services Image Reference Block Key Verifier Sig) (host namespace : Text) where
  -- The pull secret of this name can be read and answers `auth` for the registry's server.
  abbrev pub Gives : Text → Text → Type 0
  Gives name auth = Returns (services.get_secret namespace name) λ secret.
      Returns (new_image_pull_secret services.codec secret)
        λ s. get_host_basic_auth services.codec s (find_registry_server host) ≡ done auth

  -- The first pull secret with an answer gives `auth`, or none of them has one and `auth` is empty.
  abbrev pub FirstGives : List Text → Text → Type 0
  FirstGives [] auth = auth ≡ []
  FirstGives (name ∷ names) auth =
      ((auth ≢ []) × Gives name auth) ⊎ (Gives name [] × FirstGives names auth)

  -- The credentials are those of the first pull secret that has some for the registry's server, the
  -- secrets before it being read and having none; they are empty if every secret can be read and none has any.
  pub get_basic_auth_iff :
      (pull_secrets : List Text) (auth : Text)
      → (get_basic_auth_for_registry services host namespace pull_secrets ≡ done auth)
        ↔ FirstGives pull_secrets auth
  unfolding get_basic_auth_for_registry
  get_basic_auth_iff [] auth = (λ e. ground arith, λ e. ap done (sym e))
  get_basic_auth_iff (name ∷ names) auth =
      elim (Result-cases (services.get_secret namespace name)) [
        | inr (e, bad) ↦
            rw (bad, get_basic_auth_for_registry)
              (λ e. absurd (ground arith), elim [ inl (_, e) ↦ absurd e | inr (e, _) ↦ absurd e ])
        | inl (secret, found) ↦ elim (Result-cases (new_image_pull_secret services.codec secret)) [
          | inr (e, bad) ↦
              rw (found, bad, get_basic_auth_for_registry)
                (λ e. absurd (ground arith), elim [ inl (_, e) ↦ absurd e | inr (e, _) ↦ absurd e ])
          | inl (s, made) ↦
              rw (found, made, get_basic_auth_for_registry)
                (first_given (get_host_basic_auth services.codec s (find_registry_server host))
                  (get_basic_auth_for_registry services host namespace names) auth
                  (FirstGives names auth) (get_basic_auth_iff names auth))
        ]
      ]
