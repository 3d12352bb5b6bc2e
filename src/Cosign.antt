-- ===== src/Cosign.antt =====
-- pkg/cosign/secret.go and pkg/cosign/validation.go: the secret that a policy's reference names, the
-- public keys in it, and the check of an image's signatures against keys and signers.
-- A Go slice is an `Option`, `none` for nil, where the source looks at nil, and an `error` is one too.
pub mod Reference
pub mod Keys
pub mod Acceptance
pub mod Tests
use image_validating_webhook.Base.{
  ℕ, zero, suc, Bool, Option, none, some, List, [], ◌∷◌, ◌++◌, length, Text, codes, split,
  trim_prefix, lookup, Result, ok, err, ◌>>=◌, Outcome, done, fails, panics,
}
use image_validating_webhook.Secret.{Secret}

-- The constant `KeyReference`.
abbrev pub key_reference : Text
key_reference = codes "k8s://"

abbrev pub bad_reference : Text
bad_reference =
    codes "Cosign: kubernetes specification should be in the format k8s://<namespace>/<secret>"

abbrev pub two_parts : List Text → Result (Text × Text)
two_parts (namespace ∷ name ∷ []) = ok (namespace, name)
two_parts _ = err bad_reference

unfoldable pub parse_ref : Text → Result (Text × Text)
parse_ref k8s_ref = two_parts (split (trim_prefix k8s_ref key_reference) b'/')

abbrev pub missing_secret : Text → Text
missing_secret e = codes "Cosign: checking if secret exists: " ++ e

-- `get_secret` is the API server's answer to a namespace and a name.
abbrev pub secret_or_wrapped : Result Secret → Result Secret
secret_or_wrapped (ok s) = ok s
secret_or_wrapped (err e) = err (missing_secret e)

unfoldable pub get_key_pair_secret : (Text → Text → Result Secret) → Text → Result Secret
get_key_pair_secret get_secret k8s_key_ref = do
  (namespace, name) ← parse_ref k8s_key_ref
  secret_or_wrapped (get_secret namespace name)

-- What the source uses of encoding/pem and crypto/x509.
pub record KeyCodec (Block Key : Type 0) : Type 0 where
  -- pem.Decode: the first block and the rest of the input, if there is a block
  pub pem_decode : Text → Option (Block × Option Text)
  -- x509.ParsePKIXPublicKey
  pub parse_public_key : Block → Result Key

-- `append` to a slice of which the source asks whether it is nil.
abbrev pub appended : {A : Type 0} → Option (List A) → A → Option (List A)
appended none a = some (a ∷ [])
appended (some xs) a = some (xs ++ a ∷ [])

-- The text of a key of a map, empty if it is missing.
abbrev pub text_at : Text → List (Text × Text) → Text
text_at k m = elim (lookup k m) [ some t ↦ t | none ↦ [] ]

abbrev pub malformed_key : Text → Text
malformed_key e = codes "malformed cosign.pub: " ++ e

-- The last test of `GetPublicKey`; without an error to wrap, `errs[0]` is out of range.
unfoldable pub keys_or_malformed :
    {Key : Type 0} → Option (List Key) × List Text → Outcome (List Key)
keys_or_malformed (some keys, errs) = done keys
keys_or_malformed (none, []) = panics
keys_or_malformed (none, e ∷ errs) = fails (malformed_key e)

module _ {Block Key : Type 0} (codec : KeyCodec Block Key) where
  -- `parsePems` on fuel: one step takes one block, so the length of the input is enough.
  unfoldable pub parse_pems_within : ℕ → Text → List Block
  parse_pems_within zero b = []
  parse_pems_within (suc fuel) b = elim (codec.pem_decode b) [
    | none ↦ []
    | some (p, none) ↦ p ∷ []
    | some (p, some rest) ↦ p ∷ parse_pems_within fuel rest
  ]

  unfoldable pub parse_pems : Text → List Block
  unfolding parse_pems_within
  parse_pems b = parse_pems_within (suc (length b)) b

  -- The loop of `GetPublicKey`, with `keys` and `errs` so far.
  unfoldable pub collect_keys :
      List Block → Option (List Key) → List Text → Option (List Key) × List Text
  collect_keys [] keys errs = (keys, errs)
  collect_keys (p ∷ pems) keys errs = elim (codec.parse_public_key p) [
    | err e ↦ collect_keys pems keys (errs ++ e ∷ [])
    | ok key ↦ collect_keys pems (appended keys key) errs
  ]

  unfoldable pub get_public_key : List (Text × Text) → Outcome (List Key)
  unfolding parse_pems collect_keys keys_or_malformed
  get_public_key cfg =
      keys_or_malformed (collect_keys (parse_pems (text_at (codes "cosign.pub") cfg)) (some []) [])

-- What the source uses of sigstore: `signature.LoadVerifier`, and `cosign.VerifyImageSignatures` for an
-- image, a signer's annotation and a verifier.
pub record Sigstore (Image Key Verifier Sig : Type 0) : Type 0 where
  pub load_verifier : Key → Result Verifier
  pub verify_signatures : Image → Text → Verifier → Option (List Sig) × Option Text

abbrev pub no_keys : Text
no_keys = codes "There are no keys for valid"

module _ {Image Key Verifier Sig : Type 0} (sigstore : Sigstore Image Key Verifier Sig)
    (ref : Image) where
  -- The loop of `validSignatures`, with `lastSig` and `lastErr` so far.
  unfoldable pub valid_signatures_from :
      List Text → Verifier → Option (List Sig) → Option Text → Option (List Sig) × Option Text
  valid_signatures_from [] verifier last_sig last_err = (last_sig, last_err)
  valid_signatures_from (signer ∷ signers) verifier last_sig last_err =
      let (sigs, error) = sigstore.verify_signatures ref signer verifier in
      elim error [
        | none ↦ (sigs, none)
        | some e ↦ valid_signatures_from signers verifier sigs (some e)
      ]

  unfoldable pub valid_signatures : List Text → Verifier → Option (List Sig) × Option Text
  unfolding valid_signatures_from
  valid_signatures policy_signers verifier = valid_signatures_from policy_signers verifier none none

  -- The loop of `Valid`, with `lastErr` so far.
  unfoldable pub valid_from : List Text → List Key → Option Text → Option (List Sig) × Option Text
  unfolding valid_signatures
  valid_from signer [] last_err = (none, last_err)
  valid_from signer (k ∷ keys) last_err = elim (sigstore.load_verifier k) [
    | err e ↦ valid_from signer keys (some e)
    | ok verifier ↦
        (let (sps, error) = valid_signatures signer verifier in
          elim error [ none ↦ (sps, none) | some e ↦ valid_from signer keys (some e) ])
  ]

  unfoldable pub valid : List Text → List Key → Option (List Sig) × Option Text
  unfolding valid_from
  valid signer [] = (none, some no_keys)
  valid signer (k ∷ keys) = valid_from signer (k ∷ keys) none
