-- ===== src/Cosign/Tests.antt =====
-- Keys of one character, and a verifier that knows one signer.
use image_validating_webhook.Base.{
  ◌≡◌, refl, ◌≢◌, ◌↔◌, none, some, List, [], ◌∷◌, arith, Text, codes, ◌==◌, if◌then◌else◌, Some, ok,
  done,
}
use image_validating_webhook.Cosign.{text_at, KeyCodec, parse_pems, get_public_key, Sigstore, valid}
use image_validating_webhook.Cosign.Keys.{
  encode_all, parse_pems-encode_all, keys_of, get_public_key-keys,
}
use image_validating_webhook.Cosign.Acceptance.{KeyVerifies, valid_iff}

-- Every character is a block.
abbrev pub key_codec : KeyCodec Text Text
key_codec = record {
  pem_decode = λ b. elim b [ [] ↦ none | c ∷ rest ↦ some (c ∷ [], some rest) ];
  parse_public_key = λ p. ok p;
}

abbrev itself : Text → Text
itself p = p

parse_pems-encode_all_example :
    parse_pems key_codec (encode_all key_codec itself (codes "a" ∷ codes "b" ∷ codes "a" ∷ []) [])
    ≡ codes "a" ∷ codes "b" ∷ codes "a" ∷ []
parse_pems-encode_all_example =
    parse_pems-encode_all key_codec itself (codes "a" ∷ codes "b" ∷ codes "a" ∷ []) []
      (
        (omega arith, λ rest. refl),
        ((omega arith, λ rest. refl), ((omega arith, λ rest. refl), tt)),
      )
      refl

abbrev config : List (Text × Text)
config = (codes "cosign.pub", codes "ab") ∷ []

get_public_key-keys_example :
    get_public_key key_codec config
    ≡ done (keys_of key_codec (parse_pems key_codec (text_at (codes "cosign.pub") config)))
get_public_key-keys_example = get_public_key-keys key_codec config

abbrev pub sigstore : Sigstore Text Text Text Text
sigstore = record {
  load_verifier = λ key. ok key;
  verify_signatures = λ image signer verifier.
      if signer == codes "alice"
      then (some (image ∷ []), none)
      else (none, some (codes "missing or incorrect annotation"));
}

signers_named : codes "bob" ∷ codes "alice" ∷ [] ≢ []
signers_named e = ground arith

valid_iff_example :
    ((valid sigstore (codes "reg.io/alpine") (codes "bob" ∷ codes "alice" ∷ []) (codes "k" ∷ [])).1
      ≡ none)
    ↔ Some
        (KeyVerifies sigstore (codes "reg.io/alpine") (codes "bob" ∷ codes "alice" ∷ []))
        (codes "k" ∷ [])
valid_iff_example =
    valid_iff sigstore (codes "reg.io/alpine") (codes "bob" ∷ codes "alice" ∷ []) (codes "k" ∷ [])
      signers_named
