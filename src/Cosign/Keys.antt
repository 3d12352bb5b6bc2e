-- ===== src/Cosign/Keys.antt =====
-- pkg/cosign/validation.go: `parsePems` reads its whole input, and `GetPublicKey` never fails.
use image_validating_webhook.Base.{
  ℕ, zero, suc, ◌<◌, ◌≡◌, refl, sym, ap, ◌∙◌, inl, inr, Option, none, some, Option-cases, List, [],
  ◌∷◌, ◌++◌, append_assoc, append-nil, length, length-append, All, arith, Text, codes, ok, err,
  Result-cases, done,
}
use image_validating_webhook.Cosign.{
  KeyCodec, text_at, parse_pems_within, parse_pems, collect_keys, get_public_key, keys_or_malformed,
}

module _ {Block Key : Type 0} (codec : KeyCodec Block Key) where
  -- pem.Decode takes at least one character for a block.
  abbrev pub Consumes : Type 0
  Consumes =
      (b rest : Text) (p : Block)
      → codec.pem_decode b ≡ some (p, some rest)
      → length rest < length b

  parse_pems_within-enough :
      Consumes
      → (m n : ℕ) (b : Text) → length b < m
      → length b < n
      → parse_pems_within codec m b ≡ parse_pems_within codec n b
  unfolding parse_pems_within
  parse_pems_within-enough consumes zero n b h k = absurd (omega arith)
  parse_pems_within-enough consumes (suc m) zero b h k = absurd (omega arith)
  parse_pems_within-enough consumes (suc m) (suc n) b h k =
      elim (Option-cases (codec.pem_decode b)) [
        | inl nothing ↦ rw (nothing, parse_pems_within) refl
        | inr ((p, none), one) ↦ rw (one, parse_pems_within) refl
        | inr ((p, some rest), one) ↦
            let less = consumes b rest p one in
            rw (one, parse_pems_within)
              (ap (λ ps. p ∷ ps)
                (parse_pems_within-enough consumes m n rest (omega arith) (omega arith)))
      ]

  -- The source's recursion of `parsePems`, which has no bound, holds of the model at every input.
  pub parse_pems-recursion :
      Consumes
      → (b : Text)
      → parse_pems codec b ≡ elim (codec.pem_decode b) [
        | none ↦ []
        | some (p, none) ↦ p ∷ []
        | some (p, some rest) ↦ p ∷ parse_pems codec rest
      ]
  unfolding parse_pems
  parse_pems-recursion consumes b = elim (Option-cases (codec.pem_decode b)) [
    | inl nothing ↦ rw (nothing, parse_pems, parse_pems_within) refl
    | inr ((p, none), one) ↦ rw (one, parse_pems, parse_pems_within) refl
    | inr ((p, some rest), one) ↦
        let less = consumes b rest p one in
        rw (one, parse_pems, parse_pems_within)
          (ap (λ ps. p ∷ ps)
            (parse_pems_within-enough consumes (length b) (suc (length rest)) rest (omega arith)
              (omega arith)))
  ]

  -- An encoding of a block: pem.Decode finds the block in front of any text, and returns that text.
  abbrev pub IsEncoded : (Block → Text) → Block → Type 0
  IsEncoded encode p =
      (0 < length (encode p))
      × ((rest : Text) → codec.pem_decode (encode p ++ rest) ≡ some (p, some rest))

  -- The encodings of blocks, one behind the other.
  pub encode_all : (Block → Text) → List Block → Text → Text
  encode_all encode [] after = after
  encode_all encode (p ∷ pems) after = encode p ++ encode_all encode pems after

  parse_pems_within-encode_all :
      (fuel : ℕ) (encode : Block → Text) (pems : List Block) (after : Text)
      → All (IsEncoded encode) pems
      → codec.pem_decode after ≡ none
      → length (encode_all encode pems after) < fuel
      → parse_pems_within codec fuel (encode_all encode pems after) ≡ pems
  unfolding parse_pems_within encode_all
  parse_pems_within-encode_all zero encode pems after h stop enough = absurd (omega arith)
  parse_pems_within-encode_all (suc fuel) encode [] after h stop enough =
      rw (stop, parse_pems_within) refl
  parse_pems_within-encode_all (suc fuel) encode (p ∷ pems) after ((some_text, decodes), h) stop
        enough =
      let left = encode_all encode pems after in
      let size = length-append (encode p) left in
      rw (decodes left, parse_pems_within)
        (ap (λ ps. p ∷ ps)
          (parse_pems_within-encode_all fuel encode pems after h stop (omega arith)))

  -- `parsePems` finds every block: of encoded blocks one behind the other, and a text without a block
  -- behind them, it returns exactly these blocks in order.
  pub parse_pems-encode_all :
      (encode : Block → Text) (pems : List Block) (after : Text)
      → All (IsEncoded encode) pems
      → codec.pem_decode after ≡ none
      → parse_pems codec (encode_all encode pems after) ≡ pems
  unfolding parse_pems
  parse_pems-encode_all encode pems after h stop =
      parse_pems_within-encode_all (suc (length (encode_all encode pems after))) encode pems after h
        stop (omega arith)

  -- The keys of the blocks that hold one, in order.
  pub keys_of : List Block → List Key
  keys_of [] = []
  keys_of (p ∷ pems) = elim (codec.parse_public_key p) [
    | ok key ↦ key ∷ keys_of pems
    | err e ↦ keys_of pems
  ]

  collect_keys-keys :
      (pems : List Block) (keys : List Key) (errs : List Text)
      → (collect_keys codec pems (some keys) errs).0 ≡ some (keys ++ keys_of pems)
  unfolding collect_keys keys_of
  collect_keys-keys [] keys errs = ap some (sym (append-nil keys))
  collect_keys-keys (p ∷ pems) keys errs = elim (Result-cases (codec.parse_public_key p)) [
    | inl (key, good) ↦
        rw (good, collect_keys, keys_of)
          (collect_keys-keys pems (keys ++ key ∷ []) errs
            ∙ ap some (append_assoc keys (key ∷ []) (keys_of pems)))
    | inr (e, bad) ↦ rw (bad, collect_keys, keys_of) (collect_keys-keys pems keys (errs ++ e ∷ []))
  ]

  some_keys :
      (r : Option (List Key) × List Text) (keys : List Key)
      → r.0 ≡ some keys
      → keys_or_malformed r ≡ done keys
  unfolding keys_or_malformed
  some_keys (some ks, errs) keys h = ground arith
  some_keys (none, errs) keys h = absurd (ground arith)

  -- `GetPublicKey` ends without an error, whatever the data: it returns the keys of the blocks under
  -- `cosign.pub` that can be parsed, none of them included.
  pub get_public_key-keys :
      (cfg : List (Text × Text))
      → get_public_key codec cfg
        ≡ done (keys_of (parse_pems codec (text_at (codes "cosign.pub") cfg)))
  unfolding get_public_key
  get_public_key-keys cfg =
      let pems = parse_pems codec (text_at (codes "cosign.pub") cfg) in
      some_keys (collect_keys codec pems (some []) []) (keys_of pems) (collect_keys-keys pems [] [])
