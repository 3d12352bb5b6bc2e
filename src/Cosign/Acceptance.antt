-- ===== src/Cosign/Acceptance.antt =====
-- pkg/cosign/validation.go: when `Valid` accepts an image.
use image_validating_webhook.Base.{
  subst, ◌≡◌, ◌≢◌, ◌↔◌, refl, sym, inl, inr, Option, none, some, Option-cases, List, [], ◌∷◌, Some,
  arith, Text, ok, Result-cases,
}
use image_validating_webhook.Cosign.{
  Sigstore, valid_signatures_from, valid_signatures, valid_from, valid,
}

module _ {Image Key Verifier Sig : Type 0} (sigstore : Sigstore Image Key Verifier Sig)
    (ref : Image) where
  -- Some signer's annotation is verified.
  abbrev pub Verified : List Text → Verifier → Type 0
  Verified signers v = Some (λ signer. (sigstore.verify_signatures ref signer v).1 ≡ none) signers

  -- A key makes a verifier, under which some signer's annotation is verified.
  abbrev pub KeyVerifies : List Text → Key → Type 0
  KeyVerifies signers k = (v : Verifier) × (sigstore.load_verifier k ≡ ok v) × Verified signers v

  valid_signatures_from_iff :
      (signers : List Text) (v : Verifier) (sig : Option (List Sig)) (e : Text)
      → ((valid_signatures_from sigstore ref signers v sig (some e)).1 ≡ none) ↔ Verified signers v
  unfolding valid_signatures_from
  valid_signatures_from_iff [] v sig e = (λ h. absurd (ground arith), λ h. absurd h)
  valid_signatures_from_iff (signer ∷ signers) v sig e =
      elim (Option-cases (sigstore.verify_signatures ref signer v).1) [
        | inl good ↦ rw (good, valid_signatures_from) (λ _. inl refl, λ _. refl)
        | inr (e', bad) ↦
            let next =
              valid_signatures_from_iff signers v (sigstore.verify_signatures ref signer v).0 e' in
            rw (bad, valid_signatures_from)
              (λ h. inr (next.0 h), elim [ inl p ↦ absurd (ground arith) | inr t ↦ next.1 t ])
      ]

  valid_signatures_iff :
      (signers : List Text) (v : Verifier)
      → signers ≢ []
      → ((valid_signatures sigstore ref signers v).1 ≡ none) ↔ Verified signers v
  unfolding valid_signatures
  valid_signatures_iff [] v nonempty = absurd (nonempty refl)
  valid_signatures_iff (signer ∷ signers) v nonempty =
      elim (Option-cases (sigstore.verify_signatures ref signer v).1) [
        | inl good ↦ rw (good, valid_signatures_from) (λ _. inl refl, λ _. refl)
        | inr (e', bad) ↦
            let next =
              valid_signatures_from_iff signers v (sigstore.verify_signatures ref signer v).0 e' in
            rw (bad, valid_signatures_from)
              (λ h. inr (next.0 h), elim [ inl p ↦ absurd (ground arith) | inr t ↦ next.1 t ])
      ]

  ok_injective : {A : Type 0} (a b : A) → ok a ≡ ok b → a ≡ b
  ok_injective a b h = cc

  valid_from-step :
      (signers : List Text) (k : Key) (keys : List Key) (last_err : Option Text)
      → signers ≢ []
      → ((e : Text)
          → ((valid_from sigstore ref signers keys (some e)).1 ≡ none)
            ↔ Some (KeyVerifies signers) keys)
      → ((valid_from sigstore ref signers (k ∷ keys) last_err).1 ≡ none)
        ↔ Some (KeyVerifies signers) (k ∷ keys)
  unfolding valid_from
  valid_from-step signers k keys last_err nonempty rest =
      elim (Result-cases (sigstore.load_verifier k)) [
        | inl (v, loaded) ↦
            let (to, from) = valid_signatures_iff signers v nonempty in
            elim (Option-cases (valid_signatures sigstore ref signers v).1) [
              | inl good ↦ rw (loaded, good, valid_from) (λ _. inl (v, refl, to good), λ _. refl)
              | inr (e, bad) ↦
                  rw (loaded, bad, valid_from)
                    (
                      λ h. inr ((rest e).0 h),
                      elim [
                        | inl (x, same, h) ↦ absurd (
                            ground (
                              arith,
                              from (subst (Verified signers) (ok_injective x v (sym same)) h),
                            ))
                        | inr t ↦ (rest e).1 t
                      ],
                    )
            ]
        | inr (e, bad) ↦
            rw (bad, valid_from)
              (
                λ h. inr ((rest e).0 h),
                elim [ inl (v, found, p) ↦ absurd (ground arith) | inr t ↦ (rest e).1 t ],
              )
      ]

  valid_from_iff :
      (signers : List Text) (keys : List Key) (e : Text)
      → signers ≢ []
      → ((valid_from sigstore ref signers keys (some e)).1 ≡ none) ↔ Some (KeyVerifies signers) keys
  unfolding valid_from
  valid_from_iff signers [] e nonempty = (λ h. absurd (ground arith), λ h. absurd h)
  valid_from_iff signers (k ∷ keys) e nonempty =
      valid_from-step signers k keys (some e) nonempty
        (λ e'. valid_from_iff signers keys e' nonempty)

  -- An image is accepted, by a policy that names signers, exactly if some key makes a verifier under
  -- which the signatures verify with some signer's annotation.
  pub valid_iff :
      (signers : List Text) (keys : List Key)
      → signers ≢ []
      → ((valid sigstore ref signers keys).1 ≡ none) ↔ Some (KeyVerifies signers) keys
  unfolding valid
  valid_iff signers [] nonempty = (λ h. absurd (ground arith), λ h. absurd h)
  valid_iff signers (k ∷ keys) nonempty =
      valid_from-step signers k keys none nonempty (λ e. valid_from_iff signers keys e nonempty)
