-- ===== src/Validator/Digests.antt =====
-- pkg/admissions/pods/validator.go: the image that `addDigestWhenImageValid` writes into a container.
use image_validating_webhook.Base.{
  ◌≡◌, ◌≢◌, ◌⊎◌, ◌∙◌, sym, ap, inl, inr, List, [], ◌∷◌, All, Some, Text,
}
use image_validating_webhook.ImageRef.{ImageRef, to_string}
use image_validating_webhook.Signature.{SignedTag, Signature, get_digest}
use image_validating_webhook.Signature.Laws.{get_digest-cases}
use image_validating_webhook.Validator.{Container, accept, pin_digest}
use image_validating_webhook.Validator.Decision.{pin_digest_iff}

Some-map :
    {A : Type 0} (P Q : A → Type 0) (xs : List A) → ((x : A) → P x → Q x) → Some P xs → Some Q xs
Some-map P Q [] f h = h
Some-map P Q (x ∷ xs) f (inl p) = inl (f x p)
Some-map P Q (x ∷ xs) f (inr h) = inr (Some-map P Q xs f h)

-- The image that is written into an accepted container is the parsed reference with a digest that was signed for its
-- tag; if none was, the one written has no digest, and the parsed one had none.
pub pin_digest-cases :
    (c : Container) (ref : ImageRef) (sig : Signature) (policy_signer : List Text) (c' : Container)
    → pin_digest c ref policy_signer sig ≡ (c', accept)
    → Some
        (λ t. (t.signed_tag ≡ ref.tag) × (c'.image ≡ to_string (record ref { digest = t.digest })))
        sig.signed_tags
      ⊎ (All (λ t. t.signed_tag ≢ ref.tag) sig.signed_tags
          × (ref.digest ≡ [])
          × (c'.image ≡ to_string (record ref { digest = [] })))
pin_digest-cases c ref sig policy_signer c' pinned =
    let (matched, own, written) = (pin_digest_iff c ref policy_signer sig c').0 pinned in
    let given : Text → Text = λ d. to_string (record ref { digest = d }) in
    let image : c'.image ≡ given (get_digest sig ref.tag) = ap (λ d. d.image) written in
    elim (get_digest-cases sig ref.tag) [
      | inl signed ↦
          inl (Some-map _ _ sig.signed_tags (λ t (tag, d). (tag, image ∙ ap given (sym d))) signed)
      | inr (others, empty) ↦
          inr (others, elim own [ inl e ↦ e | inr e ↦ e ∙ empty ], image ∙ ap given empty)
    ]

none_named :
    (ts : List SignedTag) → Some (λ t. t.signed_tag ≡ []) ts → All (λ t. t.signed_tag ≢ []) ts → ⊥
none_named [] h k = h
none_named (t ∷ ts) (inl e) (k, _) = k e
none_named (t ∷ ts) (inr h) (_, k) = none_named ts h k

-- An accepted image that names no tag is written back without a digest, when every signed tag has a
-- name: the digest is looked up under the empty tag.
pub pin_digest-untagged :
    (c : Container) (ref : ImageRef) (sig : Signature) (policy_signer : List Text) (c' : Container)
    → pin_digest c ref policy_signer sig ≡ (c', accept)
    → ref.tag ≡ []
    → All (λ t. t.signed_tag ≢ []) sig.signed_tags
    → (ref.digest ≡ []) × (c'.image ≡ to_string ref)
pin_digest-untagged c ref sig policy_signer c' pinned untagged named =
    elim (pin_digest-cases c ref sig policy_signer c' pinned) [
      | inl signed ↦ absurd (
          none_named sig.signed_tags
            (Some-map _ _ sig.signed_tags (λ t (tag, _). tag ∙ untagged) signed) named)
      | inr (others, empty, image) ↦
          (empty, image ∙ ap (λ d. to_string (record ref { digest = d })) (sym empty))
    ]
