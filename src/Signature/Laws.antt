-- ===== src/Signature/Laws.antt =====
-- pkg/notary/signature.go: what `GetDigest` and `MatchSigner` answer, and which signer `FetchSignature`
-- leads to.
use mathlib.Core.Bool.{false≢true}
use image_validating_webhook.Base.{
  ◌≡◌, refl, subst, sym, ◌∙◌, ◌↔◌, ◌⊎◌, ◌≢◌, inl, inr, true, some, List, [], ◌∷◌, arith, Text, ◌==◌,
  text_eq_iff, Bool-cases, All, Some, Result, ok, err,
}
use image_validating_webhook.Trust.{Target, TrustTagRow, TrustRepo, Repository, get_signed_metadata}
use image_validating_webhook.Trust.Metadata.{Released, KeepsRows, get_signed_metadata-rows}
use image_validating_webhook.Signature.{
  SignedTag, Signature, digest_from, get_digest, repo_admin, in_policy, signers_match, tags_match,
  match_signer, signed_tag_of, signed_tags_of, signature_of,
}

digest_from-cases :
    (tag : Text) (ts : List SignedTag) (d out : Text)
    → digest_from tag ts d ≡ out
    → Some (λ t. (t.signed_tag ≡ tag) × (t.digest ≡ out)) ts
      ⊎ (All (λ t. t.signed_tag ≢ tag) ts × (out ≡ d))
unfolding digest_from
digest_from-cases tag [] d out e = inr (tt, sym e)
digest_from-cases tag (t ∷ ts) d out e = elim (Bool-cases (t.signed_tag == tag)) [
  | inl same ↦ elim (digest_from-cases tag ts t.digest out (rw same at e)) [
    | inl later ↦ inl (inr later)
    | inr (others, last) ↦ inl (inl ((text_eq_iff t.signed_tag tag).0 same, sym last))
  ]
  | inr other ↦ elim (digest_from-cases tag ts d out (rw other at e)) [
    | inl later ↦ inl (inr later)
    | inr (others, last) ↦
        inr ((λ eq. false≢true (sym other ∙ (text_eq_iff t.signed_tag tag).1 eq), others), last)
  ]
]

-- The digest is one that was signed for the tag, or empty if none was.
pub get_digest-cases :
    (s : Signature) (tag : Text)
    → Some (λ t. (t.signed_tag ≡ tag) × (t.digest ≡ get_digest s tag)) s.signed_tags
      ⊎ (All (λ t. t.signed_tag ≢ tag) s.signed_tags × (get_digest s tag ≡ []))
unfolding get_digest
get_digest-cases s tag = digest_from-cases tag s.signed_tags [] (get_digest s tag) refl

-- A signer that the policy accepts: the repository's administrator, or one that it names.
abbrev pub Accepted : List Text → Text → Type 0
Accepted policy_signers signer = (signer ≡ repo_admin) ⊎ Some (λ p. p ≡ signer) policy_signers

in_policy_iff :
    (signer : Text) (ps : List Text) → (in_policy signer ps ≡ true) ↔ Some (λ p. p ≡ signer) ps
unfolding in_policy
in_policy_iff signer [] = (λ h. cc, λ h. absurd h)
in_policy_iff signer (p ∷ ps) = ground (arith, text_eq_iff p signer, in_policy_iff signer ps)

signers_match_iff : (ps ss : List Text) → (signers_match ps ss ≡ true) ↔ Some (Accepted ps) ss
unfolding signers_match
signers_match_iff ps [] = (λ h. cc, λ h. absurd h)
signers_match_iff ps (s ∷ ss) =
    ground (arith, text_eq_iff s repo_admin, in_policy_iff s ps, signers_match_iff ps ss)

tags_match_iff :
    (ps : List Text) (ts : List SignedTag)
    → (tags_match ps ts ≡ true) ↔ Some (λ t. Some (Accepted ps) t.signers) ts
unfolding tags_match
tags_match_iff ps [] = (λ h. cc, λ h. absurd h)
tags_match_iff ps (t ∷ ts) = ground (arith, signers_match_iff ps t.signers, tags_match_iff ps ts)

-- A signature matches exactly if some tag of it has a signer that the policy accepts.
pub match_signer_iff :
    (s : Signature) (policy_signers : List Text)
    → (match_signer s policy_signers ≡ true)
      ↔ Some (λ t. Some (Accepted policy_signers) t.signers) s.signed_tags
unfolding match_signer
match_signer_iff s policy_signers = tags_match_iff policy_signers s.signed_tags

signed_tags_of-Some :
    (P : SignedTag → Type 0) (rows : List TrustTagRow)
    → Some P (signed_tags_of rows) ↔ Some (λ r. P (signed_tag_of r)) rows
signed_tags_of-Some P [] = (λ h. h, λ h. h)
signed_tags_of-Some P (r ∷ rows) =
    let (to, from) = signed_tags_of-Some P rows in
    (elim [ inl p ↦ inl p | inr h ↦ inr (to h) ], elim [ inl p ↦ inl p | inr h ↦ inr (from h) ])

signature_of-inv :
    (m : Result TrustRepo) (s : Signature)
    → signature_of m ≡ ok (some s)
    → (r : TrustRepo) × (m ≡ ok r) × (s.signed_tags ≡ signed_tags_of r.signed_tags)
unfolding signature_of
signature_of-inv (err e) s h = absurd (ground arith)
signature_of-inv (ok r) s h = (r, refl, ground arith)

module _ (arrange : List TrustTagRow → List TrustTagRow) (keeps : KeepsRows arrange) where
  -- From the targets of the notary server to the answer: a signature that was made of the metadata of a
  -- tag matches a policy exactly if a released role signed one of the targets, and that tag and digest
  -- shows a signer that the policy accepts: a delegation role that signed it too, or the
  -- administrator if none did.
  pub signature-match_signer :
      (url tag : Text) (repo : Repository) (s : Signature) (policy_signers : List Text)
      → signature_of (get_signed_metadata arrange url repo tag) ≡ ok (some s)
      → (ts : List Target) × (repo.get_all_target_metadata_by_name tag ≡ ok ts)
        × ((match_signer s policy_signers ≡ true)
            ↔ Released (λ r. Some (Accepted policy_signers) r.signers) ts)
  signature-match_signer url tag repo s policy_signers h =
      let (r, fetched, same) = signature_of-inv (get_signed_metadata arrange url repo tag) s h in
      let P = λ (t : SignedTag). Some (Accepted policy_signers) t.signers in
      let (ts, targets, (to, from), _, _) =
        get_signed_metadata-rows arrange keeps (λ row. P (signed_tag_of row)) url tag repo r
          fetched in
      let (down, up) = signed_tags_of-Some P r.signed_tags in
      let (match, unmatch) = match_signer_iff s policy_signers in
      (
        ts,
        targets,
        (
          λ m. to (down (subst (Some P) same (match m))),
          λ d. unmatch (subst (Some P) (sym same) (up (from d))),
        ),
      )
