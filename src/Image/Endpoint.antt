-- ===== src/Image/Endpoint.antt =====
-- pkg/image/image.go: which registry server `setImage` chooses.
use image_validating_webhook.Base.{
  ◌≡◌, ◌≢◌, ◌⊎◌, ◌∙◌, refl, sym, ap, subst, inl, inr, true, false, not, ◌&&◌, Bool-cases, ◌++◌,
  arith, Text, codes, ◌==◌, text_eq_iff, text_eq_refl, if◌then◌else◌, has_prefix, contains, Result,
  ok, err, Result-cases,
}
use image_validating_webhook.Image.{
  Image, References, default_server, default_server_host_name, is_default_server_domain,
  set_server_url, set_domain, set_parts, resolved, named_on_server, on_default, elsewhere,
  normalized_named, set_image, is_valid_domain,
}

-- The URL of a domain's server.
abbrev pub with_scheme : Text → Text
with_scheme url =
    if not (has_prefix url (codes "https://")) && not (has_prefix url (codes "http://"))
    then codes "https://" ++ url
    else url

-- The domain is taken to be Docker Hub.
abbrev pub IsHub : Text → Type 0
IsHub domain = (is_default_server_domain domain ≡ true) ⊎ (contains default_server domain ≡ true)

contains_itself : contains default_server default_server ≡ true
unfolding contains
contains_itself = refl

contains_host : contains default_server default_server_host_name ≡ true
unfolding contains
contains_host = refl

scheme_injective :
    (d : Text) → codes "https://" ++ d ≡ default_server → d ≡ default_server_host_name
scheme_injective d e = cc

with_scheme-other : (d : Text) → contains default_server d ≡ false → with_scheme d ≢ default_server
with_scheme-other d outside e =
    elim (Bool-cases
      (not (has_prefix d (codes "https://")) && not (has_prefix d (codes "http://")))) [
        | inl bare ↦
            let host = scheme_injective d (rw bare at e) in
            absurd (ground (arith, contains_host, ap (contains default_server) host))
        | inr schemed ↦
            let same : d ≡ default_server = rw schemed at e in
            absurd (ground (arith, contains_itself, ap (contains default_server) same))
      ]

set_domain-hub :
    (r : Image) (d : Text) → r.server_url ≡ default_server → IsHub d → set_domain r d ≡ r
unfolding set_domain is_valid_domain
set_domain-hub r d at (inl known) = rw (known, at, contains_itself) refl
set_domain-hub r d at (inr inside) = elim (Bool-cases (is_default_server_domain d)) [
  | inl known ↦ rw (known, at, contains_itself) refl
  | inr unknown ↦ rw (unknown, at, inside) refl
]

set_domain-other :
    (r : Image) (d : Text)
    → r.server_url ≡ default_server
    → is_default_server_domain d ≡ false
    → contains default_server d ≡ false
    → set_domain r d ≡ record r { server_url = with_scheme d }
unfolding set_domain is_valid_domain set_server_url
set_domain-other r d at unknown outside = rw (unknown, at, outside) refl

differing : {a b : Text} → a ≢ b → (a == b) ≡ false
differing {a} {b} d = ground (arith, text_eq_iff a b)

ok_injective : {A : Type 0} {a b : A} → ◌≡◌ {A = Result A} (ok a) (ok b) → a ≡ b
ok_injective e = cc

module _ {Named : Type 0} (reference : References Named) where
  -- The image is taken from Docker Hub: it does not parse as it stands, or its domain is taken to be that.
  abbrev pub OnHub : Text → Type 0
  OnHub image = (img : Named) → reference.parse_named image ≡ ok img → IsHub (reference.domain img)

  -- The image is taken from the server of its domain.
  pub record Elsewhere (image : Text) (img : Named) : Type 0 where
    pub parsed : reference.parse_named image ≡ ok img
    pub unknown : is_default_server_domain (reference.domain img) ≡ false
    pub outside : contains default_server (reference.domain img) ≡ false

  resolved_hub :
      (r : Image) (image : Text) (img : Named)
      → r.server_url ≡ default_server
      → reference.parse_named image ≡ ok img
      → IsHub (reference.domain img)
      → OnHub image × (resolved reference r (reference.parse_named image) ≡ r)
  resolved_hub r image img at parsed hub = (
    λ other same. subst (λ i. IsHub (reference.domain i)) (ok_injective (sym parsed ∙ same)) hub,
    rw parsed (set_domain-hub r (reference.domain img) at hub),
  )

  resolved-cases :
      (r : Image) (image : Text)
      → r.server_url ≡ default_server
      → (OnHub image × (resolved reference r (reference.parse_named image) ≡ r))
        ⊎ ((img : Named) × Elsewhere image img
            × (resolved reference r (reference.parse_named image)
                ≡ record r { server_url = with_scheme (reference.domain img) }))
  resolved-cases r image at = elim (Result-cases (reference.parse_named image)) [
    | inr (e, bad) ↦ inl ((λ img parsed. absurd (ground arith)), rw bad refl)
    | inl (img, parsed) ↦ elim (Bool-cases (is_default_server_domain (reference.domain img))) [
      | inl known ↦ inl (resolved_hub r image img at parsed (inl known))
      | inr unknown ↦ elim (Bool-cases (contains default_server (reference.domain img))) [
        | inl inside ↦ inl (resolved_hub r image img at parsed (inr inside))
        | inr outside ↦ inr (
          img,
          record { parsed = parsed; unknown = unknown; outside = outside },
          rw parsed (set_domain-other r (reference.domain img) at unknown outside),
        )
      ]
    ]
  ]

  named_on_server-parsed :
      (r : Image) (image : Text) (img : Named)
      → reference.parse_named image ≡ ok img
      → named_on_server reference r image ≡ ok img
  unfolding named_on_server
  named_on_server-parsed r image img parsed = rw (parsed, named_on_server) refl

  abbrev pub fresh : Image → Image
  fresh old = record old { server_url = default_server }

  -- What `setImage` does, by the server.
  pub set_image-cases :
      (old : Image) (image : Text)
      → (OnHub image
          × (set_image reference old image
              ≡ on_default reference (fresh old) (normalized_named reference image)))
        ⊎ ((img : Named) × Elsewhere image img
            × (set_image reference old image
                ≡ elsewhere reference
                    (record old { server_url = with_scheme (reference.domain img) })
                    (ok img)))
  unfolding set_image
  set_image-cases old image = elim (resolved-cases (fresh old) image refl) [
    | inl (hub, same) ↦ inl (hub, rw (same, set_image, text_eq_refl default_server) refl)
    | inr (img, other, same) ↦ inr (
      img,
      other,
      rw
          (
            same,
            set_image,
            differing (with_scheme-other (reference.domain img) other.outside),
            named_on_server-parsed (record old { server_url = with_scheme (reference.domain img) })
                image img other.parsed,
          )
          refl,
    )
  ]

  set_parts-server :
      (r s : Image) (img : Named) → set_parts reference r img ≡ ok s → s.server_url ≡ r.server_url
  unfolding set_parts
  set_parts-server r s img e = ground arith

  on_default-server :
      (r s : Image) (parsed : Result Named)
      → on_default reference r parsed ≡ ok s
      → s.server_url ≡ r.server_url
  on_default-server r s (ok img) e = set_parts-server _ s img e
  on_default-server r s (err f) e = absurd (ground arith)

  -- An image that `setImage` accepts is taken from Docker Hub exactly if it does not parse as it stands, or its domain
  -- is a name of Docker Hub, or any part of the text "https://registry-1.docker.io"; otherwise it is taken
  -- from its domain, by HTTPS unless that has a scheme.
  pub set_image-server :
      (old s : Image) (image : Text)
      → set_image reference old image ≡ ok s
      → (OnHub image × (s.server_url ≡ default_server))
        ⊎ ((img : Named) × Elsewhere image img
            × (s.server_url ≡ with_scheme (reference.domain img))
            × (s.server_url ≢ default_server))
  set_image-server old s image accepted = elim (set_image-cases old image) [
    | inl (hub, e) ↦
        inl (
          hub,
          on_default-server (fresh old) s (normalized_named reference image) (sym e ∙ accepted),
        )
    | inr (img, other, e) ↦
        let there = set_parts-server _ s img (sym e ∙ accepted) in
        inr (
          img,
          other,
          there,
          λ at. with_scheme-other (reference.domain img) other.outside (sym there ∙ at),
        )
  ]
