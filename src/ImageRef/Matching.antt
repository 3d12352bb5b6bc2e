-- ===== src/ImageRef/Matching.antt =====
-- What the whole of `whitelistImageReg` matches.
use mathlib.Core.Path.{fun_ext}
use image_validating_webhook.Base.{
  ◌≡◌, refl, Option, none, some, arith, ◌∙◌, ap, if◌then◌else◌, Text, begins,
}
use image_validating_webhook.Regex.{
  literal, one, plus, group, seq, in_class, Match, match_then, after, capture, empty_at,
}
use image_validating_webhook.Regex.Pieces.{run, match-plus_greedy}
use image_validating_webhook.ImageRef.{
  not_colon_at, host_reg, tag_reg, digest_reg, name_reg, whitelist_image_reg,
}
use image_validating_webhook.ImageRef.HostMatch.{host_match, match-host}
use image_validating_webhook.ImageRef.TailMatch.{tag_match, digest_match, match-tag, match-digest}

-- What a tag's match and the digest behind it make together.
abbrev pub with_digest : Match → Match
with_digest t = after t (digest_match t.rest)

abbrev pub name_match : Text → Match
name_match s = let n = capture 5 (run not_colon_at s) in after n (with_digest (tag_match n.rest))

module _ {A : Type 0} (g : Match → A) where
  match-tag_digest :
      (m : Match)
      → match_then tag_reg m.rest
          (λ t. match_then digest_reg t.rest λ d. some (g (after m (after t d))))
        ≡ some (g (after m (with_digest (tag_match m.rest))))
  match-tag_digest m =
      ap (match_then tag_reg m.rest)
        (fun_ext λ t. match-digest (λ d. g (after m (after t d))) t.rest)
      ∙ match-tag (λ t. g (after m (with_digest t))) m.rest

  match-name_steps :
      (s : Text)
      → match_then name_reg s (λ m. some (g m))
        ≡ match_then (plus (one not_colon_at)) s (λ m.
          match_then tag_reg m.rest
            (λ t. match_then digest_reg t.rest λ d. some (g (after (capture 5 m) (after t d)))))
  unfolding match_then
  match-name_steps s = refl

  match-name :
      (s : Text)
      → match_then name_reg s (λ m. some (g m))
        ≡ (if begins (in_class not_colon_at) s then some (g (name_match s)) else none)
  match-name s =
      match-name_steps s
      ∙ ap (match_then (plus (one not_colon_at)) s) (fun_ext λ m. match-tag_digest (capture 5 m))
      ∙ match-plus_greedy not_colon_at s
          (λ m. g (after (capture 5 m) (with_digest (tag_match m.rest))))

-- The match of the name and what follows it, behind a match of the host.
abbrev pub name_at : Match → Option Match
name_at m =
    if begins (in_class not_colon_at) m.rest then some (after m (name_match m.rest)) else none

-- The whole expression: with the host if a name follows it, else without.
abbrev pub image_match : Text → Option Match
image_match s = elim (host_match s) [
  | none ↦ name_at (empty_at s)
  | some m ↦ elim (name_at m) [ some a ↦ some a | none ↦ name_at (empty_at s) ]
]

match-image_steps :
    (s : Text)
    → match_then whitelist_image_reg s some
      ≡ elim (match_then
          (group 1 (seq host_reg (literal b'/')))
          s
          (λ m. match_then name_reg m.rest λ n. some (after m n))) [
            | some a ↦ some a
            | none ↦ match_then name_reg s (λ n. some (after (empty_at s) n))
          ]
unfolding match_then
match-image_steps s = refl

with_or_without_host :
    (s : Text) (host : Option Match)
    → ◌≡◌ {A = Option Match}
        (elim (elim host as (λ _. Option Match) [
          | none ↦ none
          | some m ↦ match_then name_reg m.rest λ n. some (after m n)
        ])
          as (λ _. Option Match) [
            | some a ↦ some a
            | none ↦ match_then name_reg s (λ n. some (after (empty_at s) n))
          ])
        (elim host [
          | none ↦ name_at (empty_at s)
          | some m ↦ elim (name_at m) [ some a ↦ some a | none ↦ name_at (empty_at s) ]
        ])
with_or_without_host s none = match-name (after (empty_at s)) s
with_or_without_host s (some m) =
    ground (arith, match-name (after m) m.rest, match-name (after (empty_at s)) s)

pub match-image : (s : Text) → match_then whitelist_image_reg s some ≡ image_match s
match-image s = match-image_steps s ∙ rw match-host (with_or_without_host s (host_match s))
