-- ===== src/ImageRef/TailMatch.antt =====
-- What the tag's and the digest's part of `whitelistImageReg` match.
use mathlib.Core.List.{tail}
use image_validating_webhook.Base.{
  ◌≡◌, refl, Option, none, some, arith, if◌then◌else◌, nat_eq, Text, begins, ◌&&◌,
}
use image_validating_webhook.Regex.{
  literal, one, plus, in_class, Match, Next, match_then, after, capture, empty_at,
}
use image_validating_webhook.Regex.Pieces.{
  run, char_at, match-literal, match-plus_delimited, match-plus_greedy, literal-Declines,
}
use image_validating_webhook.ImageRef.{not_at, not_colon, hex, tag_reg, digest_reg}
use image_validating_webhook.ImageRef.Delimiters.{colon_ends_algorithm}

abbrev pub algorithm : Text → Match
algorithm s = run not_colon (tail s)

abbrev pub encoded : Text → Match
encoded s = run hex (tail (algorithm s).rest)

abbrev pub whole_digest : Match → Match → Match → Match → Match
whole_digest m n o q = capture 8 (after m (capture 9 (after n (after o q))))

-- The digest with its `@`; an empty match where there is none.
unfoldable pub digest_match : Text → Match
digest_match s =
    if begins (nat_eq b'@') s
      && begins (in_class not_colon) (tail s)
      && begins (nat_eq b':') (algorithm s).rest
      && begins (in_class hex) (tail (algorithm s).rest)
    then whole_digest (char_at b'@' s) (algorithm s) (char_at b':' (algorithm s).rest) (encoded s)
    else empty_at s

-- The tag with its `:`; an empty match where there is none.
unfoldable pub tag_match : Text → Match
tag_match s =
    if begins (nat_eq b':') s && begins (in_class not_at) (tail s)
    then capture 6 (after (char_at b':' s) (capture 7 (run not_at (tail s))))
    else empty_at s

module _ {A : Type 0} (g : Match → A) where
  abbrev hex_then : Match → Match → Match → Option A
  hex_then m n o = match_then (plus (one hex)) o.rest (λ q. some (g (whole_digest m n o q)))

  abbrev colon_then : Match → Next A
  colon_then m n = match_then (literal b':') n.rest (hex_then m n)

  abbrev algorithm_then : Next A
  algorithm_then m = match_then (plus (one not_colon)) m.rest (colon_then m)

  match-digest_steps :
      (s : Text)
      → match_then digest_reg s (λ m. some (g m))
        ≡ elim (match_then (literal b'@') s algorithm_then) [
          | some a ↦ some a
          | none ↦ some (g (empty_at s))
        ]
  unfolding match_then
  match-digest_steps s = refl

  pub match-digest :
      (s : Text) → match_then digest_reg s (λ m. some (g m)) ≡ some (g (digest_match s))
  unfolding digest_match
  match-digest s =
      let m = char_at b'@' s in
      let n = algorithm s in
      let o = char_at b':' n.rest in
      ground (
        arith,
        match-digest_steps s,
        match-literal b'@' s algorithm_then,
        match-plus_delimited not_colon (tail s) (colon_then m)
            (literal-Declines not_colon b':' (hex_then m) colon_ends_algorithm),
        match-literal b':' n.rest (hex_then m n),
        match-plus_greedy hex (tail n.rest) (λ q. g (whole_digest m n o q)),
      )

  match-tag_steps :
      (s : Text)
      → match_then tag_reg s (λ m. some (g m))
        ≡ elim (match_then (literal b':') s (λ m.
          match_then
            (plus (one not_at))
            m.rest
            (λ n. some (g (capture 6 (after m (capture 7 n))))))) [
              | some a ↦ some a
              | none ↦ some (g (empty_at s))
            ]
  unfolding match_then
  match-tag_steps s = refl

  pub match-tag : (s : Text) → match_then tag_reg s (λ m. some (g m)) ≡ some (g (tag_match s))
  unfolding tag_match
  match-tag s =
      let m = char_at b':' s in
      ground (
        arith,
        match-tag_steps s,
        match-literal b':' s (λ m.
            match_then (plus (one not_at)) m.rest
              (λ n. some (g (capture 6 (after m (capture 7 n)))))),
        match-plus_greedy not_at (tail s) (λ n. g (capture 6 (after m (capture 7 n)))),
      )
