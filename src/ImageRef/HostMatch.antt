-- ===== src/ImageRef/HostMatch.antt =====
-- What the host's part of `whitelistImageReg` matches, with the slash behind it.
use mathlib.Core.List.{tail}
use image_validating_webhook.Base.{
  ◌≡◌, refl, Option, none, some, arith, if◌then◌else◌, nat_eq, Text, begins,
}
use image_validating_webhook.Regex.{
  literal, one, plus, group, seq, in_class, Match, Next, match_then, after, capture,
}
use image_validating_webhook.Regex.Greedy.{full}
use image_validating_webhook.Regex.Pieces.{
  run, char_at, captures_each, match-literal, match-plus_delimited, match-plus_group_delimited,
  literal-Declines,
}
use image_validating_webhook.ImageRef.{not_dot_slash, not_slash, host_reg}
use image_validating_webhook.ImageRef.Delimiters.{dot_ends_label, slash_ends_domain}

abbrev pub label : Text → Match
label s = run not_dot_slash s

abbrev pub domain : Text → Match
domain s = full (in_class not_slash) (captures_each 4) (tail (label s).rest)

abbrev pub whole_host : Match → Match → Match → Match → Match
whole_host m n o q = capture 1 (after (capture 2 (after (capture 3 m) (after n o))) q)

-- The host with its slash, if the text begins with one.
unfoldable pub host_match : Text → Option Match
host_match s =
    if begins (in_class not_dot_slash) s
    then if begins (nat_eq b'.') (label s).rest
      then if begins (in_class not_slash) (tail (label s).rest)
        then if begins (nat_eq b'/') (domain s).rest
          then some (
              whole_host (label s) (char_at b'.' (label s).rest) (domain s)
                (char_at b'/' (domain s).rest))
          else none
        else none
      else none
    else none

module _ {A : Type 0} (k : Next A) where
  abbrev slash_then : Match → Match → Next A
  slash_then m n o = match_then (literal b'/') o.rest (λ q. k (whole_host m n o q))

  abbrev domain_then : Match → Next A
  domain_then m n = match_then (plus (group 4 (one not_slash))) n.rest (slash_then m n)

  abbrev dot_then : Next A
  dot_then m = match_then (literal b'.') m.rest (domain_then m)

  match-host_steps :
      (s : Text)
      → match_then (group 1 (seq host_reg (literal b'/'))) s k
        ≡ match_then (plus (one not_dot_slash)) s dot_then
  unfolding match_then
  match-host_steps s = refl

  pub match-host :
      (s : Text)
      → match_then (group 1 (seq host_reg (literal b'/'))) s k
        ≡ elim (host_match s) [ none ↦ none | some m ↦ k m ]
  unfolding host_match
  match-host s =
      let n = char_at b'.' (label s).rest in
      ground (
        arith,
        match-host_steps s,
        match-plus_delimited not_dot_slash s dot_then
            (literal-Declines not_dot_slash b'.' domain_then dot_ends_label),
        match-literal b'.' (label s).rest (domain_then (label s)),
        match-plus_group_delimited 4 not_slash (tail (label s).rest) (slash_then (label s) n) (
            literal-Declines not_slash b'/' (λ o q. k (whole_host (label s) n o q))
              slash_ends_domain),
        match-literal b'/' (domain s).rest (λ q. k (whole_host (label s) n (domain s) q)),
      )
