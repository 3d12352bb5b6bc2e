-- ===== src/ImageRef/Equivalence.antt =====
-- The parser by the regular expression reads every text as the scan does.
use mathlib.Core.List.{tail}
use image_validating_webhook.Base.{
  ℕ, ◌≡◌, refl, false, Option, none, some, List, [], ◌∷◌, ◌++◌, arith, ◌∙◌, ap, sym, nat_eq, Text,
  take_while, Result, err, append-nil, append_assoc,
}
use image_validating_webhook.Regex.{in_class, captured, empty_at, Match, groups}
use image_validating_webhook.Regex.Greedy.{caps}
use image_validating_webhook.Regex.Pieces.{captures_each}
use image_validating_webhook.ImageRef.{
  ImageRef, not_slash, parse_image, ref_of_matched, not_right_form,
}
use image_validating_webhook.ImageRef.HostMatch.{host_match, label}
use image_validating_webhook.ImageRef.TailMatch.{tag_match, digest_match}
use image_validating_webhook.ImageRef.Matching.{image_match, name_at, match-image}
use image_validating_webhook.ImageRef.Scan.{scan, scan_host, scan_name, scan_behind, trimmed}

-- The reference that a match stands for.
abbrev ref_of : Match → ImageRef
ref_of m = record {
  host = captured 2 m.captures;
  name = captured 5 m.captures;
  tag = captured 7 m.captures;
  digest = captured 9 m.captures;
}

abbrev accept : Option ImageRef → Result ImageRef
accept none = err not_right_form
accept (some r) = trimmed r

abbrev refs_of : Option Match → Option ImageRef
refs_of none = none
refs_of (some m) = some (ref_of m)

abbrev read_match : Option Match → Result ImageRef
read_match o =
    ref_of_matched (elim o [ none ↦ [] | some m ↦ (m.text ∷ groups 1 9 m.captures) ∷ [] ])

submatch-accept : (o : Option Match) → read_match o ≡ accept (refs_of o)
unfolding ref_of_matched trimmed groups
submatch-accept none = refl
submatch-accept (some m) = refl

parse-accept : (s : Text) → parse_image s ≡ accept (refs_of (image_match s))
unfolding parse_image
parse-accept s = ap read_match (match-image s) ∙ submatch-accept (image_match s)

captured-captures_each :
    (n m : ℕ) (s : Text) (cs : List (ℕ × Text))
    → nat_eq m n ≡ false
    → captured n (caps (captures_each m) s ++ cs) ≡ captured n cs
unfolding captured
captured-captures_each n m [] cs h = refl
captured-captures_each n m (x ∷ s) cs h =
    rw append_assoc (captured-captures_each n m s ((m, x ∷ []) ∷ cs) h ∙ rw h)

name_at-scan :
    (m : Match)
    → captured 7 m.captures ≡ []
    → captured 9 m.captures ≡ []
    → refs_of (name_at m) ≡ scan_name (captured 2 m.captures) m.rest
unfolding scan_name captured tag_match digest_match
name_at-scan m seven nine = ground arith

abbrev host_of : Option Match → Option (Text × Text)
host_of none = none
host_of (some m) = some (captured 2 m.captures, m.rest)

-- What the host's match says in the scan.
host_match-scan : (s : Text) → scan_host s ≡ host_of (host_match s)
unfolding scan_host host_match captured
host_match-scan s = ground arith

host_match-captured :
    (n : ℕ) (s : Text) (m : Match)
    → host_match s ≡ some m
    → nat_eq 1 n ≡ false
    → nat_eq 2 n ≡ false
    → nat_eq 3 n ≡ false
    → nat_eq 4 n ≡ false
    → captured n m.captures ≡ []
unfolding host_match captured
host_match-captured n s m e h1 h2 h3 h4 = ground (
  arith,
  append-nil (caps (captures_each 4) (take_while (in_class not_slash) (tail (label s).rest))),
  captured-captures_each n 4 (take_while (in_class not_slash) (tail (label s).rest))
      ((3, (label s).text) ∷ []),
)

behind_host :
    (s : Text) (m : Match)
    → captured 7 m.captures ≡ []
    → captured 9 m.captures ≡ []
    → refs_of (elim (name_at m) [ some a ↦ some a | none ↦ name_at (empty_at s) ])
      ≡ scan_behind s (some (captured 2 m.captures, m.rest))
unfolding captured
behind_host s m seven nine =
    ground (arith, name_at-scan m seven nine, name_at-scan (empty_at s) refl refl)

with_host-scan :
    (s : Text) (o : Option Match)
    → host_match s ≡ o
    → refs_of (elim o [
      | none ↦ name_at (empty_at s)
      | some m ↦ elim (name_at m) [ some a ↦ some a | none ↦ name_at (empty_at s) ]
    ])
      ≡ scan s
unfolding scan captured
with_host-scan s none e =
    name_at-scan (empty_at s) refl refl
    ∙ ap (scan_behind s) (sym (host_match-scan s ∙ ap host_of e))
with_host-scan s (some m) e =
    behind_host s m (host_match-captured 7 s m e refl refl refl refl)
      (host_match-captured 9 s m e refl refl refl refl)
    ∙ ap (scan_behind s) (sym (host_match-scan s ∙ ap host_of e))

-- For every text, the parser by the regular expression gives what the scan gives, trimmed: the
-- same reference, or the same error.
pub parse_image-scan :
    (s : Text) → parse_image s ≡ elim (scan s) [ none ↦ err not_right_form | some r ↦ trimmed r ]
parse_image-scan s = parse-accept s ∙ ap accept (with_host-scan s (host_match s) refl)
