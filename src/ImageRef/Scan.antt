-- ===== src/ImageRef/Scan.antt =====
-- `parseImage` without the regular expression: one scan from left to right, which goes back only
-- if no name follows the host.
use mathlib.Core.List.{tail}
use image_validating_webhook.Base.{
  Option, none, some, [], ◌∷◌, ◌++◌, if◌then◌else◌, nat_eq, Text, begins, take_while, drop_while,
  ◌&&◌, is_empty, trim_space, Result, ok, err,
}
use image_validating_webhook.Regex.{in_class}
use image_validating_webhook.ImageRef.{
  ImageRef, not_dot_slash, not_slash, not_colon_at, not_at, not_colon, hex, name_required,
}

-- A host and the text behind its slash: the text up to the first `/`, if it has a `.` that is not
-- its first character, nor its last.
unfoldable pub scan_host : Text → Option (Text × Text)
scan_host s =
    let behind_label = drop_while (in_class not_dot_slash) s in
    let behind_domain = drop_while (in_class not_slash) (tail behind_label) in
    if begins (in_class not_dot_slash) s
      && begins (nat_eq b'.') behind_label
      && begins (in_class not_slash) (tail behind_label)
      && begins (nat_eq b'/') behind_domain
    then some (
      take_while (in_class not_dot_slash) s
          ++ b'.' ∷ take_while (in_class not_slash) (tail behind_label),
      tail behind_domain,
    )
    else none

-- `:` and a tag: the tag and the text behind it.
unfoldable pub scan_tag : Text → Text × Text
scan_tag s =
    if begins (nat_eq b':') s && begins (in_class not_at) (tail s)
    then (take_while (in_class not_at) (tail s), drop_while (in_class not_at) (tail s))
    else ([], s)

-- `@`, an algorithm, `:` and hexadecimal digits; what follows them is not looked at.
unfoldable pub scan_digest : Text → Text
scan_digest s =
    let behind_algorithm = drop_while (in_class not_colon) (tail s) in
    if begins (nat_eq b'@') s
      && begins (in_class not_colon) (tail s)
      && begins (nat_eq b':') behind_algorithm
      && begins (in_class hex) (tail behind_algorithm)
    then take_while (in_class not_colon) (tail s)
      ++ b':' ∷ take_while (in_class hex) (tail behind_algorithm)
    else []

-- A name, and a tag and a digest behind it.
unfoldable pub scan_name : Text → Text → Option ImageRef
unfolding scan_tag scan_digest
scan_name host s =
    if begins (in_class not_colon_at) s
    then some (record {
      host = host;
      name = take_while (in_class not_colon_at) s;
      tag = (scan_tag (drop_while (in_class not_colon_at) s)).0;
      digest = scan_digest (scan_tag (drop_while (in_class not_colon_at) s)).1;
    })
    else none

-- With the host if a name follows it, else without.
abbrev pub scan_behind : Text → Option (Text × Text) → Option ImageRef
scan_behind s none = scan_name [] s
scan_behind s (some (host, rest)) = elim (scan_name host rest) [
  | some r ↦ some r
  | none ↦ scan_name [] s
]

unfoldable pub scan : Text → Option ImageRef
scan s = scan_behind s (scan_host s)

-- The parts trimmed; a name of spaces only is refused.
unfoldable pub trimmed : ImageRef → Result ImageRef
trimmed r =
    if is_empty (trim_space r.name)
    then err name_required
    else ok (record {
      host = trim_space r.host;
      name = trim_space r.name;
      tag = trim_space r.tag;
      digest = trim_space r.digest;
    })
