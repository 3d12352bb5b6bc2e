-- ===== src/ImageRef.antt =====
-- pkg/admissions/pods/whitelist.go: `imageRef`, its printer and its parser over the regular
-- expression `whitelistImageReg`.
pub mod Delimiters
pub mod HostMatch
pub mod TailMatch
pub mod Matching
pub mod Scan
pub mod Equivalence
pub mod Printed
pub mod RoundTrip
pub mod Tests
use image_validating_webhook.Base.{
  ℕ, true, false, List, [], ◌∷◌, ◌++◌, length, get_or, nat_eq, if◌then◌else◌, Text, codes, is_empty,
  trim_space, Result, ok, err, ◌>>=◌,
}
use image_validating_webhook.Regex.{
  Class, char, none_of, one_of, Regex, one, seq, plus, opt, group, literal, find_all_submatch,
}

pub record ImageRef : Type 0 where
  pub host : Text
  pub name : Text
  pub tag : Text
  pub digest : Text

-- `String`: the two `if`s around the host and the tag and the digest write only what is present.
unfoldable pub to_string : ImageRef → Text
to_string r =
    (if is_empty r.host then [] else r.host ++ b'/' ∷ [])
    ++ (r.name
        ++ ((if is_empty r.tag then [] else b':' ∷ r.tag)
            ++ (if is_empty r.digest then [] else b'@' ∷ r.digest)))

-- `[^./]`
abbrev pub not_dot_slash : Class
not_dot_slash = none_of (char b'.' ∷ char b'/' ∷ [])

-- `[^/]`
abbrev pub not_slash : Class
not_slash = none_of (char b'/' ∷ [])

-- `[^:@]`
abbrev pub not_colon_at : Class
not_colon_at = none_of (char b':' ∷ char b'@' ∷ [])

-- `[^@]`
abbrev pub not_at : Class
not_at = none_of (char b'@' ∷ [])

-- `[^:]`
abbrev pub not_colon : Class
not_colon = none_of (char b':' ∷ [])

-- `[0-9a-f]`
abbrev pub hex : Class
hex = one_of ((b'0', b'9') ∷ (b'a', b'f') ∷ [])

-- `(([^./]+)\.([^/])+)`
abbrev pub host_reg : Regex
host_reg =
    group 2 (
      seq (group 3 (plus (one not_dot_slash)))
        (seq (literal b'.') (plus (group 4 (one not_slash)))))

-- `(:([^@]+))?`
abbrev pub tag_reg : Regex
tag_reg = opt (group 6 (seq (literal b':') (group 7 (plus (one not_at)))))

-- `(@([^:]+:[0-9a-f]+))?`
abbrev pub digest_reg : Regex
digest_reg = opt (
    group 8 (
      seq (literal b'@')
        (group 9 (seq (plus (one not_colon)) (seq (literal b':') (plus (one hex)))))))

-- `([^:@]+)(:([^@]+))?(@([^:]+:[0-9a-f]+))?`
abbrev pub name_reg : Regex
name_reg = seq (group 5 (plus (one not_colon_at))) (seq tag_reg digest_reg)

-- `^((([^./]+)\.([^/])+)/)?([^:@]+)(:([^@]+))?(@([^:]+:[0-9a-f]+))?`
abbrev pub whitelist_image_reg : Regex
whitelist_image_reg = seq (opt (group 1 (seq host_reg (literal b'/')))) name_reg

abbrev pub not_right_form : Text
not_right_form = codes "image is not in right form"

abbrev pub name_required : Text
name_required = codes "image name is required"

-- The checks and the trimming of `parseImage`, on what the expression matched.
unfoldable pub ref_of_matched : List (List Text) → Result ImageRef
ref_of_matched (sub ∷ []) =
    if nat_eq (length sub) 10
    then (if is_empty (trim_space (get_or sub 5 []))
        then err name_required
        else ok (record {
          host = trim_space (get_or sub 2 []);
          name = trim_space (get_or sub 5 []);
          tag = trim_space (get_or sub 7 []);
          digest = trim_space (get_or sub 9 []);
        }))
    else err not_right_form
ref_of_matched _ = err not_right_form

-- `parseImage`
unfoldable pub parse_image : Text → Result ImageRef
unfolding ref_of_matched find_all_submatch trim_space
parse_image image = ref_of_matched (find_all_submatch whitelist_image_reg 9 image)

-- `parseImages`: the first image in the wrong form fails the whole list.
unfoldable pub parse_images : List Text → Result (List ImageRef)
parse_images [] = ok []
parse_images (i ∷ images) = do
  ref ← parse_image i
  results ← parse_images images
  ok (ref ∷ results)
