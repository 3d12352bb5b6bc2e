-- ===== src/ImageRef/Printed.antt =====
-- How the scan reads the printed parts of a reference: host, tag and digest.
use image_validating_webhook.Base.{
  ℕ, ◌≡◌, refl, Bool, true, false, some, [], ◌∷◌, ◌++◌, arith, ◌∙◌, ap, sym, if◌then◌else◌, nat_eq,
  Text, begins, take_while, drop_while, inl, inr, ◌⊎◌, is_empty, all, append-nil, append_assoc,
}
use image_validating_webhook.Regex.{Class, in_class}
use image_validating_webhook.ImageRef.{not_dot_slash, not_slash, not_at, not_colon, hex}
use image_validating_webhook.ImageRef.Delimiters.{
  dot_ends_label, slash_ends_domain, colon_ends_algorithm,
}
use image_validating_webhook.ImageRef.Scan.{scan_host, scan_tag, scan_digest}

-- One character at least, and all of the class.
pub record IsRun (c : Class) (s : Text) : Type 0 where
  pub nonempty : is_empty s ≡ false
  pub in_it : all (in_class c) s ≡ true

-- `label.domain`
pub record IsHost (h : Text) : Type 0 where
  pub label : Text
  pub domain : Text
  pub splits : h ≡ label ++ b'.' ∷ domain
  pub label_run : IsRun not_dot_slash label
  pub domain_run : IsRun not_slash domain

-- `algorithm:encoded`
pub record IsDigest (d : Text) : Type 0 where
  pub algorithm : Text
  pub encoded : Text
  pub splits : d ≡ algorithm ++ b':' ∷ encoded
  pub algorithm_run : IsRun not_colon algorithm
  pub encoded_run : IsRun hex encoded

module _ (p : ℕ → Bool) where
  pub take_while-append :
      (u v : Text) → all p u ≡ true → begins p v ≡ false → take_while p (u ++ v) ≡ u
  take_while-append [] [] h k = refl
  take_while-append [] (x ∷ v) h k = rw k
  take_while-append (x ∷ u) v h k = ground (arith, take_while-append u v)

  pub drop_while-append :
      (u v : Text) → all p u ≡ true → begins p v ≡ false → drop_while p (u ++ v) ≡ v
  drop_while-append [] [] h k = refl
  drop_while-append [] (x ∷ v) h k = rw k
  drop_while-append (x ∷ u) v h k = ground (arith, drop_while-append u v)

  pub begins-append : (u v : Text) → is_empty u ≡ false → all p u ≡ true → begins p (u ++ v) ≡ true
  begins-append [] v e h = cc
  begins-append (x ∷ u) v e h = ground arith

take_while-run : (c : Class) (u : Text) → IsRun c u → take_while (in_class c) u ≡ u
take_while-run c u i =
    sym (ap (take_while (in_class c)) (append-nil u))
    ∙ take_while-append (in_class c) u [] i.in_it refl

begins-run : (c : Class) (u : Text) → IsRun c u → begins (in_class c) u ≡ true
begins-run c u i =
    sym (ap (begins (in_class c)) (append-nil u))
    ∙ begins-append (in_class c) u [] i.nonempty i.in_it

abbrev pub tag_text : Text → Text
tag_text t = if is_empty t then [] else b':' ∷ t

abbrev pub digest_text : Text → Text
digest_text d = if is_empty d then [] else b'@' ∷ d

scan_host-parts :
    (a b t : Text)
    → IsRun not_dot_slash a
    → IsRun not_slash b
    → scan_host (a ++ b'.' ∷ (b ++ b'/' ∷ t)) ≡ some (a ++ b'.' ∷ b, t)
unfolding scan_host
scan_host-parts a b t i j = rw (
  begins-append (in_class not_dot_slash) a (b'.' ∷ (b ++ b'/' ∷ t)) i.nonempty i.in_it,
  drop_while-append (in_class not_dot_slash) a (b'.' ∷ (b ++ b'/' ∷ t)) i.in_it dot_ends_label,
  take_while-append (in_class not_dot_slash) a (b'.' ∷ (b ++ b'/' ∷ t)) i.in_it dot_ends_label,
  begins-append (in_class not_slash) b (b'/' ∷ t) j.nonempty j.in_it,
  drop_while-append (in_class not_slash) b (b'/' ∷ t) j.in_it slash_ends_domain,
  take_while-append (in_class not_slash) b (b'/' ∷ t) j.in_it slash_ends_domain,
)

pub scan_host-print : (h t : Text) → IsHost h → scan_host (h ++ b'/' ∷ t) ≡ some (h, t)
scan_host-print h t i =
    rw (i.splits, append_assoc) (scan_host-parts i.label i.domain t i.label_run i.domain_run)

scan_tag-run :
    (t d : Text)
    → IsRun not_at t
    → begins (in_class not_at) d ≡ false
    → scan_tag (b':' ∷ (t ++ d)) ≡ (t, d)
unfolding scan_tag
scan_tag-run t d i e = rw (
  begins-append (in_class not_at) t d i.nonempty i.in_it,
  take_while-append (in_class not_at) t d i.in_it e,
  drop_while-append (in_class not_at) t d i.in_it e,
)

pub scan_tag-print :
    (t d : Text)
    → all (in_class not_at) t ≡ true
    → begins (in_class not_at) d ≡ false
    → begins (nat_eq b':') d ≡ false
    → scan_tag (tag_text t ++ d) ≡ (t, d)
unfolding scan_tag
scan_tag-print [] d h e c = rw c
scan_tag-print (x ∷ t) d h e c = scan_tag-run (x ∷ t) d (record { nonempty = refl; in_it = h }) e

scan_digest-parts :
    (a e : Text)
    → IsRun not_colon a
    → IsRun hex e
    → scan_digest (b'@' ∷ (a ++ b':' ∷ e)) ≡ a ++ b':' ∷ e
unfolding scan_digest
scan_digest-parts a e i j = rw (
  begins-append (in_class not_colon) a (b':' ∷ e) i.nonempty i.in_it,
  drop_while-append (in_class not_colon) a (b':' ∷ e) i.in_it colon_ends_algorithm,
  take_while-append (in_class not_colon) a (b':' ∷ e) i.in_it colon_ends_algorithm,
  begins-run hex e j,
  take_while-run hex e j,
)

digest_text_of_parts : (a e : Text) → digest_text (a ++ b':' ∷ e) ≡ b'@' ∷ (a ++ b':' ∷ e)
digest_text_of_parts [] e = refl
digest_text_of_parts (x ∷ a) e = refl

pub scan_digest-print : (d : Text) → (d ≡ []) ⊎ IsDigest d → scan_digest (digest_text d) ≡ d
unfolding scan_digest
scan_digest-print d (inl e) = rw e
scan_digest-print d (inr i) =
    rw (i.splits, digest_text_of_parts)
      (scan_digest-parts i.algorithm i.encoded i.algorithm_run i.encoded_run)

-- What follows the name begins with `:` or `@`, if with anything.
pub tail-begins :
    (c : Class) (t d : Text)
    → in_class c b':' ≡ false
    → in_class c b'@' ≡ false
    → begins (in_class c) (tag_text t ++ digest_text d) ≡ false
tail-begins c [] [] h k = refl
tail-begins c [] (x ∷ d) h k = k
tail-begins c (y ∷ t) d h k = h

pub digest-begins :
    (c : Class) (d : Text) → in_class c b'@' ≡ false → begins (in_class c) (digest_text d) ≡ false
digest-begins c [] k = refl
digest-begins c (x ∷ d) k = k

pub digest-begins_no_colon : (d : Text) → begins (nat_eq b':') (digest_text d) ≡ false
digest-begins_no_colon [] = refl
digest-begins_no_colon (x ∷ d) = refl
