-- ===== src/Base/Paths.antt =====
-- Package `path` of Go: Clean, and Join of two elements.
use Prim.Native.Nat.{ℕ}
use mathlib.Core.Path.{◌≡◌, refl, ap, ◌∙◌, sym}
use mathlib.Core.Bool.{Bool, true, false, ◌||◌}
use mathlib.Core.List.{List, [], ◌∷◌, ◌++◌, reverse, reverse-cons, append-nil, append_assoc}
use native.Mathlib.Omega.{arith}
use image_validating_webhook.Base.Tests.{nat_eq, if◌then◌else◌}
use image_validating_webhook.Base.Lists.{All}
use image_validating_webhook.Base.Strings.{Text, codes, ◌==◌, is_empty, begins, split, join}
use image_validating_webhook.Base.Splitting.{Lacks, split-append, join-split}

-- What `..` makes of the elements that are kept so far, the latest first.
abbrev climb : Bool → List Text → List Text
climb true [] = []
climb false [] = codes ".." ∷ []
climb rooted (p ∷ kept) = if p == codes ".." then codes ".." ∷ p ∷ kept else kept

abbrev next_kept : Bool → List Text → Text → List Text
next_kept rooted kept p =
    if is_empty p || p == codes "."
    then kept
    else if p == codes ".."
    then climb rooted kept
    else p ∷ kept

kept_parts : Bool → List Text → List Text → List Text
kept_parts rooted kept [] = kept
kept_parts rooted kept (p ∷ ps) = kept_parts rooted (next_kept rooted kept p) ps

abbrev or_dot : Text → Text
or_dot [] = codes "."
or_dot (c ∷ s) = c ∷ s

-- path.Clean
unfoldable pub clean : Text → Text
unfolding kept_parts
clean s =
    let rooted = begins (λ c. nat_eq c b'/') s in
    or_dot (
      (if rooted then b'/' ∷ [] else [])
      ++ join (reverse (kept_parts rooted [] (split s b'/'))) b'/')

-- path.Join of two elements
unfoldable pub path_join : Text → Text → Text
unfolding clean
path_join [] [] = []
path_join [] (c ∷ b) = clean (c ∷ b)
path_join (c ∷ a) b = clean (c ∷ a ++ b'/' ∷ b)

-- An element of a path that has a name.
pub record IsName (p : Text) : Type 0 where
  pub nonempty : is_empty p ≡ false
  pub not_here : (p == codes ".") ≡ false
  pub not_up : (p == codes "..") ≡ false

reverse-kept_parts :
    (rooted : Bool) (kept ps : List Text)
    → All IsName ps
    → reverse (kept_parts rooted kept ps) ≡ reverse kept ++ ps
unfolding kept_parts
reverse-kept_parts rooted kept [] h = sym (append-nil (reverse kept))
reverse-kept_parts rooted kept (p ∷ ps) (h, hs) =
    rw (h.nonempty, h.not_here, h.not_up)
      (reverse-kept_parts rooted (p ∷ kept) ps hs
        ∙ ap (λ l. l ++ ps) (reverse-cons p kept)
        ∙ append_assoc (reverse kept) (p ∷ []) ps)

clean-names :
    (c : ℕ) (s : Text)
    → nat_eq c b'/' ≡ false
    → All IsName (split (c ∷ s) b'/')
    → clean (c ∷ s) ≡ c ∷ s
unfolding clean
clean-names c s other names =
    rw
      (
        other,
        clean,
        reverse-kept_parts false [] (split (c ∷ s) b'/') names,
        join-split (c ∷ s) b'/',
      )
      refl

-- A path whose elements are names is clean.
pub path_join-names :
    (a b : Text)
    → Lacks b'/' a
    → IsName a
    → All IsName (split b b'/')
    → path_join a b ≡ a ++ b'/' ∷ b
unfolding path_join clean
path_join-names [] b l h hs = absurd (ground (arith, h.nonempty))
path_join-names (c ∷ a) b l h hs =
    clean-names c (a ++ b'/' ∷ b) (ground (arith, l)) (rw (split-append (c ∷ a) b b'/' l) (h, hs))
