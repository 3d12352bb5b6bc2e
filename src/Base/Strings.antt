-- ===== src/Base/Strings.antt =====
-- Go strings, as lists of code points, and the functions of package `strings` that the source
-- calls: Split at one character, Join, TrimSpace, HasPrefix, TrimPrefix and Contains.
use Prim.Native.Nat.{ℕ}
use Prim.Native.Char.{code}
use Prim.Native.String.{String}
use mathlib.Core.Path.{◌≡◌, refl}
use mathlib.Core.Bool.{Bool, true, false, ◌&&◌, ◌||◌}
use mathlib.Core.Logic.{◌↔◌, ◌⊎◌, inl, inr}
use mathlib.Core.List.{List, [], ◌∷◌, ◌++◌, reverse}
use native.Mathlib.Omega.{arith}
use image_validating_webhook.Base.Tests.{ltb, leb, nat_eq, if◌then◌else◌}

abbrev pub Text : Type 0
Text = List ℕ

-- The code points of a literal.
abbrev pub codes : String → Text
codes String.[] = []
codes (String.◌∷◌ c s) = code c ∷ codes s

infix 50 ◌==◌
unfoldable pub ◌==◌ : Text → Text → Bool
[] == [] = true
[] == (_ ∷ _) = false
(_ ∷ _) == [] = false
(a ∷ s) == (b ∷ t) = nat_eq a b && s == t

-- `s < t` on strings: byte order, which is the order of the code points in UTF-8.
unfoldable pub text_less : Text → Text → Bool
text_less s [] = false
text_less [] (_ ∷ _) = true
text_less (a ∷ s) (b ∷ t) = ltb a b || (nat_eq a b && text_less s t)

abbrev pub is_empty : Text → Bool
is_empty [] = true
is_empty (_ ∷ _) = false

-- unicode.IsSpace
unfoldable pub is_space : ℕ → Bool
is_space c =
    (leb 9 c && leb c 13)
    || nat_eq c 32
    || nat_eq c 0x85
    || nat_eq c 0xa0
    || nat_eq c 0x1680
    || (leb 0x2000 c && leb c 0x200a)
    || nat_eq c 0x2028
    || nat_eq c 0x2029
    || nat_eq c 0x202f
    || nat_eq c 0x205f
    || nat_eq c 0x3000

unfoldable pub trim_left : Text → Text
trim_left [] = []
trim_left (c ∷ s) = let rest = trim_left s in if is_space c then rest else c ∷ s

-- strings.TrimSpace
unfoldable pub trim_space : Text → Text
unfolding trim_left
trim_space s = reverse (trim_left (reverse (trim_left s)))

-- Puts a character in front of the first part.
abbrev pub cons_part : ℕ → List Text → List Text
cons_part c [] = (c ∷ []) ∷ []
cons_part c (p ∷ ps) = (c ∷ p) ∷ ps

-- strings.Split at a separator of one character
unfoldable pub split : Text → ℕ → List Text
split [] sep = [] ∷ []
split (c ∷ s) sep = if nat_eq c sep then [] ∷ split s sep else cons_part c (split s sep)

-- strings.Join with a separator of one character
unfoldable pub join : List Text → ℕ → Text
join [] sep = []
join (p ∷ []) sep = p
join (p ∷ q ∷ ps) sep = p ++ sep ∷ join (q ∷ ps) sep

-- strings.HasPrefix
unfoldable pub has_prefix : Text → Text → Bool
has_prefix s [] = true
has_prefix [] (_ ∷ _) = false
has_prefix (c ∷ s) (d ∷ p) = nat_eq c d && has_prefix s p

-- What is left of the text behind a prefix, if it has the prefix.
drop_prefix : Text → Text → Text → Text
drop_prefix whole s [] = s
drop_prefix whole [] (_ ∷ _) = whole
drop_prefix whole (c ∷ s) (d ∷ p) = if nat_eq c d then drop_prefix whole s p else whole

-- strings.TrimPrefix
unfoldable pub trim_prefix : Text → Text → Text
unfolding drop_prefix
trim_prefix s p = drop_prefix s s p

-- strings.Contains
unfoldable pub contains : Text → Text → Bool
unfolding has_prefix
contains [] p = has_prefix [] p
contains (c ∷ s) p = has_prefix (c ∷ s) p || contains s p

pub text_eq_iff : (s t : Text) → ((s == t) ≡ true) ↔ (s ≡ t)
unfolding ◌==◌
text_eq_iff [] [] = (λ _. refl, λ _. refl)
text_eq_iff [] (b ∷ t) = (λ h. cc, λ h. cc)
text_eq_iff (a ∷ s) [] = (λ h. cc, λ h. cc)
text_eq_iff (a ∷ s) (b ∷ t) = ground (arith, text_eq_iff s t)

pub text_eq_refl : (s : Text) → (s == s) ≡ true
text_eq_refl s = (text_eq_iff s s).1 refl

-- The longest prefix of characters that pass a test, and what is behind it.
abbrev pub take_while : (ℕ → Bool) → Text → Text
take_while p [] = []
take_while p (x ∷ s) = if p x then x ∷ take_while p s else []

abbrev pub drop_while : (ℕ → Bool) → Text → Text
drop_while p [] = []
drop_while p (x ∷ s) = if p x then drop_while p s else x ∷ s

-- The text begins with a character that passes the test.
abbrev pub begins : (ℕ → Bool) → Text → Bool
begins p [] = false
begins p (x ∷ s) = p x

pub Text-cases : (s : Text) → (s ≡ []) ⊎ ((c : ℕ) × (t : Text) × (s ≡ c ∷ t))
Text-cases [] = inl refl
Text-cases (c ∷ t) = inr (c, t, refl)

pub is_empty_iff : (s : Text) → (is_empty s ≡ true) ↔ (s ≡ [])
is_empty_iff [] = (λ _. refl, λ _. refl)
is_empty_iff (c ∷ s) = (λ h. cc, λ h. cc)
