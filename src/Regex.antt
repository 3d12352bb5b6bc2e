-- ===== src/Regex.antt =====
-- The part of package `regexp` that pkg/admissions/pods/whitelist.go uses: an expression anchored
-- at the start of the text, matched by backtracking, so that the first success in the order of
-- preference wins (greedy repetition and options), with numbered groups.
pub mod Greedy
pub mod Pieces
use image_validating_webhook.Base.{
  ℕ, zero, suc, Bool, true, false, not, ◌&&◌, ◌||◌, Option, none, some, List, [], ◌∷◌, ◌++◌, length,
  leb, nat_eq, if◌then◌else◌, Text,
}

-- A character class `[…]`, or `[^…]` if it is negated, as ranges of code points.
pub record Class : Type 0 where
  pub negated : Bool
  pub spans : List (ℕ × ℕ)

abbrev pub none_of : List (ℕ × ℕ) → Class
none_of spans = record { negated = true; spans = spans }

abbrev pub one_of : List (ℕ × ℕ) → Class
one_of spans = record { negated = false; spans = spans }

abbrev pub char : ℕ → ℕ × ℕ
char c = (c, c)

unfoldable pub in_spans : List (ℕ × ℕ) → ℕ → Bool
in_spans [] x = false
in_spans ((lo, hi) ∷ spans) x = (leb lo x && leb x hi) || in_spans spans x

unfoldable pub in_class : Class → ℕ → Bool
unfolding in_spans
in_class c x = if c.negated then not (in_spans c.spans x) else in_spans c.spans x

pub data Regex : Type 0 where
  one : Class → Regex
  seq : Regex → Regex → Regex
  plus opt : Regex → Regex
  group : ℕ → Regex → Regex

abbrev pub literal : ℕ → Regex
literal c = one (one_of (char c ∷ []))

-- The text that was matched, what the groups captured, the latest first, and what is left.
pub record Match : Type 0 where
  pub text : Text
  pub captures : List (ℕ × Text)
  pub rest : Text

-- A match that follows another, as one.
abbrev pub after : Match → Match → Match
after m n = record { text = m.text ++ n.text; captures = n.captures ++ m.captures; rest = n.rest }

abbrev pub capture : ℕ → Match → Match
capture n m = record m { captures = (n, m.text) ∷ m.captures }

abbrev pub empty_at : Text → Match
empty_at s = record { text = []; captures = []; rest = s }

abbrev pub Next : Type 0 → Type 0
Next A = Match → Option A

-- One character of a class.
one_char : {A : Type 0} → Class → Text → Next A → Option A
one_char c [] k = none
one_char c (x ∷ s) k =
    if in_class c x then k (record { text = x ∷ []; captures = []; rest = s }) else none

-- Greedy repetition, at least once: one more round is preferred to going on. Each round of the
-- expressions used here takes a character, so the length of the text bounds the rounds.
pub repeat : {A : Type 0} → (Text → Next A → Option A) → ℕ → Text → Next A → Option A
repeat step zero s k = none
repeat step (suc f) s k =
    step s λ m. elim (repeat step f m.rest (λ n. k (after m n))) [ some a ↦ some a | none ↦ k m ]

-- Tries the matches of the expression at the start of the text in the order of preference, until
-- `k` accepts one.
unfoldable pub match_then : {A : Type 0} → Regex → Text → Next A → Option A
unfolding one_char repeat in_class
match_then (one c) s k = one_char c s k
match_then (seq a b) s k = match_then a s λ m. match_then b m.rest λ n. k (after m n)
match_then (plus r) s k = repeat (match_then r) (length s) s k
match_then (opt r) s k = elim (match_then r s k) [ some a ↦ some a | none ↦ k (empty_at s) ]
match_then (group n r) s k = match_then r s λ m. k (capture n m)

-- The text of a group: "" if the group took no part in the match.
unfoldable pub captured : ℕ → List (ℕ × Text) → Text
captured n [] = []
captured n ((m, t) ∷ cs) = if nat_eq m n then t else captured n cs

-- The groups from number `n` on, `k` of them.
unfoldable pub groups : ℕ → ℕ → List (ℕ × Text) → List Text
unfolding captured
groups n zero cs = []
groups n (suc k) cs = captured n cs ∷ groups (suc n) k cs

-- FindAllStringSubmatch(s, -1) of `^r` with `k` groups. An anchored expression that matches no
-- empty text has one match at most.
unfoldable pub find_all_submatch : Regex → ℕ → Text → List (List Text)
unfolding match_then groups
find_all_submatch r k s = elim (match_then r s some) [
  | none ↦ []
  | some m ↦ (m.text ∷ groups 1 k m.captures) ∷ []
]
