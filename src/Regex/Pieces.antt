-- ===== src/Regex/Pieces.antt =====
-- How the pieces of an expression match: a literal character, a run of a class that a delimiter
-- must follow, and a run before what cannot fail.
use mathlib.Core.List.{tail}
use native.Mathlib.Nat.{le_refl}
use image_validating_webhook.Base.{
  Bool, true, false, nat_eq_iff, ℕ, ◌≡◌, refl, none, some, List, [], ◌∷◌, arith, ◌∙◌, ap, length,
  if◌then◌else◌, nat_eq, Text, take_while, drop_while, begins, inl, inr, Bool-cases,
}
use image_validating_webhook.Regex.{
  Class, literal, one, plus, group, in_class, Match, Next, match_then,
}
use image_validating_webhook.Regex.Greedy.{
  caps, full, Declines, TakesOne, repeat_stops, repeat_greedy, repeat_delimited,
}

-- The match of the longest run of a class.
abbrev pub run : Class → Text → Match
run c s = record {
  text = take_while (in_class c) s;
  captures = [];
  rest = drop_while (in_class c) s;
}

abbrev pub char_at : ℕ → Text → Match
char_at c s = record { text = c ∷ []; captures = []; rest = tail s }

-- A run in which each character is captured by a group.
abbrev pub captures_each : ℕ → ℕ → List (ℕ × Text)
captures_each n x = (n, x ∷ []) ∷ []

caps-none : (s : Text) → caps (λ _. []) s ≡ []
caps-none [] = refl
caps-none (x ∷ s) = rw (caps-none s)

full-run : (c : Class) (s : Text) → full (in_class c) (λ _. []) s ≡ run c s
full-run c s = rw (caps-none (take_while (in_class c) s))

module _ {A : Type 0} where
  one-TakesOne : (c : Class) → TakesOne {A = A} (in_class c) (λ _. []) (match_then (one c))
  unfolding match_then
  one-TakesOne c = record { at_end = λ k. refl; at_char = λ x s k. refl }

  group-TakesOne :
      (n : ℕ) (c : Class)
      → TakesOne {A = A} (in_class c) (captures_each n) (match_then (group n (one c)))
  unfolding match_then
  group-TakesOne n c = record { at_end = λ k. refl; at_char = λ x s k. refl }

  pub match-literal :
      (c : ℕ) (s : Text) (k : Next A)
      → match_then (literal c) s k ≡ (if begins (nat_eq c) s then k (char_at c s) else none)
  unfolding match_then
  match-literal c [] k = refl
  match-literal c (x ∷ s) k = ground arith

  pub match-plus_delimited :
      (c : Class) (s : Text) (k : Next A)
      → Declines (in_class c) k
      → match_then (plus (one c)) s k ≡ (if begins (in_class c) s then k (run c s) else none)
  unfolding match_then
  match-plus_delimited c s k d = elim (Bool-cases (begins (in_class c) s)) [
    | inl h ↦ rw h (
        repeat_delimited (in_class c) (λ _. []) (match_then (one c)) (one-TakesOne c) (length s) s k
          (le_refl _) h d
        ∙ ap k (full-run c s))
    | inr h ↦
        rw h (
          repeat_stops (in_class c) (λ _. []) (match_then (one c)) (one-TakesOne c) (length s) s k
            h)
  ]

  pub match-plus_group_delimited :
      (n : ℕ) (c : Class) (s : Text) (k : Next A)
      → Declines (in_class c) k
      → match_then (plus (group n (one c))) s k
        ≡ (if begins (in_class c) s then k (full (in_class c) (captures_each n) s) else none)
  unfolding match_then
  match-plus_group_delimited n c s k d = elim (Bool-cases (begins (in_class c) s)) [
    | inl h ↦ rw h (
        repeat_delimited (in_class c) (captures_each n) (match_then (group n (one c)))
          (group-TakesOne n c) (length s) s k (le_refl _) h d)
    | inr h ↦ rw h (
        repeat_stops (in_class c) (captures_each n) (match_then (group n (one c)))
          (group-TakesOne n c) (length s) s k h)
  ]

  pub match-plus_greedy :
      (c : Class) (s : Text) (g : Match → A)
      → match_then (plus (one c)) s (λ m. some (g m))
        ≡ (if begins (in_class c) s then some (g (run c s)) else none)
  unfolding match_then
  match-plus_greedy c s g = elim (Bool-cases (begins (in_class c) s)) [
    | inl h ↦ rw h (
        repeat_greedy (in_class c) (λ _. []) (match_then (one c)) (one-TakesOne c) (length s) s
          (λ m. some (g m)) (g (run c s)) (le_refl _) h (ap (λ m. some (g m)) (full-run c s)))
    | inr h ↦ rw h (
        repeat_stops (in_class c) (λ _. []) (match_then (one c)) (one-TakesOne c) (length s) s
          (λ m. some (g m)) h)
  ]

begins_apart :
    (p : ℕ → Bool) (d : ℕ) (s : Text)
    → p d ≡ false
    → begins p s ≡ true
    → begins (nat_eq d) s ≡ false
begins_apart p d [] out h = cc
begins_apart p d (x ∷ s) out h = elim (Bool-cases (nat_eq d x)) [
  | inl same ↦ let e : d ≡ x = (nat_eq_iff d x).0 same in cc
  | inr other ↦ other
]

-- A delimiter outside a class: what goes on with it declines inside the run.
pub literal-Declines :
    {A : Type 0} (c : Class) (d : ℕ) (k : Match → Next A)
    → in_class c d ≡ false
    → Declines (in_class c) (λ m. match_then (literal d) m.rest (k m))
literal-Declines c d k out m h = rw (match-literal, begins_apart (in_class c) d m.rest out h)
