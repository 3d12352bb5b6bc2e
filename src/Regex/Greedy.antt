-- ===== src/Regex/Greedy.antt =====
-- Greedy repetition of one character: what `plus` does with a run of characters.
use image_validating_webhook.Base.{
  ℕ, zero, suc, ◌≤◌, ◌≡◌, refl, Bool, true, false, Option, none, some, List, [], ◌∷◌, ◌++◌, arith,
  length, if◌then◌else◌, Text, take_while, drop_while, begins, inl, inr, Bool-cases, ap, sym, ◌∙◌,
}
use image_validating_webhook.Regex.{Match, Next, after, repeat}

-- What the rounds of a repetition capture, the latest first.
abbrev pub caps : (ℕ → List (ℕ × Text)) → Text → List (ℕ × Text)
caps cap [] = []
caps cap (x ∷ s) = caps cap s ++ cap x

-- The match of the longest run.
abbrev pub full : (ℕ → Bool) → (ℕ → List (ℕ × Text)) → Text → Match
full p cap s = record {
  text = take_while p s;
  captures = caps cap (take_while p s);
  rest = drop_while p s;
}

-- `k` fails wherever the run could still go on.
abbrev pub Declines : {A : Type 0} → (ℕ → Bool) → Next A → Type 0
Declines p k = (m : Match) → begins p m.rest ≡ true → k m ≡ none

-- A step that takes one character that passes the test.
pub record TakesOne {A : Type 0} (p : ℕ → Bool) (cap : ℕ → List (ℕ × Text))
    (step : Text → Next A → Option A) : Type 0 where
  pub at_end : (k : Next A) → step [] k ≡ none
  pub at_char :
      (x : ℕ) (s : Text) (k : Next A)
      → step (x ∷ s) k
        ≡ (if p x then k (record { text = x ∷ []; captures = cap x; rest = s }) else none)

-- Where no character of the class stands, the longest run is empty.
full_stops :
    (p : ℕ → Bool) (cap : ℕ → List (ℕ × Text)) (s : Text)
    → begins p s ≡ false
    → full p cap s ≡ record { text = []; captures = []; rest = s }
full_stops p cap [] h = refl
full_stops p cap (x ∷ s) h = rw h

-- The match of the first character alone.
abbrev first : (ℕ → List (ℕ × Text)) → ℕ → Text → Match
first cap x s = record { text = x ∷ []; captures = cap x; rest = s }

full_last :
    (p : ℕ → Bool) (cap : ℕ → List (ℕ × Text)) (x : ℕ) (s : Text)
    → p x ≡ true
    → begins p s ≡ false
    → full p cap (x ∷ s) ≡ first cap x s
full_last p cap x s h stop = rw h (ap (after (first cap x s)) (full_stops p cap s stop))

module _ {A : Type 0} (p : ℕ → Bool) (cap : ℕ → List (ℕ × Text)) (step : Text → Next A → Option A)
    (one : TakesOne p cap step) where
  pub repeat_stops : (f : ℕ) (s : Text) (k : Next A) → begins p s ≡ false → repeat step f s k ≡ none
  unfolding repeat
  repeat_stops zero s k h = refl
  repeat_stops (suc f) [] k h = one.at_end _
  repeat_stops (suc f) (x ∷ s) k h = rw (one.at_char, h)

  pub repeat_greedy :
      (f : ℕ) (s : Text) (k : Next A) (a : A)
      → length s ≤ f
      → begins p s ≡ true
      → k (full p cap s) ≡ some a
      → repeat step f s k ≡ some a
  unfolding repeat
  repeat_greedy f [] k a le h e = cc
  repeat_greedy zero (x ∷ s) k a le h e = absurd (omega arith)
  repeat_greedy (suc f) (x ∷ s) k a le h e =
      rw (one.at_char, h)
        (elim (Bool-cases (begins p s)) [
          | inl more ↦ rw (
              repeat_greedy f s (λ n. k (after (first cap x s) n)) a (omega arith) more (rw h at e))
          | inr stop ↦
              rw (repeat_stops f s (λ n. k (after (first cap x s) n)) stop)
                (ap k (sym (full_last p cap x s h stop)) ∙ e)
        ])

  pub repeat_delimited :
      (f : ℕ) (s : Text) (k : Next A)
      → length s ≤ f
      → begins p s ≡ true
      → Declines p k
      → repeat step f s k ≡ k (full p cap s)
  unfolding repeat
  repeat_delimited f [] k le h d = cc
  repeat_delimited zero (x ∷ s) k le h d = absurd (omega arith)
  repeat_delimited (suc f) (x ∷ s) k le h d =
      rw (one.at_char, h)
        (elim (Bool-cases (begins p s)) [
          | inl more ↦
              rw
                (repeat_delimited f s (λ n. k (after (first cap x s) n)) (omega arith) more
                  (λ m. d _))
                (ground (arith, d (first cap x s) more))
          | inr stop ↦
              rw (repeat_stops f s (λ n. k (after (first cap x s) n)) stop)
                (ap k (sym (ap (after (first cap x s)) (full_stops p cap s stop))))
        ])
