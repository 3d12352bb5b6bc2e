-- ===== src/Phrases/Bounds.antt =====
-- internal/utils/utils.go: the length and the characters of a random string.
use image_validating_webhook.Base.{
  ℕ, zero, suc, ◌<◌, ◌≡◌, refl, ap, inl, inr, some, List, [], ◌∷◌, length, get_elem?, All, In,
  arith, Text, done, Finishes,
}
use image_validating_webhook.Phrases.{charset, random_from, random_string}

-- An element in range is there.
found :
    {A : Type 0} (xs : List A) (n : ℕ)
    → n < length xs
    → (x : A) × (get_elem? xs n ≡ some x) × In x xs
found [] n h = absurd (omega arith)
found (x ∷ xs) zero h = (x, refl, inl refl)
found (x ∷ xs) (suc n) h = let (y, e, i) = found xs n (omega arith) in (y, e, inr i)

-- Letters and digits.
abbrev pub IsAlphanumeric : Text → Type 0
IsAlphanumeric s = All (λ c. In c charset) s

random_from_bounded :
    (intn : ℕ → ℕ → ℕ) (i n : ℕ)
    → ((j k : ℕ) → 0 < k → intn j k < k)
    → (s : Text) × (random_from intn i n ≡ done s) × (length s ≡ n) × IsAlphanumeric s
unfolding random_from
random_from_bounded intn i zero bounded = ([], refl, refl, tt)
random_from_bounded intn i (suc n) bounded =
    let (c, at, there) =
      found charset (intn i (length charset)) (bounded i (length charset) (omega arith)) in
    let (s, made, size, letters) = random_from_bounded intn (suc i) n bounded in
    (c ∷ s, rw (at, made) refl, ap suc size, (there, letters))

pub random_of :
    (intn : ℕ → ℕ → ℕ) (n : ℕ)
    → ((j k : ℕ) → 0 < k → intn j k < k)
    → (s : Text) × (random_string intn n ≡ done s) × (length s ≡ n) × IsAlphanumeric s
unfolding random_string
random_of intn n bounded = random_from_bounded intn 0 n bounded

-- Where each number drawn is below its bound, a random string of any length is made without an index out of range, has that
-- length, and consists of the charset's letters and digits.
pub random_string_bounded :
    (intn : ℕ → ℕ → ℕ) (n : ℕ)
    → ((j k : ℕ) → 0 < k → intn j k < k)
    → Finishes (random_string intn n) (λ s. (length s ≡ n) × IsAlphanumeric s)
random_string_bounded intn n bounded =
    let (s, made, size, letters) = random_of intn n bounded in rw made (size, letters)
