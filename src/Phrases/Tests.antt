-- ===== src/Phrases/Tests.antt =====
-- Phrases from a source of numbers that always draws the least.
use image_validating_webhook.Base.{
  ℕ, ◌≡◌, true, none, some, [], ◌∷◌, ◌⊎◌, List, Text, length, codes, panics, Finishes,
}
use image_validating_webhook.Phrases.{TrustPass, random_string, pass_retriever}
use image_validating_webhook.Phrases.Bounds.{IsAlphanumeric, random_string_bounded}
use image_validating_webhook.Phrases.Retrieval.{Remembered, pass_retriever-creates}

abbrev pub least : ℕ → ℕ → ℕ
least i n = 0

random_string_bounded_example :
    Finishes (random_string least 3) (λ s. (length s ≡ 3) × IsAlphanumeric s)
random_string_bounded_example = random_string_bounded least 3 (λ j k h. h)

abbrev phrases : TrustPass
phrases = some ((codes "targets", codes "abc") ∷ [])

pass_retriever-creates_example :
    ((phrases ≡ none) × (pass_retriever least phrases (codes "root") true 0 ≡ panics))
    ⊎ ((m : List (Text × Text)) × (phrases ≡ some m)
        × Finishes
            (pass_retriever least phrases (codes "root") true 0)
            (λ (q, a). Remembered least m (codes "root") q a))
pass_retriever-creates_example = pass_retriever-creates least phrases (codes "root") 0 (λ j k h. h)
