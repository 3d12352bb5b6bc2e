-- ===== src/Phrases.antt =====
-- internal/utils/utils.go and the pass phrases of pkg/trust/trust.go: random strings, and the retriever
-- that makes and finds phrases in a map that may be nil.
pub mod Bounds
pub mod Retrieval
pub mod Tests
use image_validating_webhook.Base.{
  ℕ, zero, suc, Bool, true, false, ltb, Option, none, some, List, [], ◌∷◌, length, get_elem?,
  if◌then◌else◌, Text, codes, ◌==◌, lookup, Outcome, done, fails, panics, ◌>=>◌,
}

abbrev pub charset : Text
charset = codes "abcdefghijklmnopqrstuvwxyz1234567890"

-- The loop of `RandomString`, from the i-th call of Intn: the answer of that call for a bound is a parameter.
unfoldable pub random_from : (ℕ → ℕ → ℕ) → ℕ → ℕ → Outcome Text
random_from intn i zero = done []
random_from intn i (suc n) =
    let rest = random_from intn (suc i) n in
    elim (get_elem? charset (intn i (length charset))) [
      | none ↦ panics
      | some c ↦ rest >=> λ s. done (c ∷ s)
    ]

unfoldable pub random_string : (ℕ → ℕ → ℕ) → ℕ → Outcome Text
unfolding random_from
random_string intn n = random_from intn 0 n

-- `trustPass`, a map that may be nil.
abbrev pub TrustPass : Type 0
TrustPass = Option (List (Text × Text))

-- What a retriever returns: a phrase, whether to give up, and an error.
pub record Answer : Type 0 where
  pub phrase : Text
  pub give_up : Bool
  pub error : Option Text

unfoldable pub add_key_pass : TrustPass → Text → Text → Outcome TrustPass
add_key_pass none key val = panics
add_key_pass (some p) key val = done (some ((key, val) ∷ p))

abbrev phrase_of : TrustPass → Text → Option Text
phrase_of none id = none
phrase_of (some p) id = lookup id p

abbrev pub no_phrase : Text
no_phrase = codes "no pass phrase is found"

-- The lookup at the end of the retriever.
unfoldable pub find_phrase : TrustPass → Text → ℕ → Answer
find_phrase p id attempts = elim (phrase_of p id) [
  | none ↦ record { phrase = []; give_up = ltb 1 attempts; error = some no_phrase }
  | some phrase ↦ record { phrase = phrase; give_up = ltb 1 attempts; error = none }
]

-- The function that `passRetriever` returns, with the phrases after the call.
unfoldable pub pass_retriever :
    (ℕ → ℕ → ℕ) → TrustPass → Text → Bool → ℕ → Outcome (TrustPass × Answer)
unfolding random_string add_key_pass find_phrase
pass_retriever intn p id false attempts = done (p, find_phrase p id attempts)
pass_retriever intn p id true attempts = random_string intn 10 >=> λ phrase.
    add_key_pass p id phrase >=> λ q. done (q, find_phrase q id attempts)
