-- ===== src/Phrases/Retrieval.antt =====
-- pkg/trust/trust.go: what the function that `passRetriever` returns does with its map of phrases.
use image_validating_webhook.Base.{
  ℕ, ◌<◌, ◌≡◌, ◌≢◌, ◌⊎◌, inl, inr, refl, ap, true, false, ltb, none, some, List, ◌∷◌, arith, length,
  Text, text_eq_iff, text_eq_refl, lookup, done, panics, Finishes,
}
use image_validating_webhook.Phrases.{
  TrustPass, Answer, random_string, add_key_pass, find_phrase, pass_retriever,
}
use image_validating_webhook.Phrases.Bounds.{IsAlphanumeric, random_of}

other_key : (j id s : Text) (m : List (Text × Text)) → j ≢ id → lookup j ((id, s) ∷ m) ≡ lookup j m
unfolding lookup
other_key j id s m differs = ground (arith, text_eq_iff id j, text_eq_iff j id)

other_phrase :
    (j id s : Text) (m : List (Text × Text)) (attempts : ℕ)
    → j ≢ id
    → find_phrase (some ((id, s) ∷ m)) j attempts ≡ find_phrase (some m) j attempts
unfolding find_phrase
other_phrase j id s m attempts differs = rw (other_key j id s m differs, find_phrase) refl

made_phrase :
    (id s : Text) (m : List (Text × Text)) (attempts : ℕ)
    → find_phrase (some ((id, s) ∷ m)) id attempts
      ≡ record { phrase = s; give_up = ltb 1 attempts; error = none }
unfolding find_phrase lookup
made_phrase id s m attempts = rw (text_eq_refl id, find_phrase, lookup) refl

created :
    (intn : ℕ → ℕ → ℕ) (id s : Text) (m : List (Text × Text)) (attempts : ℕ)
    → random_string intn 10 ≡ done s
    → pass_retriever intn (some m) id true attempts
      ≡ done (some ((id, s) ∷ m), record { phrase = s; give_up = ltb 1 attempts; error = none })
unfolding pass_retriever add_key_pass
created intn id s m attempts made =
    rw (made, pass_retriever) (ap (λ a. done (some ((id, s) ∷ m), a)) (made_phrase id s m attempts))

-- What a phrase that was made is worth: it is a random one, a later call for its key that makes none
-- finds it, and such a call for another key finds what it found before.
pub record Remembered (intn : ℕ → ℕ → ℕ) (m : List (Text × Text)) (id : Text) (q : TrustPass)
    (a : Answer) : Type 0 where
  pub size : length a.phrase ≡ 10
  pub letters : IsAlphanumeric a.phrase
  pub no_error : a.error ≡ none
  pub again :
      (later : ℕ)
      → pass_retriever intn q id false later
        ≡ done (q, record { phrase = a.phrase; give_up = ltb 1 later; error = none })
  pub others :
      (j : Text) (later : ℕ)
      → j ≢ id
      → pass_retriever intn q j false later ≡ done (q, find_phrase (some m) j later)

created-Remembered :
    (intn : ℕ → ℕ → ℕ) (m : List (Text × Text)) (id : Text) (attempts : ℕ)
    → ((j k : ℕ) → 0 < k → intn j k < k)
    → Finishes (pass_retriever intn (some m) id true attempts) (λ (q, a). Remembered intn m id q a)
unfolding pass_retriever
created-Remembered intn m id attempts bounded =
    let (s, made, size, letters) = random_of intn 10 bounded in
    rw (created intn id s m attempts made) record {
      size = size;
      letters = letters;
      no_error = refl;
      again = λ later. ap (λ a. done (some ((id, s) ∷ m), a)) (made_phrase id s m later);
      others = λ j later differs.
          ap (λ a. done (some ((id, s) ∷ m), a)) (other_phrase j id s m later differs);
    }

-- Where each number drawn is below its bound: asked to make a phrase, the retriever panics if its map
-- is nil. If not, it returns ten letters and digits and no error, and its map remembers them: called
-- with that map and not asked to make one, it returns them for the same key and for any other key what
-- it would have found before.
pub pass_retriever-creates :
    (intn : ℕ → ℕ → ℕ) (p : TrustPass) (id : Text) (attempts : ℕ)
    → ((j k : ℕ) → 0 < k → intn j k < k)
    → ((p ≡ none) × (pass_retriever intn p id true attempts ≡ panics))
      ⊎ ((m : List (Text × Text)) × (p ≡ some m)
          × Finishes (pass_retriever intn p id true attempts) (λ (q, a). Remembered intn m id q a))
unfolding pass_retriever add_key_pass
pass_retriever-creates intn none id attempts bounded =
    let (s, made, _, _) = random_of intn 10 bounded in inl (refl, rw (made, pass_retriever) refl)
pass_retriever-creates intn (some m) id attempts bounded =
    inr (m, refl, created-Remembered intn m id attempts bounded)
