-- ===== src/Base/Sorting.antt =====
-- sort.Slice by a key, as an insertion sort: elements of one key may land in any order in Go, and stay
-- in theirs here. With distinct keys the result is the one increasing list of the same elements.
use mathlib.Core.Path.{◌≡◌, refl, sym, ◌∙◌, subst, ap₂}
use mathlib.Core.Logic.{◌≢◌, ◌↔◌, inl, inr}
use mathlib.Core.Bool.{true}
use mathlib.Core.List.{List, [], ◌∷◌}
use native.Mathlib.Omega.{arith}
use image_validating_webhook.Base.Tests.{if◌then◌else◌, Bool-cases}
use image_validating_webhook.Base.Lists.{All, Some}
use image_validating_webhook.Base.Strings.{Text, text_less}
use image_validating_webhook.Base.Order.{text_less_irrefl, text_less_trans, text_less_total}

-- The element stands in the list.
abbrev pub In : {A : Type 0} → A → List A → Type 0
In x xs = Some (λ y. y ≡ x) xs

pub All-In : {A : Type 0} (P : A → Type 0) (xs : List A) → All P xs → (x : A) → In x xs → P x
All-In P [] h x i = elim i [ ]
All-In P (y ∷ xs) (p, ps) x (inl e) = subst P e p
All-In P (y ∷ xs) (p, ps) x (inr i) = All-In P xs ps x i

pub In-All : {A : Type 0} (P : A → Type 0) (xs : List A) → ((x : A) → In x xs → P x) → All P xs
In-All P [] h = tt
In-All P (x ∷ xs) h = (h x (inl refl), In-All P xs (λ y i. h y (inr i)))

module _ {A : Type 0} (key : A → Text) where
  unfoldable pub insert_by : A → List A → List A
  insert_by a [] = a ∷ []
  insert_by a (b ∷ l) =
      let rest = insert_by a l in if text_less (key a) (key b) then a ∷ b ∷ l else b ∷ rest

  unfoldable pub sort_by : List A → List A
  unfolding insert_by
  sort_by [] = []
  sort_by (a ∷ l) = insert_by a (sort_by l)

  -- Each key is less than all keys behind it.
  abbrev pub Increasing : List A → Type 0
  Increasing [] = Unit
  Increasing (a ∷ l) = All (λ b. text_less (key a) (key b) ≡ true) l × Increasing l

  -- No key stands twice.
  abbrev pub Distinct : List A → Type 0
  Distinct [] = Unit
  Distinct (a ∷ l) = All (λ b. key b ≢ key a) l × Distinct l

  insert_by-In : (a x : A) (l : List A) → In x (insert_by a l) ↔ In x (a ∷ l)
  unfolding insert_by
  insert_by-In a x [] = (λ h. h, λ h. h)
  insert_by-In a x (b ∷ l) = elim (Bool-cases (text_less (key a) (key b))) [
    | inl less ↦ rw less (λ h. h, λ h. h)
    | inr more ↦
        let (to, from) = insert_by-In a x l in
        rw more (
          elim [
            | inl e ↦ inr (inl e)
            | inr i ↦ elim (to i) [ inl e ↦ inl e | inr j ↦ inr (inr j) ]
          ],
          elim [
            | inl e ↦ inr (from (inl e))
            | inr i ↦ elim i [ inl e ↦ inl e | inr j ↦ inr (from (inr j)) ]
          ],
        )
  ]

  pub sort_by-In : (x : A) (l : List A) → In x (sort_by l) ↔ In x l
  unfolding sort_by
  sort_by-In x [] = (λ h. h, λ h. h)
  sort_by-In x (a ∷ l) =
      let (to, from) = sort_by-In x l in
      let (down, up) = insert_by-In a x (sort_by l) in
      (
        λ h. elim (down h) [ inl e ↦ inl e | inr i ↦ inr (to i) ],
        elim [ inl e ↦ up (inl e) | inr i ↦ up (inr (from i)) ],
      )

  insert_by-Increasing :
      (a : A) (l : List A) → All (λ b. key b ≢ key a) l → Increasing l → Increasing (insert_by a l)
  unfolding insert_by
  insert_by-Increasing a [] d i = (tt, tt)
  insert_by-Increasing a (b ∷ l) (d, ds) (less, i) = elim (Bool-cases (text_less (key a) (key b))) [
    | inl first ↦ rw first (
      (
        first,
        In-All _ l λ x j. text_less_trans (key a) (key b) (key x) first (All-In _ l less x j),
      ),
      (less, i),
    )
    | inr later ↦ rw later (
      In-All _ (insert_by a l) (λ x j. elim ((insert_by-In a x l).0 j) [
        | inl e ↦
            subst (λ y. text_less (key b) (key y) ≡ true) e
              (elim (Bool-cases (text_less (key b) (key a))) [
                | inl above ↦ above
                | inr same ↦ absurd (d (text_less_total (key b) (key a) same later))
              ])
        | inr k ↦ All-In _ l less x k
      ]),
      insert_by-Increasing a l ds i,
    )
  ]

  pub sort_by-Increasing : (l : List A) → Distinct l → Increasing (sort_by l)
  unfolding sort_by
  sort_by-Increasing [] d = tt
  sort_by-Increasing (a ∷ l) (d, ds) =
      insert_by-Increasing a (sort_by l)
        (In-All _ (sort_by l) λ x i. All-In _ l d x ((sort_by-In x l).0 i))
        (sort_by-Increasing l ds)

  not-less_self : (x : A) → text_less (key x) (key x) ≡ true → ⊥
  not-less_self x h = ground (arith, text_less_irrefl (key x))

  -- Two increasing lists of the same elements are the same list.
  pub Increasing-unique :
      (xs ys : List A) → Increasing xs → Increasing ys → ((x : A) → In x xs ↔ In x ys) → xs ≡ ys
  Increasing-unique [] [] i j same = refl
  Increasing-unique [] (y ∷ ys) i j same = absurd ((same y).1 (inl refl))
  Increasing-unique (x ∷ xs) [] i j same = absurd ((same x).0 (inl refl))
  Increasing-unique (x ∷ xs) (y ∷ ys) (lx, i) (ly, j) same =
      let heads : x ≡ y = elim ((same x).0 (inl refl)) [
        | inl e ↦ sym e
        | inr k ↦ elim ((same y).1 (inl refl)) [
          | inl e ↦ e
          | inr m ↦ absurd (
              not-less_self x
                (text_less_trans (key x) (key y) (key x) (All-In _ xs lx y m) (All-In _ ys ly x k)))
        ]
      ] in
      ap₂ (λ a l. a ∷ l) heads
        (Increasing-unique xs ys i j λ z. (
          λ k. elim ((same z).0 (inr k)) [
            | inl e ↦ absurd (
                not-less_self z
                  (subst (λ a. text_less (key a) (key z) ≡ true) (heads ∙ e) (All-In _ xs lx z k)))
            | inr m ↦ m
          ],
          λ k. elim ((same z).1 (inr k)) [
            | inl e ↦ absurd (
                not-less_self z (
                  subst (λ a. text_less (key a) (key z) ≡ true) (sym heads ∙ e)
                    (All-In _ ys ly z k)))
            | inr m ↦ m
          ],
        ))
