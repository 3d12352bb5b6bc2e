-- ===== src/Cache/Selection.antt =====
-- pkg/watcher/fake/cachedclient.go: which objects the prefix test of the fake's `List` picks.
use mathlib.Core.Bool.{false≢true}
use image_validating_webhook.Base.{
  append_assoc, ℕ, ◌≡◌, ◌↔◌, ◌⊎◌, ◌∙◌, refl, sym, ap, subst, inl, inr, Bool, true, false, ◌||◌,
  Bool-cases, [], ◌∷◌, ◌++◌, All, Some, In, arith, Text, Text-cases, is_empty, has_prefix, Lacks,
}
use image_validating_webhook.Cache.{Object, FakeCache, key_str, fake_selected}

-- Behind parts without the separator, equal texts have equal parts.
pub separated_injective :
    (sep : ℕ) (a b x y : Text)
    → Lacks sep a
    → Lacks sep b
    → a ++ sep ∷ x ≡ b ++ sep ∷ y
    → (a ≡ b) × (x ≡ y)
separated_injective sep [] [] x y l m e = ground arith
separated_injective sep [] (c ∷ b) x y l m e = absurd (ground arith)
separated_injective sep (c ∷ a) [] x y l m e = absurd (ground arith)
separated_injective sep (c ∷ a) (d ∷ b) x y l m e = ground (arith, separated_injective sep a b x y)

pub has_prefix-separated :
    (sep : ℕ) (a b x : Text)
    → Lacks sep a
    → Lacks sep b
    → (has_prefix (a ++ sep ∷ x) (b ++ sep ∷ []) ≡ true) ↔ (a ≡ b)
unfolding has_prefix
has_prefix-separated sep [] [] x l m = ground arith
has_prefix-separated sep [] (c ∷ b) x l m = ground arith
has_prefix-separated sep (c ∷ a) [] x l m = ground arith
has_prefix-separated sep (c ∷ a) (d ∷ b) x l m = ground (arith, has_prefix-separated sep a b x)

pub has_prefix-Lacks : (sep : ℕ) (s b : Text) → Lacks sep s → has_prefix s (b ++ sep ∷ []) ≡ false
unfolding has_prefix
has_prefix-Lacks sep [] [] l = refl
has_prefix-Lacks sep [] (c ∷ b) l = refl
has_prefix-Lacks sep (c ∷ s) [] l = ground arith
has_prefix-Lacks sep (c ∷ s) (d ∷ b) l = ground (arith, has_prefix-Lacks sep s b)

-- An entry of a cache: its key is the one of its object, whose names hold no slash.
pub record IsKeyed {A : Type 0} (e : Text × Object A) : Type 0 where
  pub keyed_by : e.0 ≡ key_str (record { namespace = e.1.namespace; name = e.1.name })
  pub namespace_lacks : Lacks b'/' e.1.namespace
  pub name_lacks : Lacks b'/' e.1.name

-- The object is picked for a namespace, "" for all.
abbrev pub Picked : {A : Type 0} → Text → Object A → Type 0
Picked namespace o = (namespace ≡ []) ⊎ (o.namespace ≡ namespace)

abbrev pub is_picked : {A : Type 0} → Text → Text × Object A → Bool
is_picked namespace (k, o) = is_empty namespace || has_prefix k (namespace ++ b'/' ∷ [])

key_str-namespace :
    (namespace name : Text) (d : ℕ) (t : Text)
    → namespace ≡ d ∷ t
    → key_str (record { namespace = namespace; name = name }) ≡ namespace ++ b'/' ∷ name
unfolding key_str
key_str-namespace namespace name d t e =
    rw (e, key_str) (ap (λ u. d ∷ u) (append_assoc t (b'/' ∷ []) name))

is_picked_iff :
    {A : Type 0} (namespace : Text) (e : Text × Object A)
    → IsKeyed e
    → Lacks b'/' namespace
    → (is_picked namespace e ≡ true) ↔ Picked namespace e.1
unfolding key_str
is_picked_iff [] e i l = (λ _. inl refl, λ _. refl)
is_picked_iff (c ∷ ns) (k, o) i l = elim (Text-cases o.namespace) [
  | inl bare ↦
      let key : k ≡ o.name = i.keyed_by ∙ rw (bare, key_str) refl in
      let missing =
        subst (λ t. has_prefix t (c ∷ ns ++ b'/' ∷ []) ≡ false) (sym key)
          (has_prefix-Lacks b'/' o.name (c ∷ ns) i.name_lacks) in
      (
        λ h. absurd (ground arith),
        elim [ inl e ↦ absurd (ground arith) | inr e ↦ absurd (ground arith) ],
      )
  | inr (d, t, given) ↦
      let key : k ≡ o.namespace ++ b'/' ∷ o.name =
        i.keyed_by ∙ key_str-namespace o.namespace o.name d t given in
      let (to, from) = has_prefix-separated b'/' o.namespace (c ∷ ns) o.name i.namespace_lacks l in
      (
        λ h. inr (to (subst (λ t. has_prefix t (c ∷ ns ++ b'/' ∷ []) ≡ true) key h)),
        elim [
          | inl e ↦ absurd (ground arith)
          | inr e ↦ subst (λ t. has_prefix t (c ∷ ns ++ b'/' ∷ []) ≡ true) (sym key) (from e)
        ],
      )
]

-- The cache holds the object.
abbrev pub Held : {A : Type 0} → FakeCache A → Object A → Type 0
Held cache o = Some (λ e. e.1 ≡ o) cache

pub fake_selected-In :
    {A : Type 0} (cache : FakeCache A) (namespace : Text) (o : Object A)
    → All IsKeyed cache
    → Lacks b'/' namespace
    → In o (fake_selected cache namespace) ↔ (Held cache o × Picked namespace o)
unfolding fake_selected
fake_selected-In [] namespace o h l = (λ h. absurd h, λ (h, _). h)
fake_selected-In (e ∷ cache) namespace o (i, is) l =
    let (to, from) = fake_selected-In cache namespace o is l in
    let (picks, picked) = is_picked_iff namespace e i l in
    elim (Bool-cases (is_picked namespace e)) [
      | inl taken ↦
          rw (taken, fake_selected)
            (
              elim [
                | inl same ↦ (inl same, subst (Picked namespace) same (picks taken))
                | inr h ↦ let (held, p) = to h in (inr held, p)
              ],
              λ (held, p). elim held [ inl same ↦ inl same | inr h ↦ inr (from (h, p)) ],
            )
      | inr left ↦
          rw (left, fake_selected)
            (
              λ h. let (held, p) = to h in (inr held, p),
              λ (held, p). elim held [
                | inl same ↦
                    absurd (false≢true (sym left ∙ picked (subst (Picked namespace) (sym same) p)))
                | inr h ↦ from (h, p)
              ],
            )
    ]
