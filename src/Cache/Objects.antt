-- ===== src/Cache/Objects.antt =====
-- pkg/watcher/cachedclient.go: entries that are objects, sorted and read as objects.
use image_validating_webhook.Base.{
  ◌≡◌, ◌↔◌, ◌∙◌, refl, ap, inl, inr, List, [], ◌∷◌, map, All, In, Distinct, Increasing,
  Increasing-unique, sort_by, sort_by-In, sort_by-Increasing, arith, Text, ok,
}
use image_validating_webhook.Cache.{Object, Entry, object, other, full_name, entry_key, objects_of}

objects_of-map : {A : Type 0} (os : List (Object A)) → objects_of (map object os) ≡ ok os
unfolding objects_of
objects_of-map [] = refl
objects_of-map (o ∷ os) = rw (objects_of-map os) refl

All-map :
    {A B : Type 0} (P : B → Type 0) (f : A → B) (xs : List A)
    → All (λ x. P (f x)) xs
    → All P (map f xs)
All-map P f [] h = tt
All-map P f (x ∷ xs) (p, h) = (p, All-map P f xs h)

map-Increasing :
    {A : Type 0} (os : List (Object A))
    → Increasing full_name os
    → Increasing entry_key (map object os)
map-Increasing [] i = tt
map-Increasing (o ∷ os) (less, i) = (All-map _ object os less, map-Increasing os i)

object_injective : {A : Type 0} (a b : Object A) → ◌≡◌ {A = Entry A} (object a) (object b) → a ≡ b
object_injective a b e = cc

pub In-map_object :
    {A : Type 0} (os : List (Object A)) (o : Object A) → In (object o) (map object os) ↔ In o os
In-map_object [] o = (λ h. h, λ h. h)
In-map_object (p ∷ os) o =
    let (to, from) = In-map_object os o in
    (
      elim [ inl e ↦ inl (object_injective p o e) | inr h ↦ inr (to h) ],
      elim [ inl e ↦ inl (ap object e) | inr h ↦ inr (from h) ],
    )

pub no_other :
    {A : Type 0} (os : List (Object A)) (type : Text) → In (other type) (map object os) → ⊥
no_other [] type h = h
no_other (o ∷ os) type (inl e) = ground arith
no_other (o ∷ os) type (inr h) = no_other os type h

both :
    {A : Type 0} (es : List (Entry A)) (os : List (Object A))
    → ((o : Object A) → In (object o) es ↔ In o os)
    → ((type : Text) → In (other type) es → ⊥)
    → (e : Entry A) → In e (sort_by entry_key es) ↔ In e (map object (sort_by full_name os))
both es os same pure (object o) =
    let (down, up) = sort_by-In entry_key (object o) es in
    let (to, from) = same o in
    let (left, right) = sort_by-In full_name o os in
    let (in', out) = In-map_object (sort_by full_name os) o in
    (λ h. out (right (to (down h))), λ h. up (from (left (in' h))))
both es os same pure (other type) = (
  λ h. absurd (pure type ((sort_by-In entry_key (other type) es).0 h)),
  λ h. absurd (no_other (sort_by full_name os) type h),
)

-- Entries that are exactly the given objects are sorted to them in their order.
pub sorted_objects :
    {A : Type 0} (es : List (Entry A)) (os : List (Object A))
    → Distinct entry_key es
    → Distinct full_name os
    → ((o : Object A) → In (object o) es ↔ In o os)
    → ((type : Text) → In (other type) es → ⊥)
    → objects_of (sort_by entry_key es) ≡ ok (sort_by full_name os)
sorted_objects es os d f same pure =
    let sorted = sort_by full_name os in
    ap objects_of (
      Increasing-unique entry_key (sort_by entry_key es) (map object sorted)
        (sort_by-Increasing entry_key es d)
        (map-Increasing sorted (sort_by-Increasing full_name os f)) (both es os same pure))
    ∙ objects_of-map sorted
