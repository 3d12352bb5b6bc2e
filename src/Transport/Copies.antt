-- ===== src/Transport/Copies.antt =====
-- pkg/auth/auth.go: what `RoundTrip` passes on, and what it leaves to its caller.
use image_validating_webhook.Base.{
  ℕ, zero, suc, ◌<◌, ◌≡◌, ◌∙◌, refl, sym, ap, ap₂, Bool-cases, inl, inr, Option, none, some, List,
  [], ◌∷◌, ◌++◌, append-nil, append_assoc, length, length-append, All, arith, Text, codes, ◌==◌,
}
use image_validating_webhook.Token.{Token}
use image_validating_webhook.Transport.{
  Values, Header, Heap, HttpRequest, at, put, values, assign, copy_slices, clone_request,
  set_header, credentials, outgoing,
}

at-append : {A : Type 0} (xs ys : List (List A)) (n : ℕ) → n < length xs → at (xs ++ ys) n ≡ at xs n
unfolding at
at-append [] ys n h = absurd (omega arith)
at-append (x ∷ xs) ys zero h = refl
at-append (x ∷ xs) ys (suc n) h = at-append xs ys n (omega arith)

at_end : {A : Type 0} (xs : List (List A)) (y : List A) → at (xs ++ y ∷ []) (length xs) ≡ y
unfolding at
at_end [] y = refl
at_end (x ∷ xs) y = at_end xs y

put_end :
    {A : Type 0} (xs : List (List A)) (y z : List A)
    → put (xs ++ y ∷ []) (length xs) z ≡ xs ++ z ∷ []
unfolding put
put_end [] y z = refl
put_end (x ∷ xs) y z = ap (λ l. x ∷ l) (put_end xs y z)

-- The slices of a header are there.
abbrev pub IsIn : List (List Text) → Header → Type 0
IsIn slices header = All (λ e. e.1 < length slices) header

values-append :
    (slices more : List (List Text)) (header : Header)
    → IsIn slices header
    → values (slices ++ more) header ≡ values slices header
unfolding values
values-append slices more [] h = refl
values-append slices more ((k, a) ∷ header) (h, hs) =
    rw (at-append slices more a h, values-append slices more header hs) refl

IsIn-append :
    (slices more : List (List Text)) (header : Header)
    → IsIn slices header
    → IsIn (slices ++ more) header
IsIn-append slices more [] h = tt
IsIn-append slices more ((k, a) ∷ header) (h, hs) =
    (omega (arith, length-append slices more), IsIn-append slices more header hs)

-- What a copy of slices gives: longer slices, and a header in them with the same values.
record Copied (slices : List (List Text)) (header : Header) (copied : List (List Text) × Header)
    : Type 0 where
  more : List (List Text)
  grown : copied.0 ≡ slices ++ more
  inside : IsIn copied.0 copied.1
  same : values copied.0 copied.1 ≡ values slices header

copy_slices-Copied :
    (slices : List (List Text)) (header : Header)
    → IsIn slices header
    → Copied slices header (copy_slices slices header)
unfolding copy_slices values
copy_slices-Copied slices [] h = record {
  more = [];
  grown = sym (append-nil slices);
  inside = tt;
  same = refl;
}
copy_slices-Copied slices ((k, s) ∷ header) (h, hs) =
    let longer = slices ++ at slices s ∷ [] in
    let c = copy_slices-Copied longer header (IsIn-append slices (at slices s ∷ []) header hs) in
    record {
      more = at slices s ∷ c.more;
      grown = c.grown ∙ append_assoc slices (at slices s ∷ []) c.more;
      inside = (
        omega (
          arith,
          ap length c.grown,
          length-append longer c.more,
          length-append slices (at slices s ∷ []),
        ),
        c.inside,
      );
      same =
          ap₂ (λ vs rest. (k, vs) ∷ rest)
            (ap (λ l. at l (length slices)) c.grown
              ∙ at-append longer c.more (length slices)
                  (omega (arith, length-append slices (at slices s ∷ [])))
              ∙ at_end slices (at slices s))
            (c.same ∙ values-append slices (at slices s ∷ []) header hs);
    }

values-assign :
    (slices : List (List Text)) (k : Text) (a : ℕ) (header : Header)
    → values slices (assign k a header) ≡ assign k (at slices a) (values slices header)
unfolding values assign
values-assign slices k a [] = refl
values-assign slices k a ((j, b) ∷ header) = elim (Bool-cases (j == k)) [
  | inl same ↦ rw same refl
  | inr other ↦ rw other (ap (λ rest. (j, at slices b) ∷ rest) (values-assign slices k a header))
]

values-assign_new :
    (slices : List (List Text)) (k : Text) (v : List Text) (header : Header)
    → IsIn slices header
    → values (slices ++ v ∷ []) (assign k (length slices) header)
      ≡ assign k v (values slices header)
values-assign_new slices k v header h =
    values-assign (slices ++ v ∷ []) k (length slices) header
    ∙ ap₂ (assign k) (at_end slices v) (values-append slices (v ∷ []) header h)

-- The values that the base transport reads: those of the caller, with the token's.
abbrev pub sent : Option Token → Values → Values
sent none vs = vs
sent (some t) vs = assign (codes "Authorization") (credentials t ∷ []) vs

-- The heap has what was in the other one, and more behind it.
pub record Extends (old new : Heap) : Type 0 where
  pub more_maps : List Header
  pub more_slices : List (List Text)
  pub maps_kept : new.maps ≡ old.maps ++ more_maps
  pub slices_kept : new.slices ≡ old.slices ++ more_slices

module _ {R : Type 0} (heap : Heap) (req : HttpRequest R)
    (there : IsIn heap.slices (at heap.maps req.header)) where
  abbrev copied : List (List Text) × Header
  copied = copy_slices heap.slices (at heap.maps req.header)

  cloned_values :
      values copied.0 (at (heap.maps ++ copied.1 ∷ []) (length heap.maps))
      ≡ values heap.slices (at heap.maps req.header)
  cloned_values =
      rw (at_end heap.maps copied.1)
        (copy_slices-Copied heap.slices (at heap.maps req.header) there).same

  -- The base transport is called with a request that differs in its header alone, which has the caller's values and,
  -- if there is a token, the Authorization with it; and no map or slice of the caller is changed.
  pub outgoing-sent :
      (token : Option Token)
      → let (h, r) = outgoing token heap req in
        (values h.slices (at h.maps r.header)
          ≡ sent token (values heap.slices (at heap.maps req.header)))
        × (r.fields ≡ req.fields)
        × Extends heap h
  unfolding outgoing clone_request set_header
  outgoing-sent none =
      let c = copy_slices-Copied heap.slices (at heap.maps req.header) there in
      (
        cloned_values,
        refl,
        record {
          more_maps = copied.1 ∷ [];
          more_slices = c.more;
          maps_kept = refl;
          slices_kept = c.grown;
        },
      )
  outgoing-sent (some t) =
      let c = copy_slices-Copied heap.slices (at heap.maps req.header) there in
      (
        rw (put_end heap.maps copied.1, at_end heap.maps copied.1, at_end heap.maps)
            (values-assign_new copied.0 (codes "Authorization") (credentials t ∷ []) copied.1
                c.inside
              ∙ ap (assign (codes "Authorization") (credentials t ∷ [])) c.same),
        refl,
        record {
          more_maps = assign (codes "Authorization") (length copied.0) copied.1 ∷ [];
          more_slices = c.more ++ (credentials t ∷ []) ∷ [];
          maps_kept = rw (at_end heap.maps copied.1) (
              put_end heap.maps copied.1
                (assign (codes "Authorization") (length copied.0) copied.1));
          slices_kept =
              ap (λ l. l ++ (credentials t ∷ []) ∷ []) c.grown
              ∙ append_assoc heap.slices c.more ((credentials t ∷ []) ∷ []);
        },
      )
