-- ===== src/Transport.antt =====
-- pkg/auth/auth.go: `RegistryTransport`, which adds the token to a copy of a request. Maps and slices are
-- references into a heap, since the point of the copy is that the caller's header stays as it is.
pub mod Copies
pub mod Tests
use image_validating_webhook.Base.{
  ℕ, zero, suc, ◌<◌, Option, none, some, List, [], ◌∷◌, ◌++◌, map, length, Text, codes, ◌==◌,
  if◌then◌else◌, Result, ok, err,
}
use image_validating_webhook.Token.{Token}

-- A header as it is read: the values of each key.
abbrev pub Values : Type 0
Values = List (Text × List Text)

-- A header in the heap: the address of the slice of each key.
abbrev pub Header : Type 0
Header = List (Text × ℕ)

-- The maps and the slices that there are, at their addresses 0, 1, 2, ...
pub record Heap : Type 0 where
  pub maps : List Header
  pub slices : List (List Text)

-- `http.Request`: the address of its header, and the rest.
pub record HttpRequest (R : Type 0) : Type 0 where
  pub header : ℕ
  pub fields : R

-- What stands at an address, or nothing.
unfoldable pub at {ℓ} : {A : Type ℓ} → List (List A) → ℕ → List A
at [] n = []
at (x ∷ xs) zero = x
at (x ∷ xs) (suc n) = at xs n

-- The list with another element at an address.
unfoldable pub put {ℓ} : {A : Type ℓ} → List A → ℕ → A → List A
put [] n y = []
put (x ∷ xs) zero y = y ∷ xs
put (x ∷ xs) (suc n) y = x ∷ put xs n y

unfoldable pub values : List (List Text) → Header → Values
unfolding at
values slices [] = []
values slices ((k, a) ∷ header) = (k, at slices a) ∷ values slices header

-- `m[k] = v`
unfoldable pub assign {ℓ} : {V : Type ℓ} → Text → V → List (Text × V) → List (Text × V)
assign k v [] = (k, v) ∷ []
assign k v ((j, w) ∷ m) = let rest = assign k v m in if j == k then (j, v) ∷ m else (j, w) ∷ rest

-- The loop of `cloneRequest`: every slice is copied to a new address.
unfoldable pub copy_slices : List (List Text) → Header → List (List Text) × Header
unfolding at
copy_slices slices [] = (slices, [])
copy_slices slices ((k, s) ∷ header) =
    let (copied, rest) = copy_slices (slices ++ at slices s ∷ []) header in
    (copied, (k, length slices) ∷ rest)

unfoldable pub clone_request : {R : Type 0} → Heap → HttpRequest R → Heap × HttpRequest R
unfolding copy_slices at
clone_request heap r =
    let (slices, header) = copy_slices heap.slices (at heap.maps r.header) in
    (
      record { maps = heap.maps ++ header ∷ []; slices = slices },
      record r { header = length heap.maps },
    )

-- Header.Set, for a key in canonical form: a new slice with the one value.
unfoldable pub set_header : Heap → ℕ → Text → Text → Heap
unfolding put assign at
set_header heap header key value = record {
  maps = put heap.maps header (assign key (length heap.slices) (at heap.maps header));
  slices = heap.slices ++ (value ∷ []) ∷ [];
}

abbrev pub credentials : Token → Text
credentials t = t.type ++ codes " " ++ t.value

-- The heap and the request with which the base transport is called.
unfoldable pub outgoing : {R : Type 0} → Option Token → Heap → HttpRequest R → Heap × HttpRequest R
unfolding clone_request set_header
outgoing none heap req = clone_request heap req
outgoing (some t) heap req =
    let (cloned, cloned_req) = clone_request heap req in
    (set_header cloned cloned_req.header (codes "Authorization") (credentials t), cloned_req)

unfoldable pub round_trip :
    {R Response : Type 0}
    → (Heap → HttpRequest R → Heap × Result Response)
    → Option Token
    → Heap
    → HttpRequest R
    → Heap × Result Response
unfolding outgoing
round_trip base token heap req =
    let (cloned, cloned_req) = outgoing token heap req in
    let (after, base_resp) = base cloned cloned_req in
    elim base_resp [ err e ↦ (after, err e) | ok resp ↦ (after, ok resp) ]
