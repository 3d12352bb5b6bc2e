-- ===== src/Cache.antt =====
-- pkg/watcher/cachedclient.go and pkg/watcher/fake/cachedclient.go: reading objects from the indexer
-- of a watcher, and from the map that stands for it in tests. Deep copies of values are the values.
pub mod Selection
pub mod Objects
pub mod Refinement
pub mod Isolation
pub mod Tests
use image_validating_webhook.Base.{
  ℕ, Bool, true, false, ◌||◌, Option, none, some, List, [], ◌∷◌, ◌++◌, map, if◌then◌else◌, Text,
  codes, ◌==◌, is_empty, has_prefix, lookup, sort_by, Result, ok, err, ◌>>=◌,
}

-- `types.NamespacedName`
pub record NamespacedName : Type 0 where
  pub namespace : Text
  pub name : Text

-- A `runtime.Object`: the name of its Go type, the names of its metadata, and the rest.
pub record Object (A : Type 0) : Type 0 where
  pub type : Text
  pub namespace : Text
  pub name : Text
  pub value : A

-- An entry of the indexer, which holds values of any type: an object, or the name of another type.
pub data Entry (A : Type 0) : Type 0 where
  object : Object A → Entry A
  other : Text → Entry A

-- What the client uses of a `cache.Indexer`, and the message of `errors.NewNotFound` for a name.
pub record Indexer (A : Type 0) : Type 0 where
  pub get_by_key : Text → Option (Entry A)
  pub by_index : Text → Result (List (Entry A))
  pub list : List (Entry A)
  pub not_found : Text → Text

-- `<namespace>/<name>`, the text by which both clients sort.
abbrev pub full_name : {A : Type 0} → Object A → Text
full_name o = o.namespace ++ b'/' ∷ o.name

-- The key of an object in a cache, without the slash if it has no namespace.
unfoldable pub key_str : NamespacedName → Text
key_str key = (if is_empty key.namespace then [] else key.namespace ++ b'/' ∷ []) ++ key.name

abbrev pub not_an_object : Text → Text
not_an_object type = codes "cache contained " ++ (type ++ codes ", which is not an Object")

abbrev pub other_type : Text → Text → Text
other_type had asked =
    codes "cache had type " ++ (had ++ (codes ", but " ++ (asked ++ codes " was asked for")))

-- The value written to the destination, whose type is asked for.
unfoldable pub assigned : {A : Type 0} → Object A → Text → Result A
assigned o out_type = if o.type == out_type then ok o.value else err (other_type o.type out_type)

-- The key of an entry to sort by. Only objects have one; a list with an entry that is no object is
-- an error in whatever order.
abbrev pub entry_key : {A : Type 0} → Entry A → Text
entry_key (object o) = full_name o
entry_key (other type) = []

-- The loop over the sorted entries.
unfoldable pub objects_of : {A : Type 0} → List (Entry A) → Result (List (Object A))
objects_of [] = ok []
objects_of (object o ∷ items) = do objs ← objects_of items; ok (o ∷ objs)
objects_of (other type ∷ items) = err (not_an_object (codes "<nil>"))

module _ {A : Type 0} (indexer : Indexer A) where
  unfoldable pub get : NamespacedName → Text → Result A
  unfolding assigned
  get key out_type = elim (indexer.get_by_key (key_str key)) [
    | none ↦ err (indexer.not_found key.name)
    | some (other type) ↦ err (not_an_object type)
    | some (object o) ↦ assigned o out_type
  ]

  -- The entries that the selector picks: of a namespace, or all.
  unfoldable pub selected : Text → Result (List (Entry A))
  selected namespace = if is_empty namespace then ok indexer.list else indexer.by_index namespace

  -- `List`; `set_list` stands for meta.SetList, which fills the destination.
  unfoldable pub list : {B : Type 0} → (List (Object A) → Result B) → Text → Result B
  unfolding selected objects_of sort_by
  list set_list namespace = do
    objs ← selected namespace
    runtime_objs ← objects_of (sort_by entry_key objs)
    set_list runtime_objs

-- The fake: a map from keys to objects, in the order in which Go ranges over it.
abbrev pub FakeCache : Type 0 → Type 0
FakeCache A = List (Text × Object A)

unfoldable pub fake_get : {A : Type 0} → FakeCache A → NamespacedName → Text → Result A
unfolding assigned
fake_get cache key out_type = elim (lookup (key_str key) cache) [
  | none ↦ err (codes "not found")
  | some o ↦ assigned o out_type
]

-- The loop of the fake's `List`.
unfoldable pub fake_selected : {A : Type 0} → FakeCache A → Text → List (Object A)
fake_selected [] namespace = []
fake_selected ((k, o) ∷ cache) namespace =
    let rest = fake_selected cache namespace in
    if is_empty namespace || has_prefix k (namespace ++ b'/' ∷ []) then o ∷ rest else rest

unfoldable pub fake_list :
    {A B : Type 0} → FakeCache A → (List (Object A) → Result B) → Text → Result B
unfolding fake_selected sort_by
fake_list cache set_list namespace = set_list (sort_by full_name (fake_selected cache namespace))
