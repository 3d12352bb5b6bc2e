-- ===== src/Cache/Refinement.antt =====
-- pkg/watcher/fake/cachedclient.go against pkg/watcher/cachedclient.go: over an indexer that holds the
-- objects of a map, the client lists what the fake lists over the map.
use image_validating_webhook.Base.{
  ◌≡◌, ◌≢◌, ◌↔◌, ◌⊎◌, ◌∙◌, refl, sym, ap, ap₂, inl, inr, Bool-cases, some, Option-cases, List, [],
  ◌∷◌, All, In, All-In, In-All, Distinct, sort_by, arith, Text, lookup, Lacks, Result, ok,
}
use image_validating_webhook.Cache.{
  NamespacedName, Object, Entry, object, other, Indexer, FakeCache, key_str, full_name, entry_key,
  objects_of, selected, list, get, fake_get, fake_selected, fake_list,
}
use image_validating_webhook.Cache.Selection.{
  separated_injective, IsKeyed, is_picked, Held, fake_selected-In,
}
use image_validating_webhook.Cache.Objects.{sorted_objects}

Held-entry :
    {A : Type 0} (cache : FakeCache A) (o : Object A)
    → Held cache o
    → (e : Text × Object A) × In e cache × (e.1 ≡ o)
Held-entry [] o h = elim h [ ]
Held-entry (e ∷ cache) o (inl same) = (e, inl refl, same)
Held-entry (e ∷ cache) o (inr h) = let (d, i, same) = Held-entry cache o h in (d, inr i, same)

same_key :
    {A : Type 0} (d e : Text × Object A)
    → IsKeyed d
    → IsKeyed e
    → full_name d.1 ≡ full_name e.1
    → d.0 ≡ e.0
same_key d e i j same =
    let (namespaces, names) =
      separated_injective b'/' d.1.namespace e.1.namespace d.1.name e.1.name i.namespace_lacks
        j.namespace_lacks same in
    i.keyed_by
    ∙ ap₂ (λ ns n. key_str (record { namespace = ns; name = n })) namespaces names
    ∙ sym j.keyed_by

pub fake_selected-Distinct :
    {A : Type 0} (cache : FakeCache A) (namespace : Text)
    → All IsKeyed cache
    → Distinct (λ e. e.0) cache
    → Lacks b'/' namespace
    → Distinct full_name (fake_selected cache namespace)
unfolding fake_selected
fake_selected-Distinct [] namespace is d l = tt
fake_selected-Distinct (e ∷ cache) namespace (i, is) (d, ds) l =
    let rest = fake_selected-Distinct cache namespace is ds l in
    let fresh : All (λ b. full_name b ≢ full_name e.1) (fake_selected cache namespace) =
      In-All _ (fake_selected cache namespace) (λ b k.
        let (held, _) = (fake_selected-In cache namespace b is l).0 k in
        let (f, stored, of) = Held-entry cache b held in
        λ same.
          All-In _ cache d f stored
            (same_key f e (All-In _ cache is f stored) i (ap full_name of ∙ same))) in
    elim (Bool-cases (is_picked namespace e)) [
      | inl taken ↦ rw (taken, fake_selected) (fresh, rest)
      | inr left ↦ rw (left, fake_selected) rest
    ]

-- The entry is an object of the cache.
abbrev pub Stored : {A : Type 0} → FakeCache A → Entry A → Type 0
Stored cache (object o) = Held cache o
Stored cache (other type) = ⊥

-- The entry is an object of the namespace.
abbrev pub InNamespace : {A : Type 0} → Text → Entry A → Type 0
InNamespace namespace (object o) = o.namespace ≡ namespace
InNamespace namespace (other type) = ⊥

-- An indexer with the key function and the namespace index of pkg/watcher/watcher.go, to which the
-- informer has added the objects of the cache: it holds these, each once, and finds them by key and by
-- namespace.
pub record Serves {A : Type 0} (indexer : Indexer A) (cache : FakeCache A) : Type 0 where
  pub by_key :
      (k : Text) (e : Entry A)
      → (indexer.get_by_key k ≡ some e)
        ↔ ((o : Object A) × (e ≡ object o) × (lookup k cache ≡ some o))
  pub lists : (e : Entry A) → In e indexer.list ↔ Stored cache e
  pub listed_once : Distinct entry_key indexer.list
  pub indexed :
      (namespace : Text)
      → namespace ≢ []
      → Lacks b'/' namespace
      → (es : List (Entry A)) × (indexer.by_index namespace ≡ ok es)
        × Distinct entry_key es
        × ((e : Entry A) → In e es ↔ (Stored cache e × InNamespace namespace e))

module _ {A : Type 0} (indexer : Indexer A) (cache : FakeCache A) (serves : Serves indexer cache)
    (keyed : All IsKeyed cache) (once : Distinct (λ e. e.0) cache) where
  listed_objects :
      (namespace : Text) (es : List (Entry A))
      → Lacks b'/' namespace
      → Distinct entry_key es
      → ((e : Entry A) → In e es ↔ (Stored cache e × ((namespace ≡ []) ⊎ InNamespace namespace e)))
      → objects_of (sort_by entry_key es) ≡ ok (sort_by full_name (fake_selected cache namespace))
  listed_objects namespace es l d holds =
      sorted_objects es (fake_selected cache namespace) d
        (fake_selected-Distinct cache namespace keyed once l)
        (λ o.
          let (to, from) = fake_selected-In cache namespace o keyed l in
          let (left, right) = holds (object o) in (λ h. from (left h), λ h. right (to h)))
        (λ type h. ((holds (other type)).0 h).0)

  pub list_same :
      {B : Type 0} (set_list : List (Object A) → Result B) (namespace : Text)
      → Lacks b'/' namespace
      → list indexer set_list namespace ≡ fake_list cache set_list namespace
  unfolding list fake_list selected
  list_same set_list [] l =
      rw
        (listed_objects [] indexer.list l serves.listed_once
          λ e. (λ h. ((serves.lists e).0 h, inl refl), λ (h, _). (serves.lists e).1 h))
        refl
  list_same set_list (c ∷ ns) l =
      let (es, found, d, holds) = serves.indexed (c ∷ ns) (λ e. ground arith) l in
      rw
        (
          found,
          listed_objects (c ∷ ns) es l d λ e. (
            λ h. (((holds e).0 h).0, inr ((holds e).0 h).1),
            λ (h, p).
                (holds e).1
                  (h, elim p [ inl no_namespace ↦ absurd (ground arith) | inr in_it ↦ in_it ]),
          ),
        )
        refl

  get_same :
      (key : NamespacedName) (out_type : Text) (v : A)
      → (get indexer key out_type ≡ ok v) ↔ (fake_get cache key out_type ≡ ok v)
  unfolding get fake_get
  get_same key out_type v = elim (Option-cases (lookup (key_str key) cache)) [
    | inr (o, found) ↦
        let there = (serves.by_key (key_str key) (object o)).1 (o, refl, found) in
        rw (there, found, get, fake_get) (λ e. e, λ e. e)
    | inl missing ↦ elim (Option-cases (indexer.get_by_key (key_str key))) [
      | inl gone ↦
          rw (gone, missing, get, fake_get) (λ e. absurd (ground arith), λ e. absurd (ground arith))
      | inr (e, there) ↦
          let (o, _, found) = (serves.by_key (key_str key) e).0 there in absurd (ground arith)
    ]
  ]

  -- Over an indexer that holds the objects of a cache, each once and under the key of its names,
  -- which have no slash, the client finds an object under a name exactly if the fake does, with the
  -- same value, and lists for every namespace without a slash, and for none, what the fake lists:
  -- the same objects in the same order, whatever the order of the map and of the indexer.
  pub client_refines :
      {B : Type 0} (set_list : List (Object A) → Result B) (key : NamespacedName)
      (out_type namespace : Text) (v : A)
      → Lacks b'/' namespace
      → ((get indexer key out_type ≡ ok v) ↔ (fake_get cache key out_type ≡ ok v))
        × (list indexer set_list namespace ≡ fake_list cache set_list namespace)
  client_refines set_list key out_type namespace v l =
      (get_same key out_type v, list_same set_list namespace l)
