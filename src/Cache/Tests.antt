-- ===== src/Cache/Tests.antt =====
-- An indexer over a map, and objects as in pkg/watcher/cachedclient_test.go.
use image_validating_webhook.Base.{
  ◌≡◌, ◌≢◌, ◌↔◌, refl, inl, inr, Option, none, some, List, [], ◌∷◌, map, All, In, Distinct, arith,
  Text, codes, lookup, Lacks, ok,
}
use image_validating_webhook.Cache.{
  Object, Entry, object, other, Indexer, FakeCache, key_str, full_name, entry_key, fake_selected,
  get, list, fake_get, fake_list,
}
use image_validating_webhook.Cache.Selection.{IsKeyed, fake_selected-In}
use image_validating_webhook.Cache.Refinement.{
  Stored, InNamespace, fake_selected-Distinct, client_refines,
}
use image_validating_webhook.Cache.Objects.{In-map_object, no_other}
use image_validating_webhook.Cache.Isolation.{Backed}

abbrev entry_of : {A : Type 0} → Option (Object A) → Option (Entry A)
entry_of none = none
entry_of (some o) = some (object o)

abbrev pub indexer_of : {A : Type 0} → FakeCache A → Indexer A
indexer_of cache = record {
  get_by_key = λ k. entry_of (lookup k cache);
  by_index = λ namespace. ok (map object (fake_selected cache namespace));
  list = map object (fake_selected cache []);
  not_found = λ name. name;
}

fresh :
    {A : Type 0} (k : Text) (os : List (Object A))
    → All (λ b. full_name b ≢ k) os
    → All (λ e. entry_key e ≢ k) (map object os)
fresh k [] d = tt
fresh k (o ∷ os) (d, ds) = (d, fresh k os ds)

map-Distinct :
    {A : Type 0} (os : List (Object A)) → Distinct full_name os → Distinct entry_key (map object os)
map-Distinct [] d = tt
map-Distinct (o ∷ os) (d, ds) = (fresh (full_name o) os d, map-Distinct os ds)

looked_up :
    {A : Type 0} (found : Option (Object A)) (e : Entry A)
    → (entry_of found ≡ some e) ↔ ((o : Object A) × (e ≡ object o) × (found ≡ some o))
looked_up none e = (λ h. absurd (ground arith), λ (o, _, h). absurd (ground arith))
looked_up (some p) e = (λ h. (p, cc, refl), λ (o, same, h). cc)

all_listed :
    {A : Type 0} (cache : FakeCache A)
    → All IsKeyed cache
    → (e : Entry A) → In e (map object (fake_selected cache [])) ↔ Stored cache e
all_listed cache keyed (object o) =
    let (to, from) = In-map_object (fake_selected cache []) o in
    let (left, right) = fake_selected-In cache [] o keyed refl in
    (λ h. (left (to h)).0, λ h. from (right (h, inl refl)))
all_listed cache keyed (other type) = (λ h. no_other (fake_selected cache []) type h, λ h. absurd h)

namespace_listed :
    {A : Type 0} (cache : FakeCache A) (namespace : Text)
    → All IsKeyed cache
    → namespace ≢ []
    → Lacks b'/' namespace
    → (e : Entry A)
    → In e (map object (fake_selected cache namespace)) ↔ (Stored cache e × InNamespace namespace e)
namespace_listed cache namespace keyed ne l (object o) =
    let (to, from) = In-map_object (fake_selected cache namespace) o in
    let (left, right) = fake_selected-In cache namespace o keyed l in
    (
      λ h. ((left (to h)).0, elim (left (to h)).1 [ inl e ↦ absurd (ne e) | inr e ↦ e ]),
      λ (h, e). from (right (h, inr e)),
    )
namespace_listed cache namespace keyed ne l (other type) =
    (λ h. absurd (no_other (fake_selected cache namespace) type h), λ (h, _). absurd h)

pub indexer_of-Backed :
    {A : Type 0} (cache : FakeCache A)
    → All IsKeyed cache
    → Distinct (λ e. e.0) cache
    → Backed (indexer_of cache) cache
indexer_of-Backed cache keyed once = record {
  serves = record {
    by_key = λ k e. looked_up (lookup k cache) e;
    lists = all_listed cache keyed;
    listed_once =
        map-Distinct (fake_selected cache []) (fake_selected-Distinct cache [] keyed once refl);
    indexed = λ namespace ne l. (
      map object (fake_selected cache namespace),
      refl,
      map-Distinct (fake_selected cache namespace)
          (fake_selected-Distinct cache namespace keyed once l),
      namespace_listed cache namespace keyed ne l,
    );
  };
  keyed = keyed;
  once = once;
}

abbrev entry : Text → Text → Text × Object Text
entry namespace name = (
  key_str (record { namespace = namespace; name = name }),
  record { type = codes "Pod"; namespace = namespace; name = name; value = name },
)

abbrev two : FakeCache Text
two =
    entry (codes "ns-2") (codes "a")
    ∷ entry (codes "ns") (codes "b")
    ∷ entry (codes "ns") (codes "a")
    ∷ []

entry-IsKeyed :
    (namespace name : Text)
    → Lacks b'/' namespace
    → Lacks b'/' name
    → IsKeyed (entry namespace name)
entry-IsKeyed namespace name l m = record { keyed_by = refl; namespace_lacks = l; name_lacks = m }

b_in-IsKeyed : IsKeyed (entry (codes "ns") (codes "b"))
b_in-IsKeyed = entry-IsKeyed (codes "ns") (codes "b") refl refl

a_in-IsKeyed : IsKeyed (entry (codes "ns") (codes "a"))
a_in-IsKeyed = entry-IsKeyed (codes "ns") (codes "a") refl refl

two-Backed : Backed (indexer_of two) two
unfolding key_str
two-Backed =
    indexer_of-Backed two
      (entry-IsKeyed (codes "ns-2") (codes "a") refl refl, (b_in-IsKeyed, (a_in-IsKeyed, tt)))
      ((λ e. ground arith, (λ e. ground arith, tt)), ((λ e. ground arith, tt), (tt, tt)))

client_refines_example :
    ((get (indexer_of two) (record { namespace = codes "ns"; name = codes "a" }) (codes "Pod")
        ≡ ok (codes "a"))
      ↔ (fake_get two (record { namespace = codes "ns"; name = codes "a" }) (codes "Pod")
          ≡ ok (codes "a")))
    × (list (indexer_of two) ok (codes "ns") ≡ fake_list two ok (codes "ns"))
client_refines_example =
    client_refines (indexer_of two) two two-Backed.serves two-Backed.keyed two-Backed.once ok
      (record { namespace = codes "ns"; name = codes "a" }) (codes "Pod") (codes "ns") (codes "a")
      refl
