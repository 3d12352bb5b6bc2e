-- ===== src/Cache/Isolation.antt =====
-- pkg/watcher/cachedclient.go: a list for a namespace depends on the objects of that namespace only.
use image_validating_webhook.Base.{
  ◌≡◌, ◌≢◌, ◌↔◌, ◌∙◌, sym, ap, inl, inr, List, [], All, In, Distinct, Increasing-unique, sort_by,
  sort_by-In, sort_by-Increasing, Text, Lacks, Result,
}
use image_validating_webhook.Cache.{
  Object, Indexer, FakeCache, full_name, list, fake_selected, fake_list,
}
use image_validating_webhook.Cache.Selection.{IsKeyed, Held, fake_selected-In}
use image_validating_webhook.Cache.Refinement.{Serves, fake_selected-Distinct, list_same}

-- What the objects of a watcher are known to be: the indexer holds those of the map, each under the
-- key of its names, once.
pub record Backed {A : Type 0} (indexer : Indexer A) (cache : FakeCache A) : Type 0 where
  pub serves : Serves indexer cache
  pub keyed : All IsKeyed cache
  pub once : Distinct (λ e. e.0) cache

-- The caches hold the same objects of the namespace.
abbrev pub SameIn : {A : Type 0} → Text → FakeCache A → FakeCache A → Type 0
SameIn {A} namespace c d = (o : Object A) → o.namespace ≡ namespace → Held c o ↔ Held d o

picked_from :
    {A : Type 0} (namespace : Text) (c d : FakeCache A) (o : Object A)
    → namespace ≢ []
    → Lacks b'/' namespace
    → All IsKeyed c
    → All IsKeyed d
    → (o.namespace ≡ namespace → Held c o → Held d o)
    → In o (sort_by full_name (fake_selected c namespace))
    → In o (sort_by full_name (fake_selected d namespace))
picked_from namespace c d o ne l i j into h =
    let (held, picked) =
      (fake_selected-In c namespace o i l).0
        ((sort_by-In full_name o (fake_selected c namespace)).0 h) in
    let in_it : o.namespace ≡ namespace = elim picked [ inl e ↦ absurd (ne e) | inr e ↦ e ] in
    (sort_by-In full_name o (fake_selected d namespace)).1
      ((fake_selected-In d namespace o j l).1 (into in_it held, picked))

sorted_same :
    {A : Type 0} (namespace : Text) (c d : FakeCache A)
    → namespace ≢ []
    → Lacks b'/' namespace
    → All IsKeyed c
    → All IsKeyed d
    → Distinct (λ e. e.0) c
    → Distinct (λ e. e.0) d
    → SameIn namespace c d
    → sort_by full_name (fake_selected c namespace) ≡ sort_by full_name (fake_selected d namespace)
sorted_same namespace c d ne l i j u v same =
    Increasing-unique full_name _ _
      (sort_by-Increasing full_name _ (fake_selected-Distinct c namespace i u l))
      (sort_by-Increasing full_name _ (fake_selected-Distinct d namespace j v l))
      (λ o. (
        picked_from namespace c d o ne l i j (λ e. (same o e).0),
        picked_from namespace d c o ne l j i (λ e. (same o e).1),
      ))

-- Two clients list the same for a namespace in which they hold the same objects, whatever they hold
-- elsewhere.
pub list-isolated :
    {A B : Type 0} (a b : Indexer A) (c d : FakeCache A) (set_list : List (Object A) → Result B)
    (namespace : Text)
    → Backed a c
    → Backed b d
    → namespace ≢ []
    → Lacks b'/' namespace
    → SameIn namespace c d
    → list a set_list namespace ≡ list b set_list namespace
unfolding fake_list
list-isolated a b c d set_list namespace p q ne l same =
    list_same a c p.serves p.keyed p.once set_list namespace l
    ∙ ap set_list (sorted_same namespace c d ne l p.keyed q.keyed p.once q.once same)
    ∙ sym (list_same b d q.serves q.keyed q.once set_list namespace l)
