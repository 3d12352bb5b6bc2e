-- ===== src/Watcher/Pending.antt =====
-- pkg/watcher/watcher.go: no version of an object is lost between the informer, the queue and the worker.
use image_validating_webhook.Base.{
  ◌≡◌, ◌≢◌, ◌⊎◌, ◌∙◌, sym, ap, subst, inl, inr, Option, some, List, ◌∷◌, All, arith, Text, ◌==◌,
  text_eq_iff, Bool-cases, lookup,
}
use image_validating_webhook.Cache.{Object, Entry, object, Indexer}
use image_validating_webhook.Watcher.{Item, string, item, WorkQueue, Phase, waiting, took, has, Set}
use image_validating_webhook.Watcher.Queueing.{IsWorkQueue}

-- The objects handed over, with the one that is about to be.
abbrev pub calls_of : {A : Type 0} → Phase A → List (Text × Object A) → List (Text × Object A)
calls_of waiting handed = handed
calls_of (took k) handed = handed
calls_of (has key o) handed = (key, o) ∷ handed

-- The key of the item that the worker has taken.
abbrev pub Taking : {A : Type 0} → Phase A → Text → Type 0
Taking waiting j = ⊥
Taking (took k) j = k ≡ string j
Taking (has key o) j = key ≡ j

abbrev pub Took : {A : Type 0} → Phase A → Text → Type 0
Took waiting j = ⊥
Took (took k) j = k ≡ string j
Took (has key o) j = ⊥

pub string_injective : (k j : Text) → string k ≡ string j → k ≡ j
string_injective k j e = cc

read_same :
    {A : Type 0} (indexer : Indexer A) (k j : Text) (o p : Object A)
    → k ≡ j
    → indexer.get_by_key k ≡ some (object o)
    → indexer.get_by_key j ≡ some (object p)
    → some o ≡ some p
read_same indexer k j o p e found at = cc

module _ {Q A : Type 0} (queue : WorkQueue Q) (laws : IsWorkQueue queue)
    (Selected : Text → Type 0) where
  -- The object of the key is on its way to the handler, or is the last that was handed over for the key.
  abbrev pub Due : Q → Phase A → List (Text × Object A) → Text → Object A → Type 0
  Due q phase handed key o =
      laws.Pending q key ⊎ (Took phase key ⊎ (lookup key (calls_of phase handed) ≡ some o))

  -- Where the objects of the indexer are.
  pub record Holds (q : Q) (indexer : Indexer A) (phase : Phase A) (handed : List (Text × Object A))
      : Type 0 where
    pub is_open : laws.IsOpen q
    pub busy : (j : Text) → laws.Busy q j → Taking phase j
    pub stored : (j : Text) (e : Entry A) → indexer.get_by_key j ≡ some e → Selected j
    pub called : All (λ c. Selected c.0) (calls_of phase handed)
    pub due :
        (j : Text) (o : Object A) → indexer.get_by_key j ≡ some (object o) → Due q phase handed j o

  Due-add :
      (q : Q) (phase : Phase A) (handed : List (Text × Object A)) (k j : Text) (o : Object A)
      → Due q phase handed j o
      → Due (queue.add q k) phase handed j o
  Due-add q phase handed k j o (inl p) = inl (laws.add_kept q k j p)
  Due-add q phase handed k j o (inr d) = inr d

  stored_set :
      (indexer new : Indexer A) (key j : Text) (e : Option (Entry A)) (f : Entry A)
      → Selected key
      → Set key e indexer new
      → ((i : Text) (g : Entry A) → indexer.get_by_key i ≡ some g → Selected i)
      → new.get_by_key j ≡ some f
      → Selected j
  stored_set indexer new key j e f sel set old found = elim (Bool-cases (j == key)) [
    | inl same ↦ subst Selected (sym ((text_eq_iff j key).0 same)) sel
    | inr differs ↦
        old j f (sym (set.elsewhere j (λ same. ground (arith, text_eq_iff j key))) ∙ found)
  ]

  Due-set :
      (q : Q) (indexer new : Indexer A) (phase : Phase A) (handed : List (Text × Object A))
      (key j : Text) (e : Option (Entry A)) (o : Object A)
      → Set key e indexer new
      → Holds q indexer phase handed
      → new.get_by_key j ≡ some (object o)
      → Due (queue.add q key) phase handed j o
  Due-set q indexer new phase handed key j e o set h found = elim (Bool-cases (j == key)) [
    | inl same ↦ inl (
        subst (λ i. laws.Pending (queue.add q key) i) (sym ((text_eq_iff j key).0 same))
          (laws.add_pending q key h.is_open))
    | inr differs ↦
        Due-add q phase handed key j o
          (h.due j o (sym (set.elsewhere j (λ same. ground (arith, text_eq_iff j key))) ∙ found))
  ]

  pub Holds-set :
      (q : Q) (indexer new : Indexer A) (phase : Phase A) (handed : List (Text × Object A))
      (key : Text) (e : Option (Entry A))
      → Selected key
      → Set key e indexer new
      → Holds q indexer phase handed
      → Holds (queue.add q key) new phase handed
  Holds-set q indexer new phase handed key e sel set h = record {
    is_open = laws.add_open q key h.is_open;
    busy = λ j b. h.busy j (laws.add_busy q key j b);
    stored = λ j f found. stored_set indexer new key j e f sel set h.stored found;
    called = h.called;
    due = λ j o found. Due-set q indexer new phase handed key j e o set h found;
  }

  Due-take :
      (q r : Q) (k : Item) (handed : List (Text × Object A)) (j : Text) (o : Object A)
      → queue.get q ≡ item k r
      → Due q waiting handed j o
      → Due r (took k) handed j o
  Due-take q r k handed j o got (inl p) = elim (laws.get_kept q r k j got p) [
    | inl e ↦ inr (inl e)
    | inr kept ↦ inl kept
  ]
  Due-take q r k handed j o got (inr (inl t)) = absurd t
  Due-take q r k handed j o got (inr (inr l)) = inr (inr l)

  pub Holds-take :
      (q r : Q) (k : Item) (indexer : Indexer A) (handed : List (Text × Object A))
      → queue.get q ≡ item k r
      → Holds q indexer waiting handed
      → Holds r indexer (took k) handed
  Holds-take q r k indexer handed got h = record {
    is_open = laws.get_open q r k got h.is_open;
    busy = λ j b. elim (laws.get_busy q r k j got b) [ inl e ↦ e | inr c ↦ absurd (h.busy j c) ];
    stored = h.stored;
    called = h.called;
    due = λ j o found. Due-take q r k handed j o got (h.due j o found);
  }

  Due-find :
      (q : Q) (key : Text) (indexer : Indexer A) (handed : List (Text × Object A)) (o : Object A)
      (j : Text) (p : Object A)
      → indexer.get_by_key key ≡ some (object o)
      → indexer.get_by_key j ≡ some (object p)
      → Due q (took (string key)) handed j p
      → Due q (has key o) handed j p
  unfolding lookup
  Due-find q key indexer handed o j p found at (inl k) = inl k
  Due-find q key indexer handed o j p found at (inr d) = elim (Bool-cases (key == j)) [
    | inl same ↦
        let e : key ≡ j = (text_eq_iff key j).0 same in
        inr (inr (rw (same, lookup) (read_same indexer key j o p e found at)))
    | inr differs ↦ elim d [
      | inl e ↦ absurd (ground (arith, text_eq_iff key j, string_injective key j e))
      | inr l ↦ inr (inr (rw (differs, lookup) l))
    ]
  ]

  pub Holds-find :
      (q : Q) (key : Text) (indexer : Indexer A) (handed : List (Text × Object A)) (o : Object A)
      → indexer.get_by_key key ≡ some (object o)
      → Holds q indexer (took (string key)) handed
      → Holds q indexer (has key o) handed
  Holds-find q key indexer handed o found h = record {
    is_open = h.is_open;
    busy = λ j b. string_injective key j (h.busy j b);
    stored = h.stored;
    called = (h.stored key (object o) found, h.called);
    due = λ j p at. Due-find q key indexer handed o j p found at (h.due j p at);
  }

  -- The worker is done with an item under which there is no object.
  pub Holds-skip :
      (q : Q) (k : Item) (indexer : Indexer A) (handed : List (Text × Object A))
      → ((j : Text) (o : Object A) → k ≡ string j → indexer.get_by_key j ≢ some (object o))
      → Holds q indexer (took k) handed
      → Holds (queue.done q k) indexer waiting handed
  Holds-skip q k indexer handed gone h = record {
    is_open = laws.done_open q k h.is_open;
    busy = λ j b. let (c, other_key) = laws.done_busy q k j b in other_key (h.busy j c);
    stored = h.stored;
    called = h.called;
    due = λ j o found. elim (h.due j o found) [
      | inl p ↦ inl (laws.done_kept q k j p)
      | inr (inl e) ↦ absurd (gone j o e found)
      | inr (inr l) ↦ inr (inr l)
    ];
  }

  pub Holds-hand :
      (q : Q) (key : Text) (indexer : Indexer A) (handed : List (Text × Object A)) (o : Object A)
      → Holds q indexer (has key o) handed
      → Holds (queue.done q (string key)) indexer waiting ((key, o) ∷ handed)
  Holds-hand q key indexer handed o h = record {
    is_open = laws.done_open q (string key) h.is_open;
    busy = λ j b.
        let (c, other_key) = laws.done_busy q (string key) j b in
        other_key (ap string (h.busy j c));
    stored = h.stored;
    called = h.called;
    due = λ j p found. elim (h.due j p found) [
      | inl k ↦ inl (laws.done_kept q (string key) j k)
      | inr (inl e) ↦ absurd e
      | inr (inr l) ↦ inr (inr l)
    ];
  }
