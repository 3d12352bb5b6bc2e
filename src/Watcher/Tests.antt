-- ===== src/Watcher/Tests.antt =====
-- A queue of strings, first in first out, and a watcher that an informer fills.
use image_validating_webhook.Base.{
  ℕ, zero, suc, ◌≤◌, ◌≡◌, ◌≢◌, ◌⊎◌, refl, sym, subst, inl, inr, true, none, some, List, [], ◌∷◌,
  ◌++◌, In, arith, Text, codes, ◌==◌, text_eq_iff, text_eq_refl, false, if◌then◌else◌, Option,
  Result, ok, err,
}
use image_validating_webhook.Cache.{Object, Entry, object, other, Indexer, key_str}
use image_validating_webhook.Watcher.{
  Item, string, item, waits, quits, Taken, WorkQueue, Watcher, new_watcher, set_handler, watch, Set,
  on_add, added, Steps, rest, next,
}
use image_validating_webhook.Watcher.Queueing.{IsWorkQueue}
use image_validating_webhook.Watcher.Invariant.{Inv, new_watcher-Inv}
use image_validating_webhook.Watcher.Drain.{Caught, watch-IsServed}

abbrev length : List Text → ℕ
length [] = zero
length (k ∷ ks) = suc (length ks)

abbrev first : List Text → Taken (List Text)
first [] = waits
first (k ∷ ks) = item (string k) ks

-- Without duplicates removed, which may hand over an object twice.
abbrev pub fifo : WorkQueue (List Text)
fifo = record { new = []; add = λ ks k. ks ++ k ∷ []; get = first; done = λ ks k. ks }

pub in_added : (ks : List Text) (k j : Text) → (In j ks) ⊎ (k ≡ j) → In j (ks ++ k ∷ [])
in_added [] k j (inl i) = absurd i
in_added [] k j (inr e) = inl e
in_added (i ∷ ks) k j (inl (inl e)) = inl e
in_added (i ∷ ks) k j (inl (inr h)) = inr (in_added ks k j (inl h))
in_added (i ∷ ks) k j (inr e) = inr (in_added ks k j (inr e))

rest_of : (i : Text) (q r : List Text) (k : Item) → first (i ∷ q) ≡ item k r → q ≡ r
rest_of i q r k got = cc

pub never_quits : (q : List Text) → first q ≢ quits
never_quits [] e = ground arith
never_quits (k ∷ q) e = ground arith

pub waits_empty : (q : List Text) (j : Text) → first q ≡ waits → In j q → ⊥
waits_empty [] j e i = i
waits_empty (k ∷ q) j e i = ground arith

pub one_less : (q r : List Text) (k : Item) → first q ≡ item k r → suc (length r) ≤ length q
one_less [] r k got = absurd (ground arith)
one_less (i ∷ q) r k got = rw (sym (rest_of i q r k got)) (omega arith)

pub taken :
    (q r : List Text) (k : Item) (j : Text) → first q ≡ item k r → In j q → (k ≡ string j) ⊎ In j r
taken [] r k j got i = absurd i
taken (i ∷ q) r k j got (inl e) = inl cc
taken (i ∷ q) r k j got (inr h) = inr (subst (In j) (rest_of i q r k got) h)

abbrev pub fifo_laws : IsWorkQueue fifo
fifo_laws = record {
  IsOpen = λ q. Unit;
  Pending = λ q j. In j q;
  Busy = λ q j. ⊥;
  size = length;
  new_open = tt;
  new_free = λ j b. b;
  add_open = λ q k o. tt;
  add_pending = λ q k o. in_added q k k (inr refl);
  add_kept = λ q k j p. in_added q k j (inl p);
  add_busy = λ q k j b. b;
  get_goes_on = λ q o e. never_quits q e;
  get_open = λ q r k got o. tt;
  get_kept = λ q r k j got p. taken q r k j got p;
  get_busy = λ q r k j got b. absurd b;
  get_waits = λ q j got p. waits_empty q j got p;
  get_size = λ q r k got. one_less q r k got;
  done_open = λ q k o. tt;
  done_kept = λ q k j p. p;
  done_busy = λ q k j b. absurd b;
  done_size = λ q k. omega arith;
}

abbrev pub empty : {A : Type 0} → Indexer A
empty = record {
  get_by_key = λ k. none;
  by_index = λ namespace. ok [];
  list = [];
  not_found = λ name. name;
}

-- The indexer that has one entry.
abbrev pub with_entry : {A : Type 0} → Text → Entry A → Indexer A
with_entry key e = record {
  get_by_key = λ k. if k == key then some e else none;
  by_index = λ namespace. ok [];
  list = e ∷ [];
  not_found = λ name. name;
}

differing : (j k : Text) → j ≢ k → (j == k) ≡ false
differing j k d = ground (arith, text_eq_iff j k)

pub with_entry-Set :
    {A : Type 0} (key : Text) (e : Entry A) → Set key (some e) empty (with_entry key e)
with_entry-Set key e = record {
  here = rw (text_eq_refl key) refl;
  elsewhere = λ j differs. rw (differing j key differs) refl;
}

abbrev pub key_function : {A : Type 0} → Entry A → Result Text
key_function (object o) = ok (key_str (record { namespace = o.namespace; name = o.name }))
key_function (other type) = err (codes "no object")

-- A handler that keeps the last object it was called with.
abbrev keeps : Object ℕ → ℕ → ℕ × Option Text
keeps o n = (o.value, none)

abbrev pod : Object ℕ
pod = record { type = codes "*v1.Pod"; namespace = codes "ns"; name = codes "a"; value = 7 }

abbrev started : Watcher (List Text) ℕ ℕ
started = set_handler keeps (new_watcher fifo empty 0)

abbrev informed : Watcher (List Text) ℕ ℕ
informed = record started {
  indexer = with_entry (codes "ns/a") (object pod);
  queue = on_add fifo key_function started.queue (object pod);
}

informed-Steps : Steps fifo key_function key_function (λ k. k ≡ codes "ns/a") started informed
unfolding key_str set_handler new_watcher
informed-Steps = next rest (
    added started (codes "ns/a") (object pod) (with_entry (codes "ns/a") (object pod)) refl refl
      (with_entry-Set (codes "ns/a") (object pod)))

new_watcher-Inv_example : Inv fifo fifo_laws (λ k. k ≡ codes "ns/a") keeps 0 informed
new_watcher-Inv_example =
    new_watcher-Inv fifo fifo_laws (λ k. k ≡ codes "ns/a") keeps 0 key_function key_function empty
      (λ j. refl) informed-Steps

watch-IsServed_example :
    ((watch fifo 2 informed).1 ≡ true)
    × Caught fifo fifo_laws
        (λ k. k ≡ codes "ns/a")
        keeps
        0
        key_function
        key_function
        informed
        (watch fifo 2 informed).0
unfolding on_add key_str set_handler new_watcher
watch-IsServed_example =
    watch-IsServed fifo fifo_laws (λ k. k ≡ codes "ns/a") keeps 0 key_function key_function 2 empty
      informed (λ j. refl) informed-Steps refl (omega arith)
