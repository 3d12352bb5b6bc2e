-- ===== src/Watcher.antt =====
-- pkg/watcher/watcher.go: the event handlers of an informer, which fill a work queue with keys, and the
-- worker, which hands the objects under these keys to the handler. The queue of client-go is a parameter.
pub mod Queueing
pub mod Pending
pub mod Invariant
pub mod Worker
pub mod Drain
pub mod Tests
use image_validating_webhook.Base.{
  ℕ, zero, suc, ◌≡◌, ◌≢◌, Bool, true, false, Option, none, some, List, [], ◌∷◌, ◌++◌, Text, codes,
  Result, ok, err, Outcome, done, panics, if◌then◌else◌,
}
use image_validating_webhook.Cache.{Object, Entry, object, other, Indexer, not_an_object}

-- An item of the queue, which holds values of any type: a string, or the name of another type.
pub data Item : Type 0 where
  string : Text → Item
  no_string : Text → Item

-- What `Get` does: it returns an item, returns that the queue shuts down, or waits.
pub data Taken (Q : Type 0) : Type 0 where
  item : Item → Q → Taken Q
  quits waits : Taken Q

-- A `workqueue.RateLimitingInterface`: the operations that the watcher uses of it.
pub record WorkQueue (Q : Type 0) : Type 0 where
  pub new : Q
  pub add : Q → Text → Q
  pub get : Q → Taken Q
  pub done : Q → Item → Q

-- Where the worker stands: it waits in `Get`, has taken an item, or has read an object to hand over.
pub data Phase (A : Type 0) : Type 0 where
  waiting : Phase A
  took : Item → Phase A
  has : Text → Object A → Phase A

-- `watcher`, with the state of its handler, the objects that were handed to it with their keys, the
-- latest first, and the lines that were logged, the latest first.
pub record Watcher (Q A H : Type 0) : Type 0 where
  pub queue : Q
  pub indexer : Indexer A
  pub handler : Option (Object A → H → H × Option Text)
  pub state : H
  pub handed : List (Text × Object A)
  pub log : List Text
  pub phase : Phase A

-- What an iteration of `watch` does: it goes on, stops, or waits.
pub data Turn (W : Type 0) : Type 0 where
  goes_on : W → Turn W
  stops waits : Turn W

abbrev pub not_found : Text → Text
not_found key = codes "resource " ++ (key ++ codes " not found\n")

abbrev add_key : {Q : Type 0} → WorkQueue Q → Q → Result Text → Q
add_key queue q (ok key) = queue.add q key
add_key queue q (err e) = q

module _ {Q A : Type 0} (queue : WorkQueue Q) (key_func : Entry A → Result Text) where
  -- AddFunc
  unfoldable pub on_add : Q → Entry A → Q
  on_add q obj = add_key queue q (key_func obj)

  -- UpdateFunc
  unfoldable pub on_update : Q → Entry A → Entry A → Q
  on_update q old_obj new_obj = add_key queue q (key_func new_obj)

  -- DeleteFunc, with the key function for deletions
  unfoldable pub on_delete : Q → Entry A → Q
  on_delete q obj = add_key queue q (key_func obj)

module _ {Q A H : Type 0} where
  unfoldable pub set_handler : (Object A → H → H × Option Text) → Watcher Q A H → Watcher Q A H
  set_handler handler w = record w { handler = some handler }

  abbrev pub logged : Text → Watcher Q A H → Watcher Q A H
  logged line w = record w { log = line ∷ w.log }

  -- The handler returns: its error is logged.
  abbrev pub returned : Text → Object A → H × Option Text → Watcher Q A H → Watcher Q A H
  returned key o (state, none) w = record w { state = state; handed = (key, o) ∷ w.handed }
  returned key o (state, some e) w = record w {
    state = state;
    handed = (key, o) ∷ w.handed;
    log = e ∷ w.log;
  }

  -- The call of the handler, if there is one.
  unfoldable pub hand : Text → Object A → Watcher Q A H → Watcher Q A H
  hand key o w = elim w.handler [ none ↦ w | some handler ↦ returned key o (handler o w.state) w ]

  -- The body of `processNextItem` between `Get` and the deferred `Done`.
  unfoldable pub process : Item → Watcher Q A H → Watcher Q A H
  unfolding hand
  process (no_string type) w = logged (codes "key is not a string") w
  process (string key) w = elim (w.indexer.get_by_key key) [
    | none ↦ logged (not_found key) w
    | some (other type) ↦ logged (not_an_object type ++ codes "\n") w
    | some (object o) ↦ hand key o w
  ]

module _ {Q A H : Type 0} (queue : WorkQueue Q) where
  -- The watcher, before a handler is set.
  unfoldable pub new_watcher : Indexer A → H → Watcher Q A H
  new_watcher indexer state = record {
    queue = queue.new;
    indexer = indexer;
    handler = none;
    state = state;
    handed = [];
    log = [];
    phase = waiting;
  }

  unfoldable pub finish : Item → Watcher Q A H → Watcher Q A H
  finish key w = record w { queue = queue.done w.queue key; phase = waiting }

  unfoldable pub process_next_item : Watcher Q A H → Turn (Watcher Q A H)
  unfolding process finish
  process_next_item w = elim (queue.get w.queue) [
    | quits ↦ stops
    | waits ↦ waits
    | item key q ↦ goes_on (finish key (process key (record w { queue = q })))
  ]

  -- `watch` until the queue waits or quits, on fuel: the watcher then, and whether it stands still.
  unfoldable pub watch : ℕ → Watcher Q A H → Watcher Q A H × Bool
  unfolding process_next_item
  watch zero w = (w, false)
  watch (suc fuel) w = elim (process_next_item w) [
    | goes_on v ↦ watch fuel v
    | stops ↦ (w, true)
    | waits ↦ (w, true)
  ]

  -- `Start`, whose cache is synced at the time, or the wait for that was stopped.
  unfoldable pub start : ℕ → Bool → Watcher Q A H → Outcome (Watcher Q A H × Bool)
  unfolding watch
  start fuel synced w = if synced then done (watch fuel w) else panics

-- The indexer has the entry under the key, and under the other keys what it had.
pub record Set {A : Type 0} (key : Text) (e : Option (Entry A)) (old new : Indexer A) : Type 0 where
  pub here : new.get_by_key key ≡ e
  pub elsewhere : (j : Text) → j ≢ key → new.get_by_key j ≡ old.get_by_key j

module _ {Q A H : Type 0} (queue : WorkQueue Q)
    (key_func delete_key_func : Entry A → Result Text) where
  -- The steps of a watcher whose list-watch selects objects with the given keys: the informer stores an
  -- object or removes one, then calls the event handler; the worker takes an item, reads the object under it or
  -- finds none, and hands it over. The worker's steps are parts of `processNextItem`.
  pub data Step (Selected : Text → Type 0) : Watcher Q A H → Watcher Q A H → Type 0 where
    added :
        (w : Watcher Q A H) (key : Text) (e : Entry A) (new : Indexer A)
        → Selected key
        → key_func e ≡ ok key
        → Set key (some e) w.indexer new
        → Step Selected w (record w { indexer = new; queue = on_add queue key_func w.queue e })
    updated :
        (w : Watcher Q A H) (key : Text) (old e : Entry A) (new : Indexer A)
        → Selected key
        → key_func e ≡ ok key
        → Set key (some e) w.indexer new
        → Step Selected w
            (record w { indexer = new; queue = on_update queue key_func w.queue old e })
    deleted :
        (w : Watcher Q A H) (key : Text) (e : Entry A) (new : Indexer A)
        → Selected key
        → delete_key_func e ≡ ok key
        → Set key none w.indexer new
        → Step Selected w
            (record w { indexer = new; queue = on_delete queue delete_key_func w.queue e })
    takes :
        (w : Watcher Q A H) (key : Item) (q : Q)
        → w.phase ≡ waiting
        → queue.get w.queue ≡ item key q
        → Step Selected w (record w { queue = q; phase = took key })
    finds :
        (w : Watcher Q A H) (key : Text) (o : Object A)
        → w.phase ≡ took (string key)
        → w.indexer.get_by_key key ≡ some (object o)
        → Step Selected w (record w { phase = has key o })
    skips :
        (w : Watcher Q A H) (key : Text)
        → w.phase ≡ took (string key)
        → ((o : Object A) → w.indexer.get_by_key key ≢ some (object o))
        → Step Selected w (finish queue (string key) (process (string key) w))
    ignores :
        (w : Watcher Q A H) (type : Text)
        → w.phase ≡ took (no_string type)
        → Step Selected w (finish queue (no_string type) (process (no_string type) w))
    hands :
        (w : Watcher Q A H) (key : Text) (o : Object A)
        → w.phase ≡ has key o
        → Step Selected w (finish queue (string key) (hand key o w))

  pub data Steps (Selected : Text → Type 0) (v : Watcher Q A H) : Watcher Q A H → Type 0 where
    rest : Steps Selected v v
    next : {u w : Watcher Q A H} → Steps Selected v u → Step Selected u w → Steps Selected v w
