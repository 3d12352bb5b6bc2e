-- ===== src/Watcher/Invariant.antt =====
-- pkg/watcher/watcher.go: what holds of a watcher after every step of its informer and of its worker.
use image_validating_webhook.Base.{
  ◌++◌, ◌≡◌, ◌≢◌, ◌∙◌, refl, ap, subst, inl, inr, Option, none, some, Option-cases, List, [], ◌∷◌,
  arith, Text, Result, codes,
}
use image_validating_webhook.Cache.{Object, Entry, object, other, Indexer, not_an_object}
use image_validating_webhook.Watcher.{
  Item, string, no_string, WorkQueue, Phase, took, has, Watcher, not_found, on_add, on_update,
  on_delete, new_watcher, set_handler, logged, returned, hand, process, finish, Set, Step, added,
  updated, deleted, takes, finds, skips, ignores, hands, Steps, rest, next,
}
use image_validating_webhook.Watcher.Queueing.{IsWorkQueue}
use image_validating_webhook.Watcher.Pending.{
  Holds, Holds-set, Holds-take, Holds-find, Holds-skip, Holds-hand, string_injective,
}

-- The state of the handler after the calls, the latest first.
abbrev pub replay :
    {A H : Type 0} → (Object A → H → H × Option Text) → H → List (Text × Object A) → H
replay handler start [] = start
replay handler start ((key, o) ∷ handed) = (handler o (replay handler start handed)).0

module _ {Q A H : Type 0} (queue : WorkQueue Q) (laws : IsWorkQueue queue)
    (Selected : Text → Type 0) (handler : Object A → H → H × Option Text) (start : H) where
  -- No object of the indexer is lost, and the handler's state is what its calls have made of it.
  pub record Inv (w : Watcher Q A H) : Type 0 where
    pub handled : w.handler ≡ some handler
    pub replayed : w.state ≡ replay handler start w.handed
    pub holds : Holds queue laws Selected w.queue w.indexer w.phase w.handed

  pub at_phase :
      (w : Watcher Q A H) (p : Phase A)
      → w.phase ≡ p
      → Inv w
      → Holds queue laws Selected w.queue w.indexer p w.handed
  at_phase w p e inv =
      subst (λ r. Holds queue laws Selected w.queue w.indexer r w.handed) e inv.holds

  pub set_handler-Inv :
      (indexer : Indexer A)
      → ((j : Text) → indexer.get_by_key j ≡ none)
      → Inv (set_handler handler (new_watcher queue indexer start))
  unfolding set_handler new_watcher
  set_handler-Inv indexer empty = record {
    handled = refl;
    replayed = refl;
    holds = record {
      is_open = laws.new_open;
      busy = λ j b. laws.new_free j b;
      stored = λ j e found. absurd (ground (arith, empty j));
      called = tt;
      due = λ j o found. absurd (ground (arith, empty j));
    };
  }

  -- An item under which the worker finds no object only adds to the log.
  skipped :
      (w : Watcher Q A H) (key : Text)
      → ((o : Object A) → w.indexer.get_by_key key ≢ some (object o))
      → (line : Text) × (process (string key) w ≡ logged line w)
  unfolding process
  skipped w key gone = elim (Option-cases (w.indexer.get_by_key key)) [
    | inl missing ↦ (not_found key, rw (missing, process) refl)
    | inr (object o, found) ↦ absurd (gone o found)
    | inr (other type, found) ↦ (not_an_object type ++ codes "\n", rw (found, process) refl)
  ]

  logged-Inv :
      (w : Watcher Q A H) (line : Text) (k : Item)
      → ((j : Text) (o : Object A) → k ≡ string j → w.indexer.get_by_key j ≢ some (object o))
      → w.phase ≡ took k
      → Inv w
      → Inv (finish queue k (logged line w))
  unfolding finish
  logged-Inv w line k gone phase inv = record {
    handled = inv.handled;
    replayed = inv.replayed;
    holds =
        Holds-skip queue laws Selected w.queue k w.indexer w.handed gone (at_phase w _ phase inv);
  }

  returned-Inv :
      (w : Watcher Q A H) (key : Text) (o : Object A) (r : H × Option Text)
      → r.0 ≡ replay handler start ((key, o) ∷ w.handed)
      → w.phase ≡ has key o
      → Inv w
      → Inv (finish queue (string key) (returned key o r w))
  unfolding finish
  returned-Inv w key o (state, none) same phase inv = record {
    handled = inv.handled;
    replayed = same;
    holds =
        Holds-hand queue laws Selected w.queue key w.indexer w.handed o (at_phase w _ phase inv);
  }
  returned-Inv w key o (state, some e) same phase inv = record {
    handled = inv.handled;
    replayed = same;
    holds =
        Holds-hand queue laws Selected w.queue key w.indexer w.handed o (at_phase w _ phase inv);
  }

  hand-Inv :
      (w : Watcher Q A H) (key : Text) (o : Object A)
      → w.phase ≡ has key o
      → Inv w
      → Inv (finish queue (string key) (hand key o w))
  unfolding hand
  hand-Inv w key o phase inv =
      rw (inv.handled, hand)
        (returned-Inv w key o (handler o w.state) (ap (λ s. (handler o s).0) inv.replayed) phase
          inv)

  set-Inv :
      (w : Watcher Q A H) (key : Text) (e : Option (Entry A)) (new : Indexer A)
      → Selected key
      → Set key e w.indexer new
      → Inv w
      → Inv (record w { indexer = new; queue = queue.add w.queue key })
  set-Inv w key e new sel set inv = record {
    handled = inv.handled;
    replayed = inv.replayed;
    holds =
        Holds-set queue laws Selected w.queue w.indexer new w.phase w.handed key e sel set
          inv.holds;
  }

  module _ (key_func delete_key_func : Entry A → Result Text) where
    -- Every step of the informer and of the worker keeps the invariant.
    pub Step-Inv :
        {w v : Watcher Q A H} → Step queue key_func delete_key_func Selected w v → Inv w → Inv v
    unfolding on_add on_update on_delete process
    Step-Inv (added w key e new sel keyed set) inv =
        rw keyed (set-Inv w key (some e) new sel set inv)
    Step-Inv (updated w key old e new sel keyed set) inv =
        rw keyed (set-Inv w key (some e) new sel set inv)
    Step-Inv (deleted w key e new sel keyed set) inv = rw keyed (set-Inv w key none new sel set inv)
    Step-Inv (takes w key q phase got) inv = record {
      handled = inv.handled;
      replayed = inv.replayed;
      holds =
          Holds-take queue laws Selected w.queue q key w.indexer w.handed got
            (at_phase w _ phase inv);
    }
    Step-Inv (finds w key o phase found) inv = record {
      handled = inv.handled;
      replayed = inv.replayed;
      holds =
          Holds-find queue laws Selected w.queue key w.indexer w.handed o found
            (at_phase w _ phase inv);
    }
    Step-Inv (skips w key phase gone) inv =
        let (line, e) = skipped w key gone in
        rw e (
          logged-Inv w line (string key)
            (λ j o same found.
              gone o (ap w.indexer.get_by_key (string_injective key j same) ∙ found))
            phase inv)
    Step-Inv (ignores w type phase) inv =
        logged-Inv w (codes "key is not a string") (no_string type) (λ j o e. absurd (ground arith))
          phase inv
    Step-Inv (hands w key o phase) inv = hand-Inv w key o phase inv

    pub Steps-Inv :
        {w v : Watcher Q A H} → Inv w → Steps queue key_func delete_key_func Selected w v → Inv v
    Steps-Inv inv rest = inv
    Steps-Inv inv (next steps step) = Step-Inv step (Steps-Inv inv steps)

    -- Of a new watcher with a handler and an empty indexer, over a queue that keeps its promises:
    -- whatever the informer and the worker do, and however their steps interleave, the version that
    -- the indexer has of an object is pending in the queue, or its key is taken by the worker, or it
    -- is the last that was handed over for its key, or is about to be; and the handler's state is what
    -- the calls have made of it.
    pub new_watcher-Inv :
        (indexer : Indexer A) {w : Watcher Q A H}
        → ((j : Text) → indexer.get_by_key j ≡ none)
        → Steps queue key_func delete_key_func Selected
            (set_handler handler (new_watcher queue indexer start))
            w
        → Inv w
    new_watcher-Inv indexer empty steps = Steps-Inv (set_handler-Inv indexer empty) steps
