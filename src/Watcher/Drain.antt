-- ===== src/Watcher/Drain.antt =====
-- pkg/watcher/watcher.go: `watch` hands over the latest version of every object before it waits.
use image_validating_webhook.Base.{
  ℕ, zero, suc, ◌<◌, ◌≡◌, ◌∙◌, refl, ap, inl, inr, true, Option, none, some, arith, Text, lookup,
  Result,
}
use image_validating_webhook.Cache.{Object, Entry, object, Indexer}
use image_validating_webhook.Watcher.{
  Item, item, waits, WorkQueue, waiting, Watcher, process, finish, process_next_item, watch, Steps,
  rest, new_watcher, set_handler,
}
use image_validating_webhook.Watcher.Queueing.{IsWorkQueue}
use image_validating_webhook.Watcher.Invariant.{Inv, at_phase, Steps-Inv, new_watcher-Inv}
use image_validating_webhook.Watcher.Worker.{
  Taken-cases, Run, process-phase, item_steps, Steps-trans,
}

-- Every object of the indexer was handed over, and is the last that was handed over for its key.
abbrev pub IsServed : {Q A H : Type 0} → Watcher Q A H → Type 0
IsServed {A = A} w =
    (j : Text) (o : Object A)
    → w.indexer.get_by_key j ≡ some (object o)
    → lookup j w.handed ≡ some o

module _ {Q A H : Type 0} (queue : WorkQueue Q) (laws : IsWorkQueue queue)
    (Selected : Text → Type 0) (handler : Object A → H → H × Option Text) (start : H)
    (key_func delete_key_func : Entry A → Result Text) where
  waits-IsServed :
      (w : Watcher Q A H)
      → Inv queue laws Selected handler start w
      → w.phase ≡ waiting
      → queue.get w.queue ≡ waits
      → IsServed w
  waits-IsServed w inv phase got j o found =
      let h = at_phase queue laws Selected handler start w waiting phase inv in
      elim (h.due j o found) [
        | inl pending ↦ absurd (h.busy j (laws.get_waits w.queue j got pending))
        | inr (inl t) ↦ absurd t
        | inr (inr l) ↦ l
      ]

  -- What `watch` reaches.
  pub record Caught (w v : Watcher Q A H) : Type 0 where
    pub ran : Run queue key_func delete_key_func Selected w v
    pub kept : v.indexer ≡ w.indexer
    pub served : IsServed v
    pub stands : v.phase ≡ waiting
    pub waits_now : queue.get v.queue ≡ waits

  finish-size :
      (w : Watcher Q A H) (k : Item) (q : Q) (fuel : ℕ)
      → queue.get w.queue ≡ item k q
      → laws.size w.queue < suc fuel
      → laws.size (finish queue k (process k (record w { queue = q }))).queue < fuel
  unfolding finish
  finish-size w k q fuel got enough =
      let u = record w { queue = q } in
      let same = ap laws.size (process-phase u waiting k).1 in
      omega (arith, same, laws.get_size w.queue q k got, laws.done_size (process k u).queue k)

  pub watch_catches_up :
      (fuel : ℕ) (w : Watcher Q A H)
      → Inv queue laws Selected handler start w
      → w.phase ≡ waiting
      → laws.size w.queue < fuel
      → ((watch queue fuel w).1 ≡ true) × Caught w (watch queue fuel w).0
  unfolding watch process_next_item finish
  watch_catches_up zero w inv phase enough = absurd (omega arith)
  watch_catches_up (suc fuel) w inv phase enough = elim (Taken-cases (queue.get w.queue)) [
    | inl (inl q) ↦ absurd (laws.get_goes_on w.queue inv.holds.is_open q)
    | inl (inr got) ↦
        rw (got, process_next_item, watch)
          (
            refl,
            record {
              ran = rest;
              kept = refl;
              served = waits-IsServed w inv phase got;
              stands = phase;
              waits_now = got;
            },
          )
    | inr (k, q, got) ↦
        let v = finish queue k (process k (record w { queue = q })) in
        let steps = item_steps queue key_func delete_key_func Selected w k q phase got in
        let (still, caught) =
          watch_catches_up fuel v
            (Steps-Inv queue laws Selected handler start key_func delete_key_func inv steps) refl
            (finish-size w k q fuel got enough) in
        rw (got, process_next_item, watch)
          (
            still,
            record {
              ran = Steps-trans queue key_func delete_key_func Selected steps caught.ran;
              kept = caught.kept ∙ (process-phase (record w { queue = q }) waiting k).2;
              served = caught.served;
              stands = caught.stands;
              waits_now = caught.waits_now;
            },
          )
  ]

  -- After any steps of a new watcher with a handler and an empty indexer, over a queue that keeps
  -- its promises, and when the worker waits for a key and is not at one: on more fuel than items are
  -- pending, `watch` comes to wait, by steps of the watcher and with the same indexer, and
  -- every object that the indexer has is then the last one that was handed over for its key.
  pub watch-IsServed :
      (fuel : ℕ) (indexer : Indexer A) (w : Watcher Q A H)
      → ((j : Text) → indexer.get_by_key j ≡ none)
      → Steps queue key_func delete_key_func Selected
          (set_handler handler (new_watcher queue indexer start))
          w
      → w.phase ≡ waiting
      → laws.size w.queue < fuel
      → ((watch queue fuel w).1 ≡ true) × Caught w (watch queue fuel w).0
  watch-IsServed fuel indexer w empty steps phase enough =
      watch_catches_up fuel w
        (new_watcher-Inv queue laws Selected handler start key_func delete_key_func indexer empty
          steps)
        phase enough
