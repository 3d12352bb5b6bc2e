-- ===== src/Watcher/Worker.antt =====
-- pkg/watcher/watcher.go: `processNextItem` as a run of the steps of the worker.
use image_validating_webhook.Base.{
  ◌≡◌, ◌≢◌, ◌⊎◌, refl, ap, subst, inl, inr, some, Option-cases, arith, Text, Result,
}
use image_validating_webhook.Cache.{Object, Entry, object, other}
use image_validating_webhook.Watcher.{
  Item, string, no_string, Taken, item, quits, waits, WorkQueue, Phase, waiting, took, has, Watcher,
  goes_on, hand, process, finish, process_next_item, takes, finds, skips, ignores, hands, Steps,
  rest, next,
}

pub Taken-cases :
    {Q : Type 0} (t : Taken Q)
    → ((t ≡ quits) ⊎ (t ≡ waits)) ⊎ ((k : Item) × (q : Q) × (t ≡ item k q))
Taken-cases (item k q) = inr (k, q, refl)
Taken-cases quits = inl (inl refl)
Taken-cases waits = inl (inr refl)

module _ {Q A H : Type 0} where
  -- The call of the handler does not look at the phase, and changes neither queue nor indexer.
  hand-phase :
      (w : Watcher Q A H) (p : Phase A) (key : Text) (o : Object A)
      → (hand key o (record w { phase = p }) ≡ record (hand key o w) { phase = p })
        × ((hand key o w).queue ≡ w.queue)
        × ((hand key o w).indexer ≡ w.indexer)
  unfolding hand
  hand-phase w p key o = ground arith

  pub process-phase :
      (w : Watcher Q A H) (p : Phase A) (k : Item)
      → (process k (record w { phase = p }) ≡ record (process k w) { phase = p })
        × ((process k w).queue ≡ w.queue)
        × ((process k w).indexer ≡ w.indexer)
  unfolding process
  process-phase w p (no_string type) = (refl, refl, refl)
  process-phase w p (string key) = elim (Option-cases (w.indexer.get_by_key key)) [
    | inl missing ↦ rw (missing, process) (refl, refl, refl)
    | inr (object o, found) ↦ rw (found, process) (hand-phase w p key o)
    | inr (other type, found) ↦ rw (found, process) (refl, refl, refl)
  ]

  module _ (queue : WorkQueue Q) (key_func delete_key_func : Entry A → Result Text)
      (Selected : Text → Type 0) where
    abbrev pub Run : Watcher Q A H → Watcher Q A H → Type 0
    Run = Steps queue key_func delete_key_func Selected

    finish-process :
        (w : Watcher Q A H) (p : Phase A) (k : Item)
        → finish queue k (process k (record w { phase = p })) ≡ finish queue k (process k w)
    unfolding finish
    finish-process w p k = ap (finish queue k) (process-phase w p k).0

    finish-hand :
        (w : Watcher Q A H) (p : Phase A) (key : Text) (o : Object A)
        → w.indexer.get_by_key key ≡ some (object o)
        → finish queue (string key) (hand key o (record w { phase = p }))
          ≡ finish queue (string key) (process (string key) w)
    unfolding finish process
    finish-hand w p key o found =
        rw (found, process) (ap (finish queue (string key)) (hand-phase w p key o).0)

    pub item_steps :
        (w : Watcher Q A H) (k : Item) (q : Q)
        → w.phase ≡ waiting
        → queue.get w.queue ≡ item k q
        → Run w (finish queue k (process k (record w { queue = q })))
    item_steps w (no_string type) q phase got =
        let u = record w { queue = q } in
        let v = record u { phase = took (no_string type) } in
        subst (λ x. Run w x) (finish-process u (took (no_string type)) (no_string type))
          (next (next rest (takes w (no_string type) q phase got)) (ignores v type refl))
    item_steps w (string key) q phase got =
        let u = record w { queue = q } in
        let v = record u { phase = took (string key) } in
        let taken : Run w v = next rest (takes w (string key) q phase got) in
        let skipped : ((o : Object A) → v.indexer.get_by_key key ≢ some (object o))
            → Run w (finish queue (string key) (process (string key) u)) =
          λ gone.
            subst (λ x. Run w x) (finish-process u (took (string key)) (string key))
              (next taken (skips v key refl gone)) in
        elim (Option-cases (w.indexer.get_by_key key)) [
          | inl missing ↦ skipped (λ o found. absurd (ground arith))
          | inr (other type, found) ↦ skipped (λ o there. absurd (ground arith))
          | inr (object o, found) ↦
              subst (λ x. Run w x) (finish-hand u (has key o) key o found)
                (next (next taken (finds v key o refl found))
                  (hands (record v { phase = has key o }) key o refl))
        ]

    -- An iteration of `watch` without interruption is a run of the worker's steps.
    pub process_next_item-Steps :
        (w v : Watcher Q A H) → w.phase ≡ waiting → process_next_item queue w ≡ goes_on v → Run w v
    unfolding process_next_item
    process_next_item-Steps w v phase e = elim (Taken-cases (queue.get w.queue)) [
      | inl (inl q) ↦ absurd (ground arith)
      | inl (inr s) ↦ absurd (ground arith)
      | inr (k, q, got) ↦ subst (λ x. Run w x) (ground arith) (item_steps w k q phase got)
    ]

    pub Steps-trans : {u v w : Watcher Q A H} → Run u v → Run v w → Run u w
    Steps-trans one rest = one
    Steps-trans one (next more step) = next (Steps-trans one more) step
