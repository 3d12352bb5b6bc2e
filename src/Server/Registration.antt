-- ===== src/Server/Registration.antt =====
-- pkg/server/server.go: which routes a server has when it serves, and when it does not come to serve.
use image_validating_webhook.Base.{
  ◌≡◌, ◌≢◌, ◌⊎◌, refl, ap, inl, inr, some, List, [], ◌∷◌, ◌++◌, arith, Outcome, done, fails, panics,
  Outcome-cases,
}
use image_validating_webhook.Server.{HandlerContainer, Server, Mux, add_handlers}

module _ {M C H : Type 0} (router : Mux M H) where
  -- The handlers that the initiators return, in their order.
  abbrev pub Inits : C → List (HandlerContainer C H) → List H → Type 0
  Inits cfg [] [] = Unit
  Inits cfg [] (h ∷ hs) = ⊥
  Inits cfg (i ∷ is) [] = ⊥
  Inits cfg (i ∷ is) (h ∷ hs) = (i.init_func cfg ≡ done h) × Inits cfg is hs

  -- The router with a route for each handler, in order.
  abbrev pub routed : M → List (HandlerContainer C H) → List H → M
  routed m [] hs = m
  routed m (i ∷ is) [] = m
  routed m (i ∷ is) (h ∷ hs) = routed (router.route m i.methods i.path h) is hs

  -- The server that serves the routes of the handlers.
  abbrev pub serving : List (HandlerContainer C H) → List H → Server M C → Server M C
  serving is hs s = record s { mux = routed s.mux is hs; handler = some (routed s.mux is hs) }

  -- The loop stops at an initiator without a handler; the server serves nothing new.
  pub record Stopped (is : List (HandlerContainer C H)) (s t : Server M C)
      (outcome : Outcome (Unit {0})) : Type 0 where
    pub before : List (HandlerContainer C H)
    pub failing : HandlerContainer C H
    pub after : List (HandlerContainer C H)
    pub hs : List H
    pub parts : is ≡ before ++ failing ∷ after
    pub inits : Inits s.cfg before hs
    pub no_handler : (h : H) → failing.init_func s.cfg ≢ done h
    pub not_done : outcome ≢ done tt
    pub left : t ≡ record s { mux = routed s.mux before hs }

  stop_first :
      (i : HandlerContainer C H) (is : List (HandlerContainer C H)) (s : Server M C)
      (outcome : Outcome (Unit {0}))
      → ((h : H) → i.init_func s.cfg ≢ done h)
      → outcome ≢ done tt
      → Stopped (i ∷ is) s s outcome
  stop_first i is s outcome without bad = record {
    before = [];
    failing = i;
    after = is;
    hs = [];
    parts = refl;
    inits = tt;
    no_handler = without;
    not_done = bad;
    left = refl;
  }

  stop_later :
      (i : HandlerContainer C H) (h : H) (is : List (HandlerContainer C H)) (s t : Server M C)
      (outcome : Outcome (Unit {0}))
      → i.init_func s.cfg ≡ done h
      → Stopped is (record s { mux = router.route s.mux i.methods i.path h }) t outcome
      → Stopped (i ∷ is) s t outcome
  stop_later i h is s t outcome made d = record {
    before = i ∷ d.before;
    failing = d.failing;
    after = d.after;
    hs = h ∷ d.hs;
    parts = ap (λ l. i ∷ l) d.parts;
    inits = (made, d.inits);
    no_handler = d.no_handler;
    not_done = d.not_done;
    left = d.left;
  }

  -- Either every initiator returns a handler, and the server then serves a route for each, in their order and behind
  -- those it had; or the handlers before the first initiator that returns none are added, and the server's handler stays
  -- as it was.
  pub add_handlers-cases :
      (is : List (HandlerContainer C H)) (s : Server M C)
      → let (t, outcome) = add_handlers router is s in
        ((hs : List H) × Inits s.cfg is hs × (t ≡ serving is hs s) × (outcome ≡ done tt))
        ⊎ Stopped is s t outcome
  unfolding add_handlers
  add_handlers-cases [] s = inl ([], tt, refl, refl)
  add_handlers-cases (i ∷ is) s = elim (Outcome-cases (i.init_func s.cfg)) [
    | inl (h, made) ↦
        elim (add_handlers-cases is (record s { mux = router.route s.mux i.methods i.path h })) [
          | inl (hs, inits, same, fine) ↦
              rw (made, add_handlers) (inl (h ∷ hs, (made, inits), same, fine))
          | inr d ↦ rw (made, add_handlers) (inr (stop_later i h is s _ _ made d))
        ]
    | inr (inl (e, failed)) ↦
        rw (failed, add_handlers)
          (inr (
            stop_first i is s (fails e) (λ h made. absurd (ground arith))
              (λ f. absurd (ground arith))))
    | inr (inr panicked) ↦
        rw (panicked, add_handlers)
          (inr (
            stop_first i is s panics (λ h made. absurd (ground arith))
              (λ f. absurd (ground arith))))
  ]
