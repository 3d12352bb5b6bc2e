-- ===== src/Server.antt =====
-- pkg/server/server.go: the list of handlers' initiators, and the server that registers the handlers and
-- starts. The router of gorilla/mux and the HTTP server are parameters.
pub mod Registration
pub mod Tests
use image_validating_webhook.Base.{
  Option, none, some, List, [], ◌∷◌, ◌++◌, Text, codes, Outcome, done, fails, panics,
}

-- `handlerContainer`; an initiator returns a handler or an error, or panics.
pub record HandlerContainer (C H : Type 0) : Type 0 where
  pub path : Text
  pub methods : List Text
  pub init_func : C → Outcome H

-- `Server`; the three configurations that handlers get are one, and the HTTP server is its address and handler.
pub record Server (M C : Type 0) : Type 0 where
  pub addr : Text
  pub handler : Option M
  pub cert_file : Text
  pub key_file : Text
  pub mux : M
  pub cfg : C

-- What the source uses of gorilla/mux: a new router, and a route for methods and a path.
pub record Mux (M H : Type 0) : Type 0 where
  pub new_router : M
  pub route : M → List Text → Text → H → M

-- The list of initiators is a variable of the package.
unfoldable pub add_handler_initiator :
    {C H : Type 0}
    → Text
    → List Text
    → (C → Outcome H)
    → List (HandlerContainer C H)
    → List (HandlerContainer C H)
add_handler_initiator path methods handler_init handler_initiators =
    handler_initiators ++ record { path = path; methods = methods; init_func = handler_init } ∷ []

-- `init` of pkg/admissions/pods/pods.go, with NewPodsAdmissionHandler.
unfoldable pub add_pods_handler :
    {C H : Type 0} → (C → Outcome H) → List (HandlerContainer C H) → List (HandlerContainer C H)
unfolding add_handler_initiator
add_pods_handler new_pods_admission_handler =
    add_handler_initiator (codes "/validate") (codes "POST" ∷ []) new_pods_admission_handler

module _ {M C H : Type 0} (router : Mux M H) where
  unfoldable pub new_server : Text → Text → Text → C → Server M C
  new_server cert_file key_file addr cfg = record {
    addr = addr;
    handler = none;
    cert_file = cert_file;
    key_file = key_file;
    mux = router.new_router;
    cfg = cfg;
  }

  -- The loop over the initiators, with the server after it.
  unfoldable pub add_handlers :
      List (HandlerContainer C H) → Server M C → Server M C × Outcome (Unit {0})
  add_handlers [] s = (record s { handler = some s.mux }, done tt)
  add_handlers (i ∷ handler_initiators) s = elim (i.init_func s.cfg) [
    | done h ↦
        add_handlers handler_initiators (record s { mux = router.route s.mux i.methods i.path h })
    | fails e ↦ (s, fails e)
    | panics ↦ (s, panics)
  ]

  -- The end of `Start`, given what the HTTP server's ListenAndServeTLS answers: an error panics.
  unfoldable pub served :
      (Server M C → Option Text) → Server M C × Outcome (Unit {0}) → Server M C × Outcome (Unit {0})
  served listen_and_serve_tls (added, done _) = elim (listen_and_serve_tls added) [
    | some e ↦ (added, panics)
    | none ↦ (added, done tt)
  ]
  served listen_and_serve_tls (added, fails e) = (added, panics)
  served listen_and_serve_tls (added, panics) = (added, panics)

  unfoldable pub start :
      (Server M C → Option Text)
      → List (HandlerContainer C H)
      → Server M C
      → Server M C × Outcome (Unit {0})
  unfolding add_handlers served
  start listen_and_serve_tls handler_initiators s =
      served listen_and_serve_tls (add_handlers handler_initiators s)
