-- ===== src/Server/Tests.antt =====
-- A router that lists its routes, and two initiators of which the second fails.
use image_validating_webhook.Base.{◌≡◌, ◌⊎◌, List, [], ◌∷◌, ◌++◌, Text, codes, done, fails}
use image_validating_webhook.Server.{
  HandlerContainer, Server, Mux, add_handler_initiator, add_pods_handler, new_server, add_handlers,
}
use image_validating_webhook.Server.Registration.{Inits, serving, Stopped, add_handlers-cases}

abbrev router : Mux (List Text) Text
router = record { new_router = []; route = λ m methods path h. m ++ path ∷ [] }

abbrev initiators : List (HandlerContainer Text Text)
initiators =
    add_handler_initiator (codes "/broken") [] (λ cfg. fails (codes "no handler"))
      (add_pods_handler (λ cfg. done (codes "pods")) [])

abbrev server : Server (List Text) Text
server = new_server router (codes "tls.crt") (codes "tls.key") (codes ":8443") (codes "cfg")

add_handlers-cases_example :
    let (t, outcome) = add_handlers router initiators server in
    ((hs : List Text) × Inits router server.cfg initiators hs
      × (t ≡ serving router initiators hs server)
      × (outcome ≡ done tt))
    ⊎ Stopped router initiators server t outcome
add_handlers-cases_example = add_handlers-cases router initiators server
