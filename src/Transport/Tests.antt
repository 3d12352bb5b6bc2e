-- ===== src/Transport/Tests.antt =====
-- A request with one header, to which a token is added.
use image_validating_webhook.Base.{◌≡◌, refl, some, [], ◌∷◌, Text, codes, arith, ◌==◌}
use image_validating_webhook.Token.{Token}
use image_validating_webhook.Transport.{Heap, HttpRequest, at, values, assign, outgoing}
use image_validating_webhook.Transport.Copies.{sent, Extends, outgoing-sent}

abbrev heap : Heap
heap = record { maps = ((codes "Accept", 0) ∷ []) ∷ []; slices = (codes "text/plain" ∷ []) ∷ [] }

abbrev request : HttpRequest Text
request = record { header = 0; fields = codes "GET" }

abbrev bearer : Token
bearer = record { type = codes "Bearer"; value = codes "abc" }

both :
    let (h, r) = outgoing (some bearer) heap request in
    values h.slices (at h.maps r.header)
    ≡ (codes "Accept", codes "text/plain" ∷ [])
      ∷ (codes "Authorization", codes "Bearer abc" ∷ [])
      ∷ []
unfolding outgoing values at assign ◌==◌
both = refl

outgoing-sent_example :
    let (h, r) = outgoing (some bearer) heap request in
    (values h.slices (at h.maps r.header)
      ≡ sent (some bearer) (values heap.slices (at heap.maps 0)))
    × (r.fields ≡ codes "GET")
    × Extends heap h
unfolding at
outgoing-sent_example = outgoing-sent heap request (omega arith, tt) (some bearer)
