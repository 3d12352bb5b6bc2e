-- ===== src/Base/Maps.antt =====
-- Go's `map[string]V` with string keys, as an association list; `v, ok := m[k]` is `lookup`.
use mathlib.Core.Option.{Option, none, some}
use mathlib.Core.List.{List, [], ◌∷◌}
use image_validating_webhook.Base.Tests.{if◌then◌else◌}
use image_validating_webhook.Base.Strings.{Text, ◌==◌}

unfoldable pub lookup {ℓ} : {V : Type ℓ} → Text → List (Text × V) → Option V
lookup k [] = none
lookup k ((j, v) ∷ m) = if j == k then some v else lookup k m
