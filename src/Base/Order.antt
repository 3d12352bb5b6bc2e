-- ===== src/Base/Order.antt =====
-- The order of Go strings is a strict total order.
use mathlib.Core.Path.{◌≡◌, refl}
use mathlib.Core.Bool.{true, false}
use mathlib.Core.List.{[], ◌∷◌}
use native.Mathlib.Omega.{arith}
use image_validating_webhook.Base.Strings.{Text, text_less}

pub text_less_irrefl : (s : Text) → text_less s s ≡ false
unfolding text_less
text_less_irrefl [] = refl
text_less_irrefl (a ∷ s) = ground (arith, text_less_irrefl s)

pub text_less_trans :
    (s t u : Text) → text_less s t ≡ true → text_less t u ≡ true → text_less s u ≡ true
unfolding text_less
text_less_trans s [] u h k = absurd (ground arith)
text_less_trans s (b ∷ t) [] h k = absurd (ground arith)
text_less_trans [] (b ∷ t) (c ∷ u) h k = refl
text_less_trans (a ∷ s) (b ∷ t) (c ∷ u) h k = ground (arith, text_less_trans s t u)

pub text_less_total : (s t : Text) → text_less s t ≡ false → text_less t s ≡ false → s ≡ t
unfolding text_less
text_less_total [] [] h k = refl
text_less_total [] (b ∷ t) h k = absurd (ground arith)
text_less_total (a ∷ s) [] h k = absurd (ground arith)
text_less_total (a ∷ s) (b ∷ t) h k = ground (arith, text_less_total s t)
