-- ===== src/ImageRef/Delimiters.antt =====
-- Which characters end a run of each class of `whitelistImageReg`.
use image_validating_webhook.Base.{◌≡◌, refl, false}
use image_validating_webhook.Regex.{in_class}
use image_validating_webhook.ImageRef.{not_dot_slash, not_slash, not_colon_at, not_at, not_colon}

pub dot_ends_label : in_class not_dot_slash b'.' ≡ false
unfolding in_class
dot_ends_label = refl

pub slash_ends_domain : in_class not_slash b'/' ≡ false
unfolding in_class
slash_ends_domain = refl

pub colon_ends_name : in_class not_colon_at b':' ≡ false
unfolding in_class
colon_ends_name = refl

pub at_ends_name : in_class not_colon_at b'@' ≡ false
unfolding in_class
at_ends_name = refl

pub at_ends_tag : in_class not_at b'@' ≡ false
unfolding in_class
at_ends_tag = refl

pub colon_ends_algorithm : in_class not_colon b':' ≡ false
unfolding in_class
colon_ends_algorithm = refl
