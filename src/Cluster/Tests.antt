-- ===== src/Cluster/Tests.antt =====
-- A program outside of a cluster, with the variable set.
use image_validating_webhook.Base.{◌≡◌, refl, codes, err, done}
use image_validating_webhook.Cluster.{System, missing, file_exists, local_namespace, namespace}

abbrev local : System
local = record {
  stat = λ path. missing;
  read_file = λ path. err (codes "no such file");
  getenv = λ variable. codes "test";
}

from_variable : namespace local ≡ done (codes "test")
unfolding namespace file_exists local_namespace
from_variable = refl
