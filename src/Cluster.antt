-- ===== src/Cluster.antt =====
-- internal/k8s: the client of a group and version, and the namespace that the program runs in. The REST
-- library and the file system are parameters.
pub mod Placement
pub mod Tests
use image_validating_webhook.Base.{
  Bool, true, false, not, Option, none, some, List, [], ◌++◌, is_empty, if◌then◌else◌, Text, codes,
  Result, ok, err, Outcome, done, fails, panics, ◌>=>◌,
}

-- `schema.GroupVersion`
pub record GroupVersion : Type 0 where
  pub group : Text
  pub version : Text

-- `rest.Config`: the fields that are set, the serializer by whether it converts, and the rest.
pub record RestConfig (R : Type 0) : Type 0 where
  pub api_path : Text
  pub group_version : Option GroupVersion
  pub converts : Bool
  pub fields : R

-- `groupVersionClient`
pub record GroupVersionClient (C : Type 0) : Type 0 where
  pub rest_client : C
  pub gv : GroupVersion

unfoldable pub api_path_of : Text → Text
api_path_of group = if is_empty group then codes "/api" else codes "/apis"

unfoldable pub new_group_version_client :
    {R C : Type 0}
    → (RestConfig R → Result C)
    → RestConfig R
    → GroupVersion
    → Result (GroupVersionClient C)
unfolding api_path_of
new_group_version_client rest_client_for cfg group_version =
    elim (rest_client_for (record cfg {
      api_path = api_path_of group_version.group;
      group_version = some group_version;
      converts = false;
    })) [ err e ↦ err e | ok rest_cli ↦ ok (record { rest_client = rest_cli; gv = group_version }) ]

unfoldable pub get_group_version : {C : Type 0} → GroupVersionClient C → GroupVersion
get_group_version g = g.gv

-- What os.Stat returns: nothing is there, another error with a nil info, or an info.
pub data Stat : Type 0 where
  missing unreadable : Stat
  info : Bool → Stat

-- What the source uses of package os: a path's status, a file's content, and a variable, "" if it is not set.
pub record System : Type 0 where
  pub stat : Text → Stat
  pub read_file : Text → Result Text
  pub getenv : Text → Text

-- The info is nil on an error other than that nothing is there.
unfoldable pub file_exists : System → Text → Outcome Bool
file_exists os path = elim (os.stat path) [
  | missing ↦ done false
  | unreadable ↦ panics
  | info is_dir ↦ done (not is_dir)
]

abbrev pub ns_path : Text
ns_path = codes "/var/run/secrets/kubernetes.io/serviceaccount/namespace"

-- The namespace when the program runs outside of a cluster.
unfoldable pub local_namespace : System → Text
local_namespace os =
    let ns = os.getenv (codes "NAMESPACE") in if is_empty ns then codes "registry-system" else ns

abbrev pub unreadable_file : Text
unreadable_file = codes "could not read file " ++ ns_path

unfoldable pub in_cluster : Result Text → Outcome Text
in_cluster (ok ns) = done ns
in_cluster (err e) = fails unreadable_file

unfoldable pub namespace : System → Outcome Text
unfolding file_exists local_namespace in_cluster
namespace os = file_exists os ns_path >=> λ exists.
    if exists then in_cluster (os.read_file ns_path) else done (local_namespace os)
