-- ===== src/Lib.antt =====
-- The image validating webhook: an admission handler for pods that accepts a pod if its images are
-- whitelisted, or are allowed by a registry's security policy, with a signature of Notary or Cosign
-- where the policy asks for one, and that writes the signed digest into the images it accepts.
--
-- The parts, and how they interact. The program (Webhook, for cmd/main.go, newValidator and
-- NewPodsAdmissionHandler) puts the parts together and starts the server. The server (Server, for
-- pkg/server/server.go) registers the handlers whose initiators it was given. ServeHTTP (Admission,
-- for pkg/admissions/pods/pods.go) decodes a review, hands its pod to the validator and answers
-- with a refusal or with a JSON patch of the containers. The validator (Validator, for
-- pkg/admissions/pods/validator.go) asks the whitelist for the namespace and each image (WhiteList,
-- for pkg/admissions/pods/whitelist.go), reads an image's reference (ImageRef, for the type
-- imageRef and parseImage of the same file), finds credentials in the image pull secrets (Secret,
-- for internal/utils/secret.go), asks which policy applies (Policy, for
-- pkg/admissions/pods/policy.go and pkg/type/registrysecuritypolicy_types.go), and fetches
-- signatures (Signature, for pkg/notary/signature.go), or verifies them with the keys that a policy
-- names (Cosign, for pkg/cosign/secret.go and pkg/cosign/validation.go).
--
-- A signature is fetched for an image (Image, for pkg/image/image.go) from a repository that is
-- opened with a token (ReadOnly, Token, Phrases and Trust, for pkg/trust/trust.go and
-- internal/utils/utils.go), over a transport that adds the token to each request (Transport, for
-- pkg/auth/auth.go). ReadOnly fills the interface ImageClient of Signature with Image and Token.
--
-- Objects of the cluster are watched (Watcher, for pkg/watcher/watcher.go): an informer stores them
-- in an indexer and puts their keys into a queue, and a worker hands them to a handler. The cached
-- client (Cache, for pkg/watcher/cachedclient.go and pkg/watcher/fake/cachedclient.go) reads the
-- indexer. Policies are listed by cached clients (Policy/Store). The whitelist is set from a config
-- map by the handler of a watcher (WhiteList/Watch and WhiteList/ConfigMap), which writes the
-- legacy form back in the new form by patches. The watchers' REST clients and the namespace are
-- those of Cluster (for internal/k8s).
--
-- How code is read. A function of the source is the definition of its name in snake case; a loop is
-- a structural recursion that stands beside it, with the loop's variables as arguments. Strings are
-- lists of code points, Go maps association lists, `(value, error)` a Result, and a call that can
-- panic an Outcome. A method that changes its receiver or an argument returns the changed value:
-- the validator returns the pod with the containers it changed, the whitelist's handler the
-- whitelist and the patches sent. A lock makes each operation of the whitelist one step and has no
-- place in the model. A slice is an Option where the source asks whether it is nil.
--
-- Where sharing matters it is in the model: the transport copies header maps and slices in a heap
-- of both, and the watcher is a step relation in which the steps of the informer and the parts of
-- the worker's processNextItem interleave in any order.
--
-- Code outside of the repository is a parameter: JSON, PEM, base64 and URL parsing, the API
-- server's secrets and patches, the notary client's repository, sigstore, the parser of image
-- references, the work queue and the informer of client-go, the HTTP client and the router. What
-- theorems rely on of these is a record of laws (IsWorkQueue, IsReferences, Serves), of which the
-- tests give an instance. The order of rows that come from a Go map and an unstable sort is a
-- parameter too, of which only that it keeps the rows is assumed; objects are sorted by an
-- insertion sort, since their keys differ. The regular expression of parseImage is a term of Regex,
-- a backtracking matcher with greedy repetition and numbered groups, anchored at the start as the
-- expression is.
--
-- Fuel. parsePems has no bound in the source; parse_pems runs on the length of its input, which is
-- enough because a PEM block takes at least one character. watch runs for ever in the source; on
-- more fuel than items are pending it comes to wait for the next one. All else is structural.
--
-- Not modelled: logging but for the lines of the watcher; the fields of HTTP clients and
-- transports; flags and the reading of the configuration in cmd/main.go; the removal of the notary
-- cache directory; locks, since each operation of the whitelist is one step; generated deep copies,
-- which are the values themselves; the registration of the API group; and the mock notary server of
-- the tests.
pub mod Base
pub mod Regex
pub mod Cluster
pub mod ImageRef
pub mod WhiteList
pub mod Cache
pub mod Watcher
pub mod Policy
pub mod Secret
pub mod Trust
pub mod Token
pub mod Transport
pub mod Phrases
pub mod ReadOnly
pub mod Image
pub mod Signature
pub mod Cosign
pub mod Validator
pub mod Admission
pub mod Server
pub mod Webhook
