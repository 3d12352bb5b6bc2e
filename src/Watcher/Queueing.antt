-- ===== src/Watcher/Queueing.antt =====
-- The work queue of client-go, as pkg/watcher/watcher.go relies on it.
use image_validating_webhook.Base.{ℕ, suc, ◌≤◌, ◌≡◌, ◌≢◌, ◌⊎◌, Text}
use image_validating_webhook.Watcher.{Item, string, item, quits, waits, WorkQueue}

-- What the documentation of client-go promises of a queue that nobody shuts down: a key that was added is pending
-- until `Get` returns it, also if it was added again while it was being processed; `Get` waits only
-- if every pending key is being processed, that is, was taken and is not done; and each item taken is
-- one less that is pending.
pub record IsWorkQueue {Q : Type 0} (queue : WorkQueue Q) : Type 1 where
  pub IsOpen : Q → Type 0
  pub Pending : Q → Text → Type 0
  pub Busy : Q → Text → Type 0
  pub size : Q → ℕ
  pub new_open : IsOpen queue.new
  pub new_free : (j : Text) → Busy queue.new j → ⊥
  pub add_open : (q : Q) (k : Text) → IsOpen q → IsOpen (queue.add q k)
  pub add_pending : (q : Q) (k : Text) → IsOpen q → Pending (queue.add q k) k
  pub add_kept : (q : Q) (k j : Text) → Pending q j → Pending (queue.add q k) j
  pub add_busy : (q : Q) (k j : Text) → Busy (queue.add q k) j → Busy q j
  pub get_goes_on : (q : Q) → IsOpen q → queue.get q ≢ quits
  pub get_open : (q r : Q) (k : Item) → queue.get q ≡ item k r → IsOpen q → IsOpen r
  pub get_kept :
      (q r : Q) (k : Item) (j : Text)
      → queue.get q ≡ item k r
      → Pending q j
      → (k ≡ string j) ⊎ Pending r j
  pub get_busy :
      (q r : Q) (k : Item) (j : Text)
      → queue.get q ≡ item k r
      → Busy r j
      → (k ≡ string j) ⊎ Busy q j
  pub get_waits : (q : Q) (j : Text) → queue.get q ≡ waits → Pending q j → Busy q j
  pub get_size : (q r : Q) (k : Item) → queue.get q ≡ item k r → suc (size r) ≤ size q
  pub done_open : (q : Q) (k : Item) → IsOpen q → IsOpen (queue.done q k)
  pub done_kept : (q : Q) (k : Item) (j : Text) → Pending q j → Pending (queue.done q k) j
  pub done_busy :
      (q : Q) (k : Item) (j : Text) → Busy (queue.done q k) j → Busy q j × (k ≢ string j)
  pub done_size : (q : Q) (k : Item) → size (queue.done q k) ≤ size q
