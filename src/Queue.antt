-- ===== src/Queue.antt =====
-- The offline upload queue: mobile/src/store/offlineStore.ts. An optional field that the code only
-- tests for truth (`lastAttemptFailed`, `needsConsent`) is a Bool, and a missing text of a saved
-- entry is the empty text, which the code reads alike.
pub mod Store
pub mod Refinement
pub mod Sync
pub mod Runs
pub mod Retry
mod Tests
use grocery_genie.Base.{
  ℕ, String, Bool, true, false, not, ◌&&◌, Option, none, some, List, [], ◌∷◌, ◌++◌, map, str_eq,
  leb, if◌then◌else◌, select,
}

pub data ScanSource : Type 0 where
  camera library pdf manual : ScanSource

pub data Status : Type 0 where
  pending syncing failed : Status

pub data Failure : Type 0 where
  unreadable quota : Failure

pub record PendingReceipt : Type 0 where
  pub id : String
  pub image_uri : String
  pub mime_type : String
  pub captured_at : String
  pub owner_id : String
  pub source : Option ScanSource
  pub status : Status
  pub last_attempt_failed : Bool
  pub failure : Option Failure
  pub needs_consent : Bool

-- `Omit<PendingReceipt, 'id' | 'status'>`
pub record Capture : Type 0 where
  pub image_uri : String
  pub mime_type : String
  pub captured_at : String
  pub owner_id : String
  pub source : Option ScanSource
  pub last_attempt_failed : Bool
  pub failure : Option Failure
  pub needs_consent : Bool

abbrev pub Queue : Type 0
Queue = List PendingReceipt

-- The fresh `pending-<time>-<random>` id is an argument.
unfoldable pub add_pending_receipt : String → Capture → Queue → Queue
add_pending_receipt new_id c q = q ++ entry ∷ []
  where
    entry : PendingReceipt
    entry = record {
      id = new_id;
      image_uri = c.image_uri;
      mime_type = c.mime_type;
      captured_at = c.captured_at;
      owner_id = c.owner_id;
      source = c.source;
      status = pending;
      last_attempt_failed = c.last_attempt_failed;
      failure = c.failure;
      needs_consent = c.needs_consent;
    }

-- pendingReceipts.map((r) => (r.id === id ? f(r) : r))
unfoldable pub modify : String → (PendingReceipt → PendingReceipt) → Queue → Queue
modify i f [] = []
modify i f (r ∷ q) = (if str_eq r.id i then f r else r) ∷ modify i f q

unfoldable pub update_status : String → Status → Queue → Queue
update_status i s = modify i (λ r. record r { status = s })

unfoldable pub mark_attempt_failed : String → Queue → Queue
mark_attempt_failed i = modify i (λ r. record r { status = pending; last_attempt_failed = true })

unfoldable pub hold_for_consent : String → Queue → Queue
hold_for_consent i = modify i (λ r. record r { status = pending; needs_consent = true })

unfoldable pub mark_failed : String → Failure → Queue → Queue
mark_failed i why = modify i (λ r. record r { status = failed; failure = some why })

unfoldable pub requeue : String → Queue → Queue
requeue i =
    modify i (λ r. record r { status = pending; failure = none; last_attempt_failed = false })

unfoldable pub remove_pending_receipt : String → Queue → Queue
remove_pending_receipt i q = select (λ r. not (str_eq r.id i)) q

abbrev pub owned : PendingReceipt → Bool
owned r = not (str_eq r.owner_id "")

-- The photos that `migrate` deletes: those of entries with no owner.
unfoldable pub orphan_images : Queue → List String
orphan_images [] = []
orphan_images (r ∷ q) =
    if not (owned r) && not (str_eq r.image_uri "")
    then r.image_uri ∷ orphan_images q
    else orphan_images q

-- `migrate`: the state to use, and the photos deleted on the way.
unfoldable pub migrate : Option Queue → ℕ → Option Queue × List String
migrate none version = (none, [])
migrate (some q) version =
    if leb 1 version then (some q, []) else (some (select owned q), orphan_images q)

abbrev pub wake : PendingReceipt → PendingReceipt
wake r = elim (r.status) [ syncing ↦ record r { status = pending } | _ ↦ r ]

-- `merge`: on launch nothing is uploading yet.
unfoldable pub merge : Option Queue → Queue
merge none = []
merge (some q) = map wake q
