-- ===== src/Scan/Submission/Endings.antt =====
-- How a capture ends, and what it leaves in the offline queue.
use grocery_genie.Base.{
  String, ◌≡◌, refl, ◌≢◌, ◌⊎◌, inl, inr, Bool, true, false, Option, none, some, [], ◌∷◌, ◌++◌,
  arith, Bool-cases,
}
use grocery_genie.Errors.{Thrown, is_retryable_scan_error}
use grocery_genie.Errors.Kinds.{error_kinds_exclusive}
use grocery_genie.Queue.{pending, unreadable, PendingReceipt, Queue, add_pending_receipt}
use grocery_genie.Scan.Submission.{
  capturing, processing, Screen, Surroundings, Network, unreadable, connected, offline, fail,
  keep_photo, queue_photo, submit, network_answered, begin_submit, Answer, scanned, refused,
  answered, is_processing, capture,
}

-- A queue entry for this photo under the account `owner`, ready to upload.
pub record IsKept (owner copy : String) (q q' : Queue) : Type 0 where
  pub entry : PendingReceipt
  pub appended : q' ≡ q ++ entry ∷ []
  pub its_owner : entry.owner_id ≡ owner
  pub its_photo : entry.image_uri ≡ copy
  pub its_status : entry.status ≡ pending

-- The photo is worth keeping: the phone is offline, or the upload failed for a reason outside it.
abbrev pub WorthKeeping : Network → Answer → Type 0
WorthKeeping unreadable a = ⊥
WorthKeeping (connected c) (scanned i) = offline c ≡ true
WorthKeeping (connected c) (refused e) = (offline c ≡ true) ⊎ (is_retryable_scan_error e ≡ true)

answered_settles :
    (w : Surroundings) (uri mime_type : String) (a : Answer) (s : Screen)
    → let s' = answered w uri mime_type a s in
      (s'.attempt_settled ≡ s.attempt_settled)
      × (s'.flow_state ≢ processing)
      × (s'.flow_state ≢ capturing)
unfolding answered queue_photo fail
answered_settles w uri mime_type (scanned i) s = ground arith
answered_settles w uri mime_type (refused e) s = ground arith

-- A capture settles its attempt, and never leaves the screen waiting: however the network check and
-- the upload end, the screen is not left at `capturing` or `processing`.
pub capture_settles :
    (w : Surroundings) (net : Network) (uri mime_type : String) (a : Answer) (s : Screen)
    → let s' = capture w net uri mime_type a s in
      (s'.attempt_settled ≡ true) × (s'.flow_state ≢ processing) × (s'.flow_state ≢ capturing)
unfolding capture submit network_answered begin_submit queue_photo fail
capture_settles w unreadable uri mime_type a s = ground arith
capture_settles w (connected c) uri mime_type a s = ground (
  arith,
  answered_settles w uri mime_type a
      (record s { flow_state = processing; attempt_settled = true; processing_uri = some uri }),
)

queue_photo-IsKept :
    (w : Surroundings) (mime_type : String) (s : Screen) {owner copy : String}
    → w.owner_id ≡ some owner
    → w.persisted ≡ some copy
    → IsKept owner copy s.pending_receipts (queue_photo w mime_type s).pending_receipts
unfolding queue_photo add_pending_receipt
queue_photo-IsKept w mime_type s o p =
    rw (o, p)
      (record { entry = _; appended = refl; its_owner = refl; its_photo = refl; its_status = refl })

queue_photo-flow :
    (w : Surroundings) (mime_type : String) (s : Screen)
    → is_processing (queue_photo w mime_type s).flow_state ≡ false
unfolding queue_photo fail
queue_photo-flow w mime_type s = ground arith

abbrev sending : String → Screen → Screen
sending uri s = record s {
  flow_state = processing;
  attempt_settled = true;
  processing_uri = some uri;
}

capture-offline :
    (w : Surroundings) (c : Option Bool) (uri mime_type : String) (a : Answer) (s : Screen)
    → offline c ≡ true
    → capture w (connected c) uri mime_type a s
      ≡ queue_photo w mime_type (record s { flow_state = capturing; attempt_settled = true })
unfolding capture submit
capture-offline w c uri mime_type a s off = rw off (
    rw (queue_photo-flow w mime_type (record s { flow_state = capturing; attempt_settled = true })))

capture-online :
    (w : Surroundings) (c : Option Bool) (uri mime_type : String) (a : Answer) (s : Screen)
    → offline c ≡ false
    → capture w (connected c) uri mime_type a s ≡ answered w uri mime_type a (sending uri s)
unfolding capture submit
capture-online w c uri mime_type a s on = rw on refl

answered_retryable :
    (w : Surroundings) (uri mime_type : String) (e : Thrown) (s : Screen)
    → is_retryable_scan_error e ≡ true
    → answered w uri mime_type (refused e) s ≡ queue_photo w mime_type s
unfolding answered
answered_retryable w uri mime_type e s r = ground (arith, error_kinds_exclusive e)

-- A photo is kept for later when the phone is offline, or its upload failed for a reason outside
-- it, and the user is signed in and the photo can be copied: the queue gets one new entry, last,
-- pending, with the copy, under that user.
pub capture-IsKept :
    (w : Surroundings) (net : Network) (uri mime_type : String) (a : Answer) (s : Screen)
    {owner copy : String}
    → w.owner_id ≡ some owner
    → w.persisted ≡ some copy
    → WorthKeeping net a
    → IsKept owner copy s.pending_receipts (capture w net uri mime_type a s).pending_receipts
capture-IsKept w unreadable uri mime_type a s o p k = elim k [ ]
capture-IsKept w (connected c) uri mime_type (scanned i) s o p k =
    rw (capture-offline w c uri mime_type (scanned i) s k) (queue_photo-IsKept w mime_type _ o p)
capture-IsKept w (connected c) uri mime_type (refused e) s {owner} {copy} o p k =
    elim (Bool-cases (offline c)) [
      | inl off ↦
          rw (capture-offline w c uri mime_type (refused e) s off)
            (queue_photo-IsKept w mime_type _ o p)
      | inr on ↦
          rw
            (
              capture-online w c uri mime_type (refused e) s on,
              answered_retryable w uri mime_type e (sending uri s) (ground arith),
            )
            (queue_photo-IsKept w mime_type (sending uri s) o p)
    ]

abbrev pub OwnOrSame : Surroundings → Queue → Queue → Type 0
OwnOrSame w q q' =
    ((owner : String) × (copy : String) × (w.owner_id ≡ some owner) × IsKept owner copy q q')
    ⊎ (q' ≡ q)

keep_photo-OwnOrSame :
    (w : Surroundings) (mime_type : String) (o c : Option String) (s : Screen)
    → w.owner_id ≡ o
    → OwnOrSame w s.pending_receipts (keep_photo w mime_type o c s).pending_receipts
unfolding keep_photo fail add_pending_receipt
keep_photo-OwnOrSame w mime_type none c s e = inr refl
keep_photo-OwnOrSame w mime_type (some o) none s e = inr refl
keep_photo-OwnOrSame w mime_type (some o) (some c) s e = inl (
  o,
  c,
  e,
  record { entry = _; appended = refl; its_owner = refl; its_photo = refl; its_status = refl },
)

answered-OwnOrSame :
    (w : Surroundings) (uri mime_type : String) (a : Answer) (s : Screen)
    → OwnOrSame w s.pending_receipts (answered w uri mime_type a s).pending_receipts
unfolding answered queue_photo fail
answered-OwnOrSame w uri mime_type (scanned i) s = inr refl
answered-OwnOrSame w uri mime_type (refused e) s =
    ground (arith, keep_photo-OwnOrSame w mime_type w.owner_id w.persisted s refl)

-- However a capture goes, the offline queue stays as it was or gets one new entry, under the
-- signed-in user.
capture-OwnOrSame :
    (w : Surroundings) (net : Network) (uri mime_type : String) (a : Answer) (s : Screen)
    → OwnOrSame w s.pending_receipts (capture w net uri mime_type a s).pending_receipts
capture-OwnOrSame w unreadable uri mime_type a s = unfold capture submit fail in inr refl
capture-OwnOrSame w (connected c) uri mime_type a s = elim (Bool-cases (offline c)) [
  | inl off ↦ rw (capture-offline w c uri mime_type a s off) (
      unfold queue_photo in
      keep_photo-OwnOrSame w mime_type w.owner_id w.persisted
        (record s { flow_state = capturing; attempt_settled = true }) refl)
  | inr on ↦
      rw (capture-online w c uri mime_type a s on)
        (answered-OwnOrSame w uri mime_type a (sending uri s))
]
