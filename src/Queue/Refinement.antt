-- ===== src/Queue/Refinement.antt =====
-- The store as a map from ids to entries: each operation of
-- mobile/src/store/offlineStore.ts changes that map at one id.
use grocery_genie.Base.{
  nat_eq, string_eq, String, ◌≡◌, refl, ap, ◌∙◌, true, false, Option, none, some, List, [], ◌∷◌,
  arith, str_eq, if◌then◌else◌,
}
use grocery_genie.Queue.{
  Status, pending, failed, Failure, PendingReceipt, Capture, Queue, add_pending_receipt,
  update_status, mark_attempt_failed, hold_for_consent, mark_failed, requeue,
  remove_pending_receipt,
}
use grocery_genie.Queue.Store.{entry, map_some, entry-modify, entry-remove}

pub data Operation : Type 0 where
  adds : String → Capture → Operation
  updates : String → Status → Operation
  fails_attempt holds requeues removes : String → Operation
  fails : String → Failure → Operation

-- A call of the store.
unfoldable pub apply : Operation → Queue → Queue
apply (adds i c) q = add_pending_receipt i c q
apply (updates i s) q = update_status i s q
apply (fails_attempt i) q = mark_attempt_failed i q
apply (holds i) q = hold_for_consent i q
apply (requeues i) q = requeue i q
apply (removes i) q = remove_pending_receipt i q
apply (fails i why) q = mark_failed i why q

unfoldable pub apply_all : List Operation → Queue → Queue
apply_all [] q = q
apply_all (o ∷ os) q = apply_all os (apply o q)

-- The map of a store, and the entry that a new capture becomes.
abbrev pub EntryMap : Type 0
EntryMap = String → Option PendingReceipt

abbrev pub new_entry : String → Capture → PendingReceipt
new_entry i c = record {
  id = i;
  image_uri = c.image_uri;
  mime_type = c.mime_type;
  captured_at = c.captured_at;
  owner_id = c.owner_id;
  source = c.source;
  status = pending;
  last_attempt_failed = c.last_attempt_failed;
  failure = c.failure;
  needs_consent = c.needs_consent;
}

-- The entry at the id after the operation, from the entry there before it.
abbrev pub change : Operation → Option PendingReceipt → Option PendingReceipt
change (adds i c) none = some (new_entry i c)
change (adds i c) (some r) = some r
change (updates i s) o = map_some (λ r. record r { status = s }) o
change (fails_attempt i) o =
    map_some (λ r. record r { status = pending; last_attempt_failed = true }) o
change (holds i) o = map_some (λ r. record r { status = pending; needs_consent = true }) o
change (requeues i) o =
    map_some (λ r. record r { status = pending; failure = none; last_attempt_failed = false }) o
change (removes i) o = none
change (fails i why) o = map_some (λ r. record r { status = failed; failure = some why }) o

abbrev pub target : Operation → String
target (adds i c) = i
target (updates i s) = i
target (fails_attempt i) = i
target (holds i) = i
target (requeues i) = i
target (removes i) = i
target (fails i why) = i

unfoldable pub change_map : Operation → EntryMap → EntryMap
change_map o m j = if str_eq (target o) j then change o (m j) else m j

unfoldable pub change_map_all : List Operation → EntryMap → EntryMap
change_map_all [] m = m
change_map_all (o ∷ os) m = change_map_all os (change_map o m)

entry-add :
    (i j : String) (c : Capture) (q : Queue)
    → entry j (add_pending_receipt i c q)
      ≡ (if str_eq i j then change (adds i c) (entry j q) else entry j q)
unfolding entry add_pending_receipt
entry-add i j c [] = ground arith
entry-add i j c (r ∷ q) = ground (arith, entry-add i j c q)

entry-apply :
    (o : Operation) (q : Queue) (j : String) → entry j (apply o q) ≡ change_map o (λ i. entry i q) j
unfolding apply change_map update_status mark_attempt_failed hold_for_consent requeue mark_failed
entry-apply (adds i c) q j = entry-add i j c q
entry-apply (updates i s) q j = entry-modify i j _ q (λ r. refl)
entry-apply (fails_attempt i) q j = entry-modify i j _ q (λ r. refl)
entry-apply (holds i) q j = entry-modify i j _ q (λ r. refl)
entry-apply (requeues i) q j = entry-modify i j _ q (λ r. refl)
entry-apply (removes i) q j = entry-remove i j q
entry-apply (fails i why) q j = entry-modify i j _ q (λ r. refl)

-- The map depends on the entries alone.
change_map_all-cong :
    (os : List Operation) (m n : EntryMap)
    → ((j : String) → m j ≡ n j)
    → (j : String) → change_map_all os m j ≡ change_map_all os n j
unfolding change_map_all change_map
change_map_all-cong [] m n same j = same j
change_map_all-cong (o ∷ os) m n same j =
    change_map_all-cong os (change_map o m) (change_map o n)
      (λ k. ap (λ x. if str_eq (target o) k then change o x else x) (same k)) j

-- Any sequence of calls of the store acts on the entries by id as on a map: each call changes the
-- entry at its own id, as the operation says, and no other; a new entry does not replace one.
pub entry-apply_all :
    (os : List Operation) (q : Queue) (j : String)
    → entry j (apply_all os q) ≡ change_map_all os (λ i. entry i q) j
unfolding apply_all change_map_all
entry-apply_all [] q j = refl
entry-apply_all (o ∷ os) q j =
    entry-apply_all os (apply o q) j
    ∙ change_map_all-cong os (λ i. entry i (apply o q)) (change_map o (λ i. entry i q))
        (entry-apply o q) j
