-- ===== src/Queue/Store.antt =====
-- Laws of the queue as a map from ids to entries, and what the operations keep.
use grocery_genie.Base.{
  ℕ, suc, ◌+◌, ◌≤◌, String, ◌≡◌, refl, ap, ◌≢◌, true, Option, none, some, [], ◌∷◌, map, arith,
  str_eq, eq_iff, if◌then◌else◌, or_else, length, select, All, All-select,
}
use grocery_genie.Queue.{
  syncing, PendingReceipt, Queue, modify, update_status, remove_pending_receipt, owned,
  orphan_images, migrate, wake, merge,
}

-- The first entry with this id.
unfoldable pub entry : String → Queue → Option PendingReceipt
entry i [] = none
entry i (r ∷ q) = if str_eq r.id i then some r else entry i q

abbrev pub map_some :
    (PendingReceipt → PendingReceipt) → Option PendingReceipt → Option PendingReceipt
map_some f none = none
map_some f (some r) = some (f r)

pub entry-modify :
    (i j : String) (f : PendingReceipt → PendingReceipt) (q : Queue)
    → ((r : PendingReceipt) → (f r).id ≡ r.id)
    → entry j (modify i f q) ≡ (if str_eq i j then map_some f (entry j q) else entry j q)
unfolding entry modify
entry-modify i j f [] keep = ground arith
entry-modify i j f (r ∷ q) keep = ground (
  arith,
  keep r,
  eq_iff i j,
  eq_iff r.id i,
  eq_iff r.id j,
  eq_iff (f r).id j,
  entry-modify i j f q keep,
)

pub entry-remove :
    (i j : String) (q : Queue)
    → entry j (remove_pending_receipt i q) ≡ (if str_eq i j then none else entry j q)
unfolding entry remove_pending_receipt
entry-remove i j [] = ground arith
entry-remove i j (r ∷ q) =
    ground (arith, eq_iff i j, eq_iff r.id i, eq_iff r.id j, entry-remove i j q)

-- Every `syncing` entry has this id.
abbrev pub SyncingOnly : String → Queue → Type 0
SyncingOnly i q = All (λ r. r.status ≡ syncing → r.id ≡ i) q

abbrev pub NoneSyncing : Queue → Type 0
NoneSyncing q = All (λ r. r.status ≢ syncing) q

pub SyncingOnly-update_status :
    (i : String) (q : Queue) → NoneSyncing q → SyncingOnly i (update_status i syncing q)
unfolding update_status modify
SyncingOnly-update_status i [] h = tt
SyncingOnly-update_status i (r ∷ q) h =
    (ground (arith, h.0, eq_iff r.id i), SyncingOnly-update_status i q h.1)

pub NoneSyncing-modify :
    (i : String) (f : PendingReceipt → PendingReceipt) (q : Queue)
    → ((r : PendingReceipt) → (f r).status ≢ syncing)
    → SyncingOnly i q
    → NoneSyncing (modify i f q)
unfolding modify
NoneSyncing-modify i f [] calm h = tt
NoneSyncing-modify i f (r ∷ q) calm h =
    (ground (arith, h.0, calm r, eq_iff r.id i), NoneSyncing-modify i f q calm h.1)

pub NoneSyncing-remove :
    (i : String) (q : Queue) → SyncingOnly i q → NoneSyncing (remove_pending_receipt i q)
unfolding remove_pending_receipt
NoneSyncing-remove i [] h = tt
NoneSyncing-remove i (r ∷ q) h = ground (arith, h.0, eq_iff r.id i, NoneSyncing-remove i q h.1)

NoneSyncing-wake : (q : Queue) → NoneSyncing (map wake q)
NoneSyncing-wake [] = tt
NoneSyncing-wake (r ∷ q) = (ground arith, NoneSyncing-wake q)

entry-wake : (i : String) (q : Queue) → entry i (map wake q) ≡ map_some wake (entry i q)
unfolding entry
entry-wake i [] = refl
entry-wake i (r ∷ q) = ground (arith, entry-wake i q)

-- After a launch no entry is `syncing`, and every saved entry is there under its id, with its
-- status alone changed, and only from `syncing` to `pending`.
merge_lem :
    (q : Queue)
    → NoneSyncing (merge (some q))
      × ((i : String) → entry i (merge (some q)) ≡ map_some wake (entry i q))
unfolding merge
merge_lem q = (NoneSyncing-wake q, λ i. entry-wake i q)

select_idem : (q : Queue) → All (λ r. owned r ≡ true) q → select owned q ≡ q
select_idem [] h = refl
select_idem (r ∷ q) h = rw h.0 (ap (◌∷◌ r) (select_idem q h.1))

orphan_images-owned : (q : Queue) → All (λ r. owned r ≡ true) q → orphan_images q ≡ []
unfolding orphan_images
orphan_images-owned [] h = refl
orphan_images-owned (r ∷ q) h = ground (arith, h.0, orphan_images-owned q h.1)

length-orphans : (q : Queue) → length (orphan_images q) + length (select owned q) ≤ length q
unfolding orphan_images
length-orphans [] = omega arith
length-orphans (r ∷ q) = ground (arith, length-orphans q)

-- A migration from version 0 leaves entries with an owner only, deletes at most one photo for each
-- entry that it drops, and can run again after a crash: on its own result it changes nothing and
-- deletes nothing. From version 1 on nothing changes.
migrate_rerun :
    (q : Queue) (version : ℕ)
    → All (λ r. owned r ≡ true) (or_else (migrate (some q) 0).0 [])
      × (length (migrate (some q) 0).1 + length (or_else (migrate (some q) 0).0 []) ≤ length q)
      × (migrate (migrate (some q) 0).0 0 ≡ ((migrate (some q) 0).0, []))
      × (migrate (some q) (suc version) ≡ (some q, []))
unfolding migrate
migrate_rerun q version =
    let kept = All-select owned q in
    (
      kept,
      length-orphans q,
      rw (select_idem (select owned q) kept, orphan_images-owned (select owned q) kept),
      ground arith,
    )
