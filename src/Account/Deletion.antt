-- ===== src/Account/Deletion.antt =====
-- A deleted account leaves nothing of its own on the phone, and takes nothing of another's.
use grocery_genie.Base.{
  nat_eq, string_eq, String, ◌≡◌, refl, sym, ◌∙◌, ◌≢◌, ◌⊎◌, inl, inr, Bool, true, false, none, some,
  List, [], ◌∷◌, ◌++◌, map, append-nil, append_assoc, arith, str_eq, eq_iff, eq_refl, Bool-cases,
  if_cases, any, All,
}
use grocery_genie.Queue.{PendingReceipt, Queue, remove_pending_receipt}
use grocery_genie.Queue.Store.{entry, entry-remove}
use grocery_genie.Queue.Sync.Kept.{NotAmong}
use grocery_genie.Auth.Store.{Device, clear}
use grocery_genie.Auth.Store.Restart.{all_work}
use grocery_genie.Account.{
  initial_preferences, ReceiptState, clear_scan_session, Local, owned_by, forget,
  clear_local_account_data,
}

abbrev has_id : String → List PendingReceipt → Bool
has_id i rs = any (λ r. str_eq r.id i) rs

abbrev image_of : PendingReceipt → String
image_of r = r.image_uri

-- Each of the owner's entries is among those that are still to be forgotten.
abbrev Covers : String → List PendingReceipt → Queue → Type 0
Covers owner rs q = All (λ r. (r.owner_id ≢ owner) ⊎ (has_id r.id rs ≡ true)) q

Covers-cons :
    (owner : String) (x : PendingReceipt) (rs : List PendingReceipt) (q : Queue)
    → Covers owner rs q
    → Covers owner (x ∷ rs) q
Covers-cons owner x rs [] c = tt
Covers-cons owner x rs (r ∷ q) c = (ground (arith, c.0), Covers-cons owner x rs q c.1)

Covers-owned_by : (owner : String) (q : Queue) → Covers owner (owned_by owner q) q
unfolding owned_by
Covers-owned_by owner [] = tt
Covers-owned_by owner (r ∷ q) =
    if_cases (str_eq r.owner_id owner) (λ rs. Covers owner rs (r ∷ q))
      (λ own. (
        inr (ground (arith, eq_refl r.id)),
        Covers-cons owner r (owned_by owner q) q (Covers-owned_by owner q),
      ))
      (λ apart. (inl (ground (arith, eq_iff r.owner_id owner)), Covers-owned_by owner q))

Covers-remove :
    (owner : String) (x : PendingReceipt) (rs : List PendingReceipt) (q : Queue)
    → Covers owner (x ∷ rs) q
    → Covers owner rs (remove_pending_receipt x.id q)
unfolding remove_pending_receipt
Covers-remove owner x rs [] c = tt
Covers-remove owner x rs (r ∷ q) c = elim (Bool-cases (str_eq r.id x.id)) [
  | inl same ↦ rw same (Covers-remove owner x rs q c.1)
  | inr apart ↦
      rw apart
        (ground (arith, c.0, eq_iff r.id x.id, eq_iff x.id r.id), Covers-remove owner x rs q c.1)
]

Covers-none : (owner : String) (q : Queue) → Covers owner [] q → All (λ r. r.owner_id ≢ owner) q
Covers-none owner [] c = tt
Covers-none owner (r ∷ q) c = (ground (arith, c.0), Covers-none owner q c.1)

forget-gone :
    (owner : String) (rs : List PendingReceipt) (l : Local)
    → Covers owner rs l.queue
    → All (λ r. r.owner_id ≢ owner) (forget rs l).queue
unfolding forget
forget-gone owner [] l c = Covers-none owner l.queue c
forget-gone owner (r ∷ rs) l c = forget-gone owner rs _ (Covers-remove owner r rs l.queue c)

forget-deleted :
    (rs : List PendingReceipt) (l : Local) → (forget rs l).deleted ≡ l.deleted ++ map image_of rs
unfolding forget
forget-deleted [] l = sym (append-nil l.deleted)
forget-deleted (r ∷ rs) l =
    forget-deleted rs _ ∙ append_assoc l.deleted (r.image_uri ∷ []) (map image_of rs)

forget-entry :
    (j : String) (rs : List PendingReceipt) (l : Local)
    → NotAmong j rs
    → entry j (forget rs l).queue ≡ entry j l.queue
unfolding forget
forget-entry j [] l apart = refl
forget-entry j (r ∷ rs) l apart =
    forget-entry j rs _ apart.1
    ∙ ground (arith, entry-remove r.id j l.queue, eq_iff r.id j, apart.0)

-- Nothing of a session is left, on screen or in the keychain.
abbrev pub SignedOut : Device → Type 0
SignedOut d =
    (d.session.access_token ≡ none)
    × (d.session.refresh_token ≡ none)
    × (d.session.user_id ≡ none)
    × (d.keychain.access ≡ none)
    × (d.keychain.refresh ≡ none)
    × (d.keychain.user ≡ none)

abbrev pub IsReset : ReceiptState → Type 0
IsReset r = (r.captured_image_uri ≡ none) × (r.active_scan_response ≡ none)

-- After an account is deleted no entry of the queue belongs to it, exactly its photos were deleted,
-- each of them once, an entry under an id that none of its receipts has is as it was, and with a
-- keychain that works neither the session nor the keychain has a token or a user id. Preferences
-- and push token are reset, and the captured image and the active response of a scan are dropped.
pub clear_local_account_data-Forgets :
    (owner j : String) (l : Local)
    → str_eq owner "" ≡ false
    → NotAmong j (owned_by owner l.queue)
    → let l' = clear_local_account_data all_work (some owner) l in
      All (λ r. r.owner_id ≢ owner) l'.queue
      × (l'.deleted ≡ l.deleted ++ map (λ r. r.image_uri) (owned_by owner l.queue))
      × (entry j l'.queue ≡ entry j l.queue)
      × (l'.push_token ≡ none)
      × (l'.preferences ≡ initial_preferences)
      × SignedOut l'.device
      × IsReset l'.receipts
unfolding clear_local_account_data clear clear_scan_session
clear_local_account_data-Forgets owner j l named apart =
    let rs = owned_by owner l.queue in
    rw named (
      forget-gone owner rs l (Covers-owned_by owner l.queue),
      forget-deleted rs l,
      forget-entry j rs l apart,
      refl,
      refl,
      (refl, refl, refl, refl, refl, refl),
      (refl, refl),
    )
