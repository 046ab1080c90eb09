-- ===== src/VcService/Allotment.antt =====
-- The indices of the default status list, as `claimStatusListEntry` hands them out
-- (services/vc/vc.service.ts, repositories/drivers/vc.drivers.ts).
use helix_core.Prelude.{
  ℕ, zero, suc, ◌+◌, ◌<◌, ◌≤◌, ◌≡◌, refl, String, some, List, [], ◌∷◌, true, false, leb, at_key,
  put, at_key-put_self, arith,
}
use helix_core.Result.{ok, throw}
use helix_core.Action.{Action, resolve, ◌>>=◌}
use helix_core.Cache.{ICache}
use helix_core.VcStore.{StatusListEntryRecord, VcStore, find_status_list_by_id, claim_next_index}
use helix_core.VcService.{
  Platform, State, helix_error, default_status_list_id, capacity, ensure_default_list,
  check_capacity, claim_status_list_entry,
}

abbrev pub advanced : ℕ → StatusListEntryRecord → StatusListEntryRecord
advanced now list = record list { next_index = list.next_index + 1; updated_at = now }

pub claim_next_index_lem :
    (now : ℕ) (list_id : String) (list : StatusListEntryRecord) (store : VcStore)
    → at_key list_id store.status_lists ≡ some list
    → claim_next_index now list_id store ≡ (
      ok (advanced now list, list.next_index),
      record store { status_lists = put list_id (advanced now list) store.status_lists },
    )
unfolding claim_next_index find_status_list_by_id
claim_next_index_lem now list_id list store h = rw h refl

-- `k` successive indices from `n`
abbrev pub indices_from : ℕ → ℕ → List ℕ
indices_from n zero = []
indices_from n (suc k) = n ∷ indices_from (n + 1) k

module _ (caches : ICache (List ℕ)) (platform : Platform) where
  pub ensure_default_list_lem :
      (now : ℕ) (list : StatusListEntryRecord) (state : State caches platform)
      → at_key default_status_list_id state.store.status_lists ≡ some list
      → ensure_default_list caches platform now state
        ≡ (ok (list.encoded_list, list.next_index), state)
  unfolding ensure_default_list find_status_list_by_id
  ensure_default_list_lem now list state h = rw h refl

  abbrev pub after_claim : ℕ → StatusListEntryRecord → State caches platform → State caches platform
  after_claim now list state = record state {
    store = record state.store {
      status_lists = put default_status_list_id (advanced now list) state.store.status_lists;
    };
  }

  pub claim_status_list_entry_lem :
      (now : ℕ) (list : StatusListEntryRecord) (state : State caches platform)
      → at_key default_status_list_id state.store.status_lists ≡ some list
      → list.next_index < capacity
      → claim_status_list_entry caches platform now state
        ≡ (ok (list.encoded_list, list.next_index), after_claim now list state)
  unfolding claim_status_list_entry check_capacity
  claim_status_list_entry_lem now list state h room =
      rw (ensure_default_list_lem now list state h)
        (rw (below) (rw (claim_next_index_lem now default_status_list_id list state.store h) refl))
    where
      below : leb capacity list.next_index ≡ false
      below = ground arith

  -- A full list hands out no index: with 131,072 claimed, `claimStatusListEntry` is rejected with
  -- `STATUS_LIST_INDEX_EXHAUSTED` and status 503, and leaves the state as it is.
  claim_exhausted :
      (now : ℕ) (list : StatusListEntryRecord) (state : State caches platform)
      → at_key default_status_list_id state.store.status_lists ≡ some list
      → capacity ≤ list.next_index
      → claim_status_list_entry caches platform now state ≡ (
        throw (helix_error "STATUS_LIST_INDEX_EXHAUSTED" "Default status list is full" 503),
        state,
      )
  unfolding claim_status_list_entry check_capacity
  claim_exhausted now list state h full =
      rw (ensure_default_list_lem now list state h) (rw beyond refl)
    where
      beyond : leb capacity list.next_index ≡ true
      beyond = ground arith

  -- successive calls of `claimStatusListEntry`, and the indices that they return
  unfoldable pub claims : ℕ → ℕ → Action (State caches platform) (List ℕ)
  claims now zero = resolve []
  claims now (suc k) = do
    claimed ← claim_status_list_entry caches platform now
    rest ← claims now k
    resolve (claimed.1 ∷ rest)

  -- While the list has room, successive claims resolve to successive indices, from the list's next index
  -- on, so that no two are the same; the list's encoded text stays, and its next index is the first that
  -- was not handed out.
  pub claims_successive :
      (now k : ℕ) (list : StatusListEntryRecord) (state : State caches platform)
      → at_key default_status_list_id state.store.status_lists ≡ some list
      → list.next_index + k ≤ capacity
      → (after : State caches platform) × (claims now k state
          ≡ (ok (indices_from list.next_index k), after))
        × (entry : StatusListEntryRecord) × (at_key default_status_list_id after.store.status_lists
            ≡ some entry)
        × (entry.next_index ≡ list.next_index + k)
        × (entry.encoded_list ≡ list.encoded_list)
  unfolding claims
  claims_successive now zero list state h room = (state, refl, list, h, omega arith, refl)
  claims_successive now (suc k) list state h room =
      let step = claim_status_list_entry_lem now list state h (omega arith) in
      let (after, runs, entry, finds, next, text) =
        claims_successive now k (advanced now list) (after_claim now list state)
          (at_key-put_self default_status_list_id (advanced now list) state.store.status_lists)
          (omega arith) in
      (after, rw step (rw runs refl), entry, finds, omega arith, text)
