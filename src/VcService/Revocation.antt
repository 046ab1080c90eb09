-- ===== src/VcService/Revocation.antt =====
-- What revoking a credential does (services/vc/vc.service.ts): the shared lines of `retire` and
-- `revokeVC`, and `revokeVC`.
use helix_core.Prelude.{
  ℕ, ◌*◌, ◌<◌, ◌≡◌, ◌≢◌, refl, ap, ◌∙◌, String, none, some, List, [], ◌∷◌, ◌++◌, true, false, not,
  if◌then◌else◌, at_key, put, Bool-cases, inl, inr, at_key-put_self, at_key-put_ne, length,
}
use helix_core.Result.{ok}
use helix_core.Cache.{ICache}
use helix_core.StatusList.{bit_1, set_bit}
use helix_core.StatusList.Laws.{IsList, IsWritten, set_bit-IsWritten}
use helix_core.Verifier.Host.{index}
use helix_core.VcStore.{
  VcRecord, is_null, StatusListEntryRecord, VcStore, find_status_list_by_id, find_by_vc_id,
  revoke_vc_row,
}
use helix_core.VcService.{
  Platform, vc_revoked, default_status_list_id, State, points_at_default_list,
}
use helix_core.VcService.Reconcile.{with_bit, write_revocation}
use helix_core.VcService.Manage.{find_row, revoke_vc}

-- the row and the list after a revocation
abbrev pub revoked_row : ℕ → VcRecord → VcRecord
revoked_row now row = record row { revoked_at = some now; updated_at = now }

abbrev pub rewritten : ℕ → List ℕ → StatusListEntryRecord → StatusListEntryRecord
rewritten now encoded_list list = record list { encoded_list = encoded_list; updated_at = now }

pub revoke_vc_row_lem :
    (now : ℕ) (vc_id : String) (row : VcRecord) (list_id : String) (list : StatusListEntryRecord)
    (encoded : List ℕ) (store : VcStore)
    → at_key list_id store.status_lists ≡ some list
    → at_key vc_id store.vcs ≡ some row
    → revoke_vc_row now vc_id list_id encoded store ≡ (
      ok (revoked_row now row),
      record {
        vcs = put vc_id (revoked_row now row) store.vcs;
        status_lists = put list_id (rewritten now encoded list) store.status_lists;
      },
    )
unfolding find_status_list_by_id revoke_vc_row find_by_vc_id
revoke_vc_row_lem now vc_id row list_id list encoded store here there = rw (here) (rw (there) refl)

module _ (caches : ICache (List ℕ)) (platform : Platform) where
  -- the state after the revocation of a row, given what is stored under its id
  abbrev pub after_revocation :
      ℕ
      → VcRecord
      → VcRecord
      → StatusListEntryRecord
      → List ℕ
      → State caches platform
      → State caches platform
  after_revocation now row stored list encoded state = record state {
    store = record {
      vcs = put row.vc_id (revoked_row now stored) state.store.vcs;
      status_lists =
          put default_status_list_id (rewritten now encoded list) state.store.status_lists;
    };
    cache =
        if points_at_default_list caches platform row.vc_json
        then caches.delete default_status_list_id state.cache
        else state.cache;
  }

  pub write_revocation_lem :
      (now : ℕ) (row stored : VcRecord) (list : StatusListEntryRecord) (encoded : List ℕ)
      (state : State caches platform)
      → at_key default_status_list_id state.store.status_lists ≡ some list
      → at_key row.vc_id state.store.vcs ≡ some stored
      → with_bit caches platform row list.encoded_list ≡ ok encoded
      → write_revocation caches platform now row state
        ≡ (ok (revoked_row now stored), after_revocation now row stored list encoded state)
  unfolding write_revocation find_status_list_by_id
  write_revocation_lem now row stored list encoded state here there written =
      rw (here, written)
        (rw
          (revoke_vc_row_lem now row.vc_id stored default_status_list_id list encoded state.store
            here there)
          (elim (Bool-cases (points_at_default_list caches platform row.vc_json)) [
            | inl e ↦ rw e refl
            | inr e ↦ rw e refl
          ]))

  pub with_bit_own :
      (row : VcRecord) (i : ℕ) (text : List ℕ)
      → points_at_default_list caches platform row.vc_json ≡ true
      → row.status_list_index ≡ index i
      → with_bit caches platform row text ≡ set_bit platform.codec text i bit_1
  unfolding with_bit
  with_bit_own row i text points at_i = rw (points, at_i) refl

  pub with_bit_foreign :
      (row : VcRecord) (text : List ℕ)
      → points_at_default_list caches platform row.vc_json ≡ false
      → with_bit caches platform row text ≡ ok text
  unfolding with_bit
  with_bit_foreign row text points = rw points refl

  -- the state that `revokeVC` leaves
  abbrev pub closed :
      ℕ → VcRecord → StatusListEntryRecord → List ℕ → State caches platform → State caches platform
  closed now row list encoded state = record (after_revocation now row row list encoded state) {
    log = state.log ++ vc_revoked row.vc_id ∷ [];
  }

  pub revoke_vc_lem :
      (now : ℕ) (row : VcRecord) (list : StatusListEntryRecord) (encoded : List ℕ)
      (state : State caches platform)
      → at_key default_status_list_id state.store.status_lists ≡ some list
      → at_key row.vc_id state.store.vcs ≡ some row
      → row.revoked_at ≡ none
      → with_bit caches platform row list.encoded_list ≡ ok encoded
      → revoke_vc caches platform now row.vc_id state
        ≡ (ok (revoked_row now row), closed now row list encoded state)
  unfolding revoke_vc find_row find_by_vc_id
  revoke_vc_lem now row list encoded state here there open_row written =
      rw (there, guard)
        (rw (write_revocation_lem now row row list encoded state here there written) refl)
    where
      guard : not (is_null row.revoked_at) ≡ false
      guard = ap (λ r. not (is_null r)) open_row

  -- What a revocation leaves of the rows and of the lists: the row is revoked, the default list encodes
  -- what `Encoded` says, and nothing else changes.
  pub record IsRevocation (now : ℕ) (row : VcRecord) (list : StatusListEntryRecord)
      (Encoded : List ℕ → Type 0) (before after : State caches platform) : Type 0 where
    pub entry : StatusListEntryRecord
    pub revokes : at_key row.vc_id after.store.vcs ≡ some (revoked_row now row)
    pub other_rows :
        (other : String)
        → row.vc_id ≢ other
        → at_key other after.store.vcs ≡ at_key other before.store.vcs
    pub finds : at_key default_status_list_id after.store.status_lists ≡ some entry
    pub encodes : Encoded entry.encoded_list
    pub keeps_index : entry.next_index ≡ list.next_index
    pub other_lists :
        (other : String)
        → default_status_list_id ≢ other
        → at_key other after.store.status_lists ≡ at_key other before.store.status_lists
    pub logs : after.log ≡ before.log ++ vc_revoked row.vc_id ∷ []

  closed-IsRevocation :
      (now : ℕ) (row : VcRecord) (list : StatusListEntryRecord) (encoded : List ℕ)
      (Encoded : List ℕ → Type 0) (state : State caches platform)
      → Encoded encoded
      → IsRevocation now row list Encoded state (closed now row list encoded state)
  closed-IsRevocation now row list encoded Encoded state h = record {
    entry = rewritten now encoded list;
    revokes = at_key-put_self row.vc_id (revoked_row now row) state.store.vcs;
    other_rows =
        λ other apart. at_key-put_ne row.vc_id other (revoked_row now row) state.store.vcs apart;
    finds =
        at_key-put_self default_status_list_id (rewritten now encoded list)
          state.store.status_lists;
    encodes = h;
    keeps_index = refl;
    other_lists = λ other apart.
        at_key-put_ne default_status_list_id other (rewritten now encoded list)
          state.store.status_lists apart;
    logs = refl;
  }

  -- Revoking a stored credential that is not revoked, whose status entry is on this platform's list and
  -- whose index is within that list, resolves: the row carries the time of the revocation, the bit of the
  -- index reads 1 in the stored list while every other bit and the list's capacity and next index are as
  -- before, and no other row and no other list changes.
  pub revoke_vc-IsRevocation :
      (now : ℕ) (row : VcRecord) (i : ℕ) (list : StatusListEntryRecord) (buffer : List ℕ)
      (state : State caches platform)
      → at_key default_status_list_id state.store.status_lists ≡ some list
      → at_key row.vc_id state.store.vcs ≡ some row
      → row.revoked_at ≡ none
      → points_at_default_list caches platform row.vc_json ≡ true
      → row.status_list_index ≡ index i
      → IsList platform.codec list.encoded_list buffer
      → i < length buffer * 8
      → (after : State caches platform) × (revoke_vc caches platform now row.vc_id state
          ≡ (ok (revoked_row now row), after))
        × IsRevocation now row list (IsWritten platform.codec list.encoded_list i bit_1) state after
  revoke_vc-IsRevocation now row i list buffer state here there open_row points at_i is_list
        within =
      let (encoded, sets, written) =
        set_bit-IsWritten platform.codec list.encoded_list buffer i bit_1 is_list within in
      (
        closed now row list encoded state,
        revoke_vc_lem now row list encoded state here there open_row
            (with_bit_own row i list.encoded_list points at_i ∙ sets),
        closed-IsRevocation now row list encoded
            (IsWritten platform.codec list.encoded_list i bit_1) state written,
      )

  -- Revoking a stored credential that is not revoked and whose status entry is not on this platform's list
  -- resolves: the row carries the time of the revocation, the encoded text of the platform's list is what
  -- it was, and no other row and no other list changes.
  pub revoke_vc_elsewhere :
      (now : ℕ) (row : VcRecord) (list : StatusListEntryRecord) (state : State caches platform)
      → at_key default_status_list_id state.store.status_lists ≡ some list
      → at_key row.vc_id state.store.vcs ≡ some row
      → row.revoked_at ≡ none
      → points_at_default_list caches platform row.vc_json ≡ false
      → (after : State caches platform) × (revoke_vc caches platform now row.vc_id state
          ≡ (ok (revoked_row now row), after))
        × IsRevocation now row list (λ text. text ≡ list.encoded_list) state after
  revoke_vc_elsewhere now row list state here there open_row points = (
    closed now row list list.encoded_list state,
    revoke_vc_lem now row list list.encoded_list state here there open_row
        (with_bit_foreign row list.encoded_list points),
    closed-IsRevocation now row list list.encoded_list (λ text. text ≡ list.encoded_list) state
        refl,
  )
