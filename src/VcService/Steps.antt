-- ===== src/VcService/Steps.antt =====
-- The calls of services/vc/vc.service.ts that touch a status list or its cache, one by one: each keeps the
-- cache in agreement with the rows.
use helix_core.Prelude.{
  ℕ, ◌≡◌, refl, sym, ◌∙◌, subst, String, Option, none, some, List, [], ◌∷◌, not, at_key, Bool-cases,
  Option-cases, inl, inr, leb,
}
use helix_core.Result.{ok, Result-cases, ok-injective}
use helix_core.Action.{Action, resolve, Keeps, >>=-Keeps, continue-Keeps}
use helix_core.Cache.{ICache}
use helix_core.StatusList.{create_status_list}
use helix_core.VcStore.{
  StatusListEntryRecord, VcStore, VcRecord, is_null, find_status_list_by_id, find_by_vc_id,
  create_status_list_row, claim_next_index, find_active_children,
}
use helix_core.VcService.{
  Platform, State, default_status_list_id, capacity, on_store, points_at_default_list,
  make_status_list, or_new_list, ensure_default_list, check_capacity, claim_status_list_entry,
  from_row, from_cache, get_status_list,
}
use helix_core.VcService.Reconcile.{with_bit, write_revocation, retire_childless, retire}
use helix_core.VcService.Manage.{find_row, revoke_vc}
use helix_core.VcService.Allotment.{advanced}
use helix_core.VcService.Revocation.{
  rewritten, write_revocation_lem, with_bit_foreign, after_revocation,
}
use helix_core.Cache.Agreement.{
  Agree, set_Agree, refresh_Agree, delete_Agree, same_Agree, get_Agree,
}
use helix_core.VcService.Coherence.{IsCoherent, encoded_text}

module _ (caches : ICache (List ℕ)) (platform : Platform) where
  pub make_status_list-Keeps :
      (now : ℕ) (list_id : String) (length : ℕ)
      → Keeps (IsCoherent caches platform) (make_status_list caches platform now list_id length)
  unfolding make_status_list create_status_list_row
  make_status_list-Keeps now list_id length state h =
      set_Agree caches encoded_text now list_id
        (record {
          list_id = list_id;
          encoded_list = create_status_list platform.codec length;
          next_index = 0;
          updated_at = now;
        })
        platform.status_list_cache_ttl_seconds state.store.status_lists state.cache h

  or_new_list-Keeps :
      (now : ℕ) (found : Option StatusListEntryRecord)
      → Keeps (IsCoherent caches platform) (or_new_list caches platform now found)
  or_new_list-Keeps now none state h =
      >>=-Keeps (IsCoherent caches platform)
        (make_status_list caches platform now default_status_list_id capacity)
        (λ text. resolve (text, 0)) (make_status_list-Keeps now default_status_list_id capacity)
        (λ text state h. h) state h
  or_new_list-Keeps now (some entry) state h = h

  pub claim-Keeps :
      (now : ℕ)
      → Keeps
          (IsCoherent caches platform)
          (on_store caches platform (claim_next_index now default_status_list_id))
  unfolding claim_next_index find_status_list_by_id
  claim-Keeps now state h =
      elim (Option-cases (at_key default_status_list_id state.store.status_lists)) [
        | inl missing ↦ rw missing h
        | inr (list, here) ↦ rw here (
            same_Agree caches encoded_text default_status_list_id (advanced now list) list
              state.store.status_lists state.cache here refl h)
      ]

  pub claim_status_list_entry-Keeps :
      (now : ℕ) → Keeps (IsCoherent caches platform) (claim_status_list_entry caches platform now)
  unfolding claim_status_list_entry ensure_default_list check_capacity find_status_list_by_id
  claim_status_list_entry-Keeps now state h =
      continue-Keeps (IsCoherent caches platform)
        (or_new_list caches platform now (at_key default_status_list_id state.store.status_lists)
          state)
        _ (or_new_list-Keeps now (at_key default_status_list_id state.store.status_lists) state h)
        (λ list middle kept. elim (Bool-cases (leb capacity list.1)) [
          | inl e ↦ rw e kept
          | inr e ↦ rw e (
              >>=-Keeps (IsCoherent caches platform)
                (on_store caches platform (claim_next_index now default_status_list_id))
                (λ claimed. resolve (list.0, claimed.1)) (claim-Keeps now)
                (λ claimed last done. done) middle kept)
        ])

  pub ensure_default_list-Keeps :
      (now : ℕ) → Keeps (IsCoherent caches platform) (ensure_default_list caches platform now)
  unfolding ensure_default_list find_status_list_by_id
  ensure_default_list-Keeps now state h = or_new_list-Keeps now _ state h

  after_revocation-Agree :
      (now : ℕ) (row stored : VcRecord) (list : StatusListEntryRecord) (encoded : List ℕ)
      (state : State caches platform)
      → at_key default_status_list_id state.store.status_lists ≡ some list
      → with_bit caches platform row list.encoded_list ≡ ok encoded
      → IsCoherent caches platform state
      → IsCoherent caches platform
          (after_revocation caches platform now row stored list encoded state)
  after_revocation-Agree now row stored list encoded state here written h =
      elim (Bool-cases (points_at_default_list caches platform row.vc_json)) [
        | inl e ↦ rw e (
            delete_Agree caches encoded_text default_status_list_id (rewritten now encoded list)
              state.store.status_lists state.cache h)
        | inr e ↦ rw e (
            same_Agree caches encoded_text default_status_list_id (rewritten now encoded list) list
              state.store.status_lists state.cache here
              (ok-injective
                (sym written ∙ with_bit_foreign caches platform row list.encoded_list e))
              h)
      ]

  write_revocation-Keeps :
      (now : ℕ) (row stored : VcRecord) (state : State caches platform)
      → at_key row.vc_id state.store.vcs ≡ some stored
      → IsCoherent caches platform state
      → IsCoherent caches platform (write_revocation caches platform now row state).1
  unfolding write_revocation find_status_list_by_id
  write_revocation-Keeps now row stored state there h =
      elim (Option-cases (at_key default_status_list_id state.store.status_lists)) [
        | inl missing ↦ rw missing h
        | inr (list, here) ↦ elim (Result-cases (with_bit caches platform row list.encoded_list)) [
          | inl (e, fails) ↦ rw (here, fails) h
          | inr (encoded, written) ↦
              rw
                (
                  write_revocation_lem caches platform now row stored list encoded state here there
                      written,
                  write_revocation,
                )
                (after_revocation-Agree now row stored list encoded state here written h)
        ]
      ]

  pub revoke_vc-Keeps :
      (now : ℕ) (row : VcRecord) (state : State caches platform)
      → at_key row.vc_id state.store.vcs ≡ some row
      → IsCoherent caches platform state
      → IsCoherent caches platform (revoke_vc caches platform now row.vc_id state).1
  unfolding revoke_vc find_row find_by_vc_id
  revoke_vc-Keeps now row state there h = elim (Bool-cases (not (is_null row.revoked_at))) [
    | inl e ↦ rw (there, e) h
    | inr e ↦
        rw (there, e)
          (continue-Keeps (IsCoherent caches platform)
            (write_revocation caches platform now row state) _
            (write_revocation-Keeps now row row state there h) (λ updated middle kept. kept))
  ]

  pub revoke_vc_unknown-Keeps :
      (now : ℕ) (vc_id : String) (state : State caches platform)
      → at_key vc_id state.store.vcs ≡ none
      → IsCoherent caches platform state
      → IsCoherent caches platform (revoke_vc caches platform now vc_id state).1
  unfolding revoke_vc find_row find_by_vc_id
  revoke_vc_unknown-Keeps now vc_id state missing h = rw missing h

  retire_childless-Keeps :
      (now : ℕ) (row stored : VcRecord) (children : List VcRecord) (state : State caches platform)
      → at_key row.vc_id state.store.vcs ≡ some stored
      → IsCoherent caches platform state
      → IsCoherent caches platform (retire_childless caches platform now row children state).1
  retire_childless-Keeps now row stored [] state there h =
      continue-Keeps (IsCoherent caches platform) (write_revocation caches platform now row state) _
        (write_revocation-Keeps now row stored state there h) (λ updated middle kept. kept)
  retire_childless-Keeps now row stored (child ∷ children) state there h = h

  pub retire-Keeps :
      (now : ℕ) (row stored : VcRecord) (state : State caches platform)
      → at_key row.vc_id state.store.vcs ≡ some stored
      → IsCoherent caches platform state
      → IsCoherent caches platform (retire caches platform now row state).1
  unfolding retire find_active_children
  retire-Keeps now row stored state there h = retire_childless-Keeps now row stored _ state there h

  from_row-Keeps :
      (now : ℕ) (list_id : String) (row : Option StatusListEntryRecord)
      (state : State caches platform)
      → at_key list_id state.store.status_lists ≡ row
      → IsCoherent caches platform state
      → IsCoherent caches platform (from_row caches platform now list_id row state).1
  from_row-Keeps now list_id none state finds h = h
  from_row-Keeps now list_id (some entry) state finds h =
      refresh_Agree caches encoded_text now list_id entry platform.status_list_cache_ttl_seconds
        state.store.status_lists state.cache finds h

  from_cache-Keeps :
      (now : ℕ) (list_id : String) (cached : Option (List ℕ))
      → Keeps (IsCoherent caches platform) (from_cache caches platform now list_id cached)
  unfolding find_status_list_by_id
  from_cache-Keeps now list_id none state h = from_row-Keeps now list_id _ state refl h
  from_cache-Keeps now list_id (some []) state h = from_row-Keeps now list_id _ state refl h
  from_cache-Keeps now list_id (some (c ∷ cs)) state h = h

  pub get_status_list-Keeps :
      (now : ℕ) (list_id : String)
      → Keeps (IsCoherent caches platform) (get_status_list caches platform now list_id)
  unfolding get_status_list
  get_status_list-Keeps now list_id state h =
      from_cache-Keeps now list_id _ _
        (get_Agree caches encoded_text now list_id state.store.status_lists state.cache h)

  pub on_rows-Keeps :
      (action : Action VcStore VcRecord)
      → ((store : VcStore) → (action store).1.status_lists ≡ store.status_lists)
      → Keeps (IsCoherent caches platform) (on_store caches platform action)
  on_rows-Keeps action same state h =
      subst (λ lists. Agree caches encoded_text lists state.cache) (sym (same state.store)) h
