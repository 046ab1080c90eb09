-- ===== src/VcService/Reached.antt =====
-- The states that the calls of services/vc/vc.service.ts reach, and what `getStatusList` answers in them.
use helix_core.Prelude.{
  ℕ, ◌*◌, ◌<◌, ◌≡◌, refl, sym, ap, ◌∙◌, String, Option, none, some, List, [], ◌∷◌, true, at_key,
  length, Option-cases, inl, inr,
}
use helix_core.Result.{Result, ok, throw}
use helix_core.Cache.{ICache}
use helix_core.StatusList.{bit_1, get_bit}
use helix_core.StatusList.Laws.{IsList}
use helix_core.Verifier.Host.{index}
use helix_core.VcStore.{
  StatusListEntryRecord, VcStore, VcRecord, CreateVcParams, find_status_list_by_id, find_by_vc_id,
  create_vc, mark_as_renewed, claim_next_index,
}
use helix_core.VcService.{
  Platform, State, default_status_list_id, helix_error, on_store, points_at_default_list,
  make_status_list, claim_status_list_entry, ensure_default_list, AuditEvent, audit, from_row,
  from_cache, get_status_list,
}
use helix_core.VcService.Reconcile.{retire}
use helix_core.VcService.Manage.{revoke_vc}
use helix_core.VcService.Revocation.{revoke_vc-IsRevocation}
use helix_core.VcService.Coherence.{IsCoherent}
use helix_core.VcService.Steps.{
  make_status_list-Keeps, claim_status_list_entry-Keeps, revoke_vc-Keeps, revoke_vc_unknown-Keeps,
  retire-Keeps, ensure_default_list-Keeps, claim-Keeps, get_status_list-Keeps, on_rows-Keeps,
}

module _ (caches : ICache (List ℕ)) (platform : Platform) where
  -- one call, whatever it resolves to or is rejected with
  pub data Step : State caches platform → State caches platform → Type 0 where
    making :
        (now : ℕ) (list_id : String) (length : ℕ) (state : State caches platform)
        → Step state (make_status_list caches platform now list_id length state).1
    claiming :
        (now : ℕ) (state : State caches platform)
        → Step state (claim_status_list_entry caches platform now state).1
    -- what `issueVC` does first, and the index that it is handed
    ensuring :
        (now : ℕ) (state : State caches platform)
        → Step state (ensure_default_list caches platform now state).1
    counting :
        (now : ℕ) (state : State caches platform)
        → Step state
            (on_store caches platform (claim_next_index now default_status_list_id) state).1
    asking :
        (now : ℕ) (list_id : String) (state : State caches platform)
        → Step state (get_status_list caches platform now list_id state).1
    storing :
        (now : ℕ) (params : CreateVcParams) (state : State caches platform)
        → Step state (on_store caches platform (create_vc now params) state).1
    renewing :
        (now : ℕ) (old new : String) (state : State caches platform)
        → Step state (on_store caches platform (mark_as_renewed now old new) state).1
    revoking :
        (now : ℕ) (row : VcRecord) (state : State caches platform)
        → at_key row.vc_id state.store.vcs ≡ some row
        → Step state (revoke_vc caches platform now row.vc_id state).1
    revoking_unknown :
        (now : ℕ) (vc_id : String) (state : State caches platform)
        → at_key vc_id state.store.vcs ≡ none
        → Step state (revoke_vc caches platform now vc_id state).1
    -- `reconcileActive` retires a row as it was found, which may since have been marked as renewed
    retiring :
        (now : ℕ) (row stored : VcRecord) (state : State caches platform)
        → at_key row.vc_id state.store.vcs ≡ some stored
        → Step state (retire caches platform now row state).1
    logging :
        (event : AuditEvent) (state : State caches platform)
        → Step state (audit caches platform event state).1

  pub data Reached (start : State caches platform) : State caches platform → Type 0 where
    here : Reached start start
    next :
        {state after : State caches platform}
        → Reached start state
        → Step state after
        → Reached start after

  create_vc_lists :
      (now : ℕ) (params : CreateVcParams) (store : VcStore)
      → (create_vc now params store).1.status_lists ≡ store.status_lists
  unfolding create_vc
  create_vc_lists now params store = refl

  mark_as_renewed_lists :
      (now : ℕ) (old new : String) (store : VcStore)
      → (mark_as_renewed now old new store).1.status_lists ≡ store.status_lists
  unfolding mark_as_renewed find_by_vc_id
  mark_as_renewed_lists now old new store = elim (Option-cases (at_key old store.vcs)) [
    | inl e ↦ rw e refl
    | inr (row, e) ↦ rw e refl
  ]

  Step-IsCoherent :
      {state after : State caches platform}
      → Step state after
      → IsCoherent caches platform state
      → IsCoherent caches platform after
  Step-IsCoherent (making now list_id length state) h =
      make_status_list-Keeps caches platform now list_id length state h
  Step-IsCoherent (claiming now state) h = claim_status_list_entry-Keeps caches platform now state h
  Step-IsCoherent (ensuring now state) h = ensure_default_list-Keeps caches platform now state h
  Step-IsCoherent (counting now state) h = claim-Keeps caches platform now state h
  Step-IsCoherent (asking now list_id state) h =
      get_status_list-Keeps caches platform now list_id state h
  Step-IsCoherent (storing now params state) h =
      on_rows-Keeps caches platform (create_vc now params) (create_vc_lists now params) state h
  Step-IsCoherent (renewing now old new state) h =
      on_rows-Keeps caches platform (mark_as_renewed now old new)
        (mark_as_renewed_lists now old new) state h
  Step-IsCoherent (revoking now row state there) h =
      revoke_vc-Keeps caches platform now row state there h
  Step-IsCoherent (revoking_unknown now vc_id state missing) h =
      revoke_vc_unknown-Keeps caches platform now vc_id state missing h
  Step-IsCoherent (retiring now row stored state there) h =
      retire-Keeps caches platform now row stored state there h
  Step-IsCoherent (logging event state) h = h

  -- From a state whose cache agrees with the rows of the lists (an empty cache does), every sequence of these
  -- steps, resolved or rejected, reaches a state whose cache agrees with the rows: `createStatusList`,
  -- `claimStatusListEntry`, `getStatusList`, `revokeVC` of a row stored under its own id or of an unknown id,
  -- and the steps that the other calls are made of, which are to find or make the default list, hand out its
  -- next index, store a credential, mark one as renewed, retire one under whose id a row is stored, which may
  -- differ from the row that is handed over, and log an event.
  pub Reached-IsCoherent :
      (start state : State caches platform)
      → IsCoherent caches platform start
      → Reached start state
      → IsCoherent caches platform state
  Reached-IsCoherent start state h reached = along reached h
    where
      along :
          {state : State caches platform}
          → Reached start state
          → IsCoherent caches platform start
          → IsCoherent caches platform state
      along here h = h
      along (next reached step) h = Step-IsCoherent step (along reached h)

  -- what `getStatusList` would answer without a cache
  abbrev pub by_row : Option StatusListEntryRecord → Result (List ℕ)
  by_row none = throw (helix_error "STATUS_LIST_NOT_FOUND" "Status list not found" 404)
  by_row (some entry) = ok entry.encoded_list

  from_row_answers :
      (now : ℕ) (list_id : String) (row : Option StatusListEntryRecord)
      (state : State caches platform)
      → (from_row caches platform now list_id row state).0 ≡ by_row row
  from_row_answers now list_id none state = refl
  from_row_answers now list_id (some entry) state = refl

  from_cache_answers :
      (now : ℕ) (list_id : String) (cached : Option (List ℕ)) (state : State caches platform)
      → ((value : List ℕ)
          → cached ≡ some value
          → (entry : StatusListEntryRecord) × (at_key list_id state.store.status_lists ≡ some entry)
            × (entry.encoded_list ≡ value))
      → (from_cache caches platform now list_id cached state).0
        ≡ by_row (at_key list_id state.store.status_lists)
  unfolding find_status_list_by_id
  from_cache_answers now list_id none state known = from_row_answers now list_id _ state
  from_cache_answers now list_id (some []) state known = from_row_answers now list_id _ state
  from_cache_answers now list_id (some (c ∷ cs)) state known =
      let (entry, finds, same) = known (c ∷ cs) refl in rw finds (ap ok (sym same))

  -- In every state that the calls reach from one whose cache agrees with the rows, `getStatusList` answers
  -- what the row of the list says, or that there is none, as it would without a cache.
  pub get_status_list-by_row :
      (now : ℕ) (list_id : String) (start state : State caches platform)
      → IsCoherent caches platform start
      → Reached start state
      → (get_status_list caches platform now list_id state).0
        ≡ by_row (at_key list_id state.store.status_lists)
  unfolding get_status_list
  get_status_list-by_row now list_id start state h reached =
      from_cache_answers now list_id _ _ (λ value answered.
        Reached-IsCoherent start state h reached list_id value
          (caches.get_answer now list_id state.cache value answered))

  -- A revocation is published at once: in every state that the calls reach from one whose cache agrees
  -- with the rows, after revoking a stored credential that is not revoked, whose status entry is on this
  -- platform's list and whose index is within it, `getStatusList` answers, whenever it is called next, with
  -- a list in which the credential's bit reads 1.
  pub revoked_is_published :
      (now later : ℕ) (row : VcRecord) (i : ℕ) (list : StatusListEntryRecord) (buffer : List ℕ)
      (start state : State caches platform)
      → IsCoherent caches platform start
      → Reached start state
      → at_key default_status_list_id state.store.status_lists ≡ some list
      → at_key row.vc_id state.store.vcs ≡ some row
      → row.revoked_at ≡ none
      → points_at_default_list caches platform row.vc_json ≡ true
      → row.status_list_index ≡ index i
      → IsList platform.codec list.encoded_list buffer
      → i < length buffer * 8
      → (text : List ℕ) × ((get_status_list caches platform later default_status_list_id
            (revoke_vc caches platform now row.vc_id state).1).0
          ≡ ok text)
        × (get_bit platform.codec text i ≡ ok bit_1)
  revoked_is_published now later row i list buffer start state h reached lists there open_row points
        at_i is_list within =
      let (after, runs, revocation) =
        revoke_vc-IsRevocation caches platform now row i list buffer state lists there open_row
          points at_i is_list within in
      (
        revocation.entry.encoded_list,
        get_status_list-by_row later default_status_list_id start _ h
              (next reached (revoking now row state there))
            ∙ ap
                (λ (outcome : Result VcRecord × State caches platform).
                  by_row (at_key default_status_list_id outcome.1.store.status_lists))
                runs
            ∙ ap by_row revocation.finds,
        revocation.encodes.reads,
      )
