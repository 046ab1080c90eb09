-- ===== src/VcService/Race.antt =====
-- Two calls of `revokeVC` that overlap (services/vc/vc.service.ts): each reads the list and computes the new text,
-- and only then writes it.
use helix_core.Prelude.{
  ℕ, ◌*◌, ◌<◌, ◌≡◌, ◌≢◌, refl, ap, sym, ◌∙◌, String, none, some, List, true, false, not, at_key,
  at_key-put_self, at_key-put_ne, length, Option-cases, Bool-cases, inl, inr,
}
use helix_core.Result.{ok, Result-cases}
use helix_core.Action.{Action, resolve, reject_if, ◌>>=◌, ◌>>◌}
use helix_core.Cache.{ICache}
use helix_core.StatusList.{bit_0, bit_1, get_bit}
use helix_core.StatusList.Laws.{IsList, set_bit-IsWritten}
use helix_core.Verifier.Host.{index}
use helix_core.VcStore.{
  VcRecord, is_null, StatusListEntryRecord, find_status_list_by_id, find_by_vc_id,
}
use helix_core.VcService.{
  Platform, State, default_status_list_id, helix_error, audit, vc_revoked, points_at_default_list,
}
use helix_core.VcService.Reconcile.{with_bit, read_revocation, finish_revocation, write_revocation}
use helix_core.VcService.Manage.{find_row, revoke_vc}
use helix_core.VcService.Revocation.{
  revoked_row, rewritten, revoke_vc_row_lem, with_bit_own, closed,
}

module _ (caches : ICache (List ℕ)) (platform : Platform) where
  -- `revokeVC` up to the new text, and from there on
  unfoldable pub begin_revoke : String → Action (State caches platform) (VcRecord × List ℕ)
  begin_revoke vc_id = do
    row ← find_row caches platform vc_id
    reject_if (not (is_null row.revoked_at))
        (helix_error "VC_ALREADY_REVOKED" "Credential already revoked" 409)
    encoded ← read_revocation caches platform row
    resolve (row, encoded)

  unfoldable pub finish_revoke :
      ℕ → String → VcRecord × List ℕ → Action (State caches platform) VcRecord
  finish_revoke now vc_id begun = do
    updated ← finish_revocation caches platform now begun.0 begun.1
    audit caches platform (vc_revoked vc_id)
    resolve updated

  -- Two calls, where the second has read before the first writes.
  unfoldable pub overlap : ℕ → ℕ → String → String → Action (State caches platform) VcRecord
  unfolding begin_revoke finish_revoke
  overlap now later a b = do
    first ← begin_revoke a
    second ← begin_revoke b
    finish_revoke now a first
    finish_revoke later b second

  -- A call alone is its two halves.
  revoke_vc-begin_revoke :
      (now : ℕ) (vc_id : String) (state : State caches platform)
      → revoke_vc caches platform now vc_id state
        ≡ (begin_revoke vc_id >>= finish_revoke now vc_id) state
  unfolding revoke_vc begin_revoke finish_revoke find_row find_by_vc_id write_revocation
      find_status_list_by_id
  revoke_vc-begin_revoke now vc_id state = elim (Option-cases (at_key vc_id state.store.vcs)) [
    | inl missing ↦ rw missing refl
    | inr (row, there) ↦ elim (Bool-cases (not (is_null row.revoked_at))) [
      | inl e ↦ rw (there, e) refl
      | inr e ↦ elim (Option-cases (at_key default_status_list_id state.store.status_lists)) [
        | inl lost ↦ rw (there, e) (rw lost refl)
        | inr (list, here) ↦ elim (Result-cases (with_bit caches platform row list.encoded_list)) [
          | inl (t, fails) ↦ rw (there, e) (rw here (rw fails refl))
          | inr (encoded, written) ↦ rw (there, e) (rw here (rw written refl))
        ]
      ]
    ]
  ]

  begin_revoke_lem :
      (row : VcRecord) (list : StatusListEntryRecord) (encoded : List ℕ)
      (state : State caches platform)
      → at_key default_status_list_id state.store.status_lists ≡ some list
      → at_key row.vc_id state.store.vcs ≡ some row
      → row.revoked_at ≡ none
      → with_bit caches platform row list.encoded_list ≡ ok encoded
      → begin_revoke row.vc_id state ≡ (ok (row, encoded), state)
  unfolding begin_revoke find_row find_by_vc_id find_status_list_by_id
  begin_revoke_lem row list encoded state here there open_row written =
      rw (there, guard) (rw here (rw written refl))
    where
      guard : not (is_null row.revoked_at) ≡ false
      guard = ap (λ r. not (is_null r)) open_row

  finish_revoke_lem :
      (now : ℕ) (row : VcRecord) (list : StatusListEntryRecord) (encoded : List ℕ)
      (state : State caches platform)
      → at_key default_status_list_id state.store.status_lists ≡ some list
      → at_key row.vc_id state.store.vcs ≡ some row
      → finish_revoke now row.vc_id (row, encoded) state
        ≡ (ok (revoked_row now row), closed caches platform now row list encoded state)
  unfolding finish_revoke
  finish_revoke_lem now row list encoded state here there =
      rw
        (revoke_vc_row_lem now row.vc_id row default_status_list_id list encoded state.store here
          there)
        (elim (Bool-cases (points_at_default_list caches platform row.vc_json)) [
          | inl e ↦ rw e refl
          | inr e ↦ rw e refl
        ])

  overlap_lem :
      (now later : ℕ) (a b : VcRecord) (list : StatusListEntryRecord) (first second : List ℕ)
      (state middle : State caches platform)
      → begin_revoke a.vc_id state ≡ (ok (a, first), state)
      → begin_revoke b.vc_id state ≡ (ok (b, second), state)
      → finish_revoke now a.vc_id (a, first) state ≡ (ok (revoked_row now a), middle)
      → overlap now later a.vc_id b.vc_id state ≡ finish_revoke later b.vc_id (b, second) middle
  unfolding overlap
  overlap_lem now later a b list first second state middle opens opens_too writes =
      rw opens (rw opens_too (rw writes refl))

  -- What the two calls leave: both rows are revoked and the second credential's bit reads 1, but that of the
  -- first reads 0 in the stored list, though it reads 1 in the text that the first call wrote.
  pub record IsLost (now later : ℕ) (a b : VcRecord) (i j : ℕ)
      (before after : State caches platform) : Type 0 where
    pub both : overlap now later a.vc_id b.vc_id before ≡ (ok (revoked_row later b), after)
    pub first_row : at_key a.vc_id after.store.vcs ≡ some (revoked_row now a)
    pub second_row : at_key b.vc_id after.store.vcs ≡ some (revoked_row later b)
    pub first : List ℕ
    pub begins : begin_revoke a.vc_id before ≡ (ok (a, first), before)
    pub written : get_bit platform.codec first i ≡ ok bit_1
    pub entry : StatusListEntryRecord
    pub stored : at_key default_status_list_id after.store.status_lists ≡ some entry
    pub lost : get_bit platform.codec entry.encoded_list i ≡ ok bit_0
    pub kept : get_bit platform.codec entry.encoded_list j ≡ ok bit_1
    pub alone_first :
        revoke_vc caches platform now a.vc_id before
        ≡ (begin_revoke a.vc_id >>= finish_revoke now a.vc_id) before
    pub alone_second :
        revoke_vc caches platform later b.vc_id before
        ≡ (begin_revoke b.vc_id >>= finish_revoke later b.vc_id) before

  -- Two stored credentials that are not revoked, with different bits of the default list, the first of which
  -- reads 0: where `revokeVC` of both overlaps so that the second call reads the list before the first writes
  -- it, both calls resolve and both rows end up revoked, but the stored list reads 0 for the first credential
  -- and 1 for the second, though the text that the first call wrote reads 1 for the first. `revokeVC` alone
  -- is its one half and then the other, for each of the two.
  pub overlap-IsLost :
      (now later : ℕ) (a b : VcRecord) (i j : ℕ) (list : StatusListEntryRecord) (buffer : List ℕ)
      (state : State caches platform)
      → at_key default_status_list_id state.store.status_lists ≡ some list
      → at_key a.vc_id state.store.vcs ≡ some a
      → at_key b.vc_id state.store.vcs ≡ some b
      → a.vc_id ≢ b.vc_id
      → i ≢ j
      → a.revoked_at ≡ none
      → b.revoked_at ≡ none
      → points_at_default_list caches platform a.vc_json ≡ true
      → points_at_default_list caches platform b.vc_json ≡ true
      → a.status_list_index ≡ index i
      → b.status_list_index ≡ index j
      → IsList platform.codec list.encoded_list buffer
      → i < length buffer * 8
      → j < length buffer * 8
      → get_bit platform.codec list.encoded_list i ≡ ok bit_0
      → (after : State caches platform) × IsLost now later a b i j state after
  overlap-IsLost now later a b i j list buffer state here at_a at_b apart distinct open_a open_b
        points_a points_b at_i at_j is_list within_i within_j clear =
      let (first, sets_a, set_a) =
        set_bit-IsWritten platform.codec list.encoded_list buffer i bit_1 is_list within_i in
      let (second, sets_b, set_b) =
        set_bit-IsWritten platform.codec list.encoded_list buffer j bit_1 is_list within_j in
      let middle = closed caches platform now a list first state in
      let changed = rewritten now first list in
      let after = closed caches platform later b changed second middle in
      let opens =
        begin_revoke_lem a list first state here at_a open_a
          (with_bit_own caches platform a i list.encoded_list points_a at_i ∙ sets_a) in
      let opens_too =
        begin_revoke_lem b list second state here at_b open_b
          (with_bit_own caches platform b j list.encoded_list points_b at_j ∙ sets_b) in
      (
        after,
        record {
          both =
              overlap_lem now later a b list first second state middle opens opens_too
                (finish_revoke_lem now a list first state here at_a)
              ∙ finish_revoke_lem later b changed second middle
                  (at_key-put_self default_status_list_id changed state.store.status_lists)
                  (at_key-put_ne a.vc_id b.vc_id (revoked_row now a) state.store.vcs apart ∙ at_b);
          first_row =
              at_key-put_ne b.vc_id a.vc_id (revoked_row later b) middle.store.vcs
                (λ q. apart (sym q))
              ∙ at_key-put_self a.vc_id (revoked_row now a) state.store.vcs;
          second_row = at_key-put_self b.vc_id (revoked_row later b) middle.store.vcs;
          first = first;
          begins = opens;
          written = set_a.reads;
          entry = rewritten later second changed;
          stored =
              at_key-put_self default_status_list_id (rewritten later second changed)
                middle.store.status_lists;
          lost = set_b.others i (λ q. distinct (sym q)) ∙ clear;
          kept = set_b.reads;
          alone_first = revoke_vc-begin_revoke now a.vc_id state;
          alone_second = revoke_vc-begin_revoke later b.vc_id state;
        },
      )
