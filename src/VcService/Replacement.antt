-- ===== src/VcService/Replacement.antt =====
-- `createStatusList` for the default list (services/vc/vc.service.ts), which
-- `POST /v1/status-list` calls.
use helix_core.Prelude.{ℕ, ◌≡◌, ap, List, ◌<◌, at_key-put_self, arith}
use helix_core.Result.{Result, ok}
use helix_core.Cache.{ICache}
use helix_core.StatusList.{create_status_list, get_bit, bit_0}
use helix_core.StatusList.Laws.{create_status_list_clear}
use helix_core.VcStore.{StatusListEntryRecord, create_status_list_row}
use helix_core.VcService.{
  Platform, State, default_status_list_id, make_status_list, claim_status_list_entry,
}
use helix_core.VcService.Allotment.{claim_status_list_entry_lem}

module _ (caches : ICache (List ℕ)) (platform : Platform) where
  -- Whatever the default list was, after `createStatusList` the next claim is handed index 0, though it may
  -- have been handed out before, and the text of a new list in which each bit below the length that was
  -- asked for reads 0, whatever it read before.
  pub claim-make_status_list :
      (now later length i : ℕ) (state : State caches platform)
      → i < length
      → ((claim_status_list_entry caches platform later
            (make_status_list caches platform now default_status_list_id length state).1).0
          ≡ ok (create_status_list platform.codec length, 0))
        × (get_bit platform.codec (create_status_list platform.codec length) i ≡ ok bit_0)
  unfolding make_status_list create_status_list_row
  claim-make_status_list now later length i state within =
      let entry : StatusListEntryRecord = record {
        list_id = default_status_list_id;
        encoded_list = create_status_list platform.codec length;
        next_index = 0;
        updated_at = now;
      } in
      let (buffer, is_list, room, tight, size, clear) =
        create_status_list_clear platform.codec length in
      (
        ap (λ (outcome : Result (List ℕ × ℕ) × State caches platform). outcome.0)
            (claim_status_list_entry_lem caches platform later entry _
              (at_key-put_self default_status_list_id entry state.store.status_lists)
              (omega arith)),
        clear i (omega (arith, within, room)),
      )
