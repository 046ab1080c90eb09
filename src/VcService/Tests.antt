-- ===== src/VcService/Tests.antt =====
-- Runs of the service's calls.
use helix_core.Prelude.{ℕ, ◌+◌, ◌≡◌, ◌≢◌, refl, none, some, List, [], ◌∷◌, at_key, arith}
use helix_core.Result.{ok}
use helix_core.StatusList.{
  bit_0, bit_1, read_buffer, base64url_decode, from_url, get_bit, create_status_list,
}
use helix_core.StatusList.Laws.{IsWritten}
use helix_core.StatusList.Tests.{letters}
use helix_core.VcStore.{StatusListEntryRecord}
use helix_core.VcService.{
  State, Stamp, default_status_list_id, get_status_list, make_status_list, claim_status_list_entry,
}
use helix_core.VcService.Manage.{RenewVcOptions, revoke_vc}
use helix_core.VcService.Revocation.{IsRevocation, revoked_row, revoke_vc-IsRevocation}
use helix_core.VcService.Allotment.{claims, claims_successive}
use helix_core.VcService.Replacement.{claim-make_status_list}
use helix_core.VcService.Race.{IsLost, overlap-IsLost}
use helix_core.VcService.Coherence.{IsCoherent}
use helix_core.VcService.Reached.{
  Reached-IsCoherent, by_row, get_status_list-by_row, revoked_is_published,
}
use helix_core.VcService.Fixture.{
  platform, caches, own, other, list, state, stored_list, stored_own, stored_other, own_points,
  other_points, stored_text-IsList, empty-IsCoherent, asked, asked-Reached, asked_list, asked_own,
}

overrides : RenewVcOptions
overrides = record { privilege_scopes = none; expires_in_seconds = none }

abbrev pub stamp : Stamp
stamp = record { now = 10; cuid = "new" }

revoke_vc-IsRevocation_example :
    (after : State caches platform) × (revoke_vc caches platform 10 "vc:own" state
      ≡ (ok (revoked_row 10 own), after))
    × IsRevocation caches platform 10 own list
        (IsWritten letters list.encoded_list 3 bit_1)
        state
        after
revoke_vc-IsRevocation_example =
    revoke_vc-IsRevocation caches platform 10 own 3 list (0 ∷ 0 ∷ []) state stored_list stored_own
      refl own_points refl stored_text-IsList (omega arith)

claims_successive_example :
    (after : State caches platform) × (claims caches platform 10 3 state
      ≡ (ok (5 ∷ 6 ∷ 7 ∷ []), after))
    × (entry : StatusListEntryRecord) × (at_key default_status_list_id after.store.status_lists
        ≡ some entry)
    × (entry.next_index ≡ 5 + 3)
    × (entry.encoded_list ≡ list.encoded_list)
claims_successive_example =
    claims_successive caches platform 10 3 list state stored_list (omega arith)

claim-make_status_list_example :
    ((claim_status_list_entry caches platform 11
        (make_status_list caches platform 10 default_status_list_id 16 state).1).0
      ≡ ok (create_status_list letters 16, 0))
    × (get_bit letters (create_status_list letters 16) 3 ≡ ok bit_0)
claim-make_status_list_example =
    claim-make_status_list caches platform 10 11 16 3 state (omega arith)

Reached-IsCoherent_example : IsCoherent caches platform asked
Reached-IsCoherent_example =
    Reached-IsCoherent caches platform state asked empty-IsCoherent asked-Reached

get_status_list-by_row_example :
    (get_status_list caches platform 20 default_status_list_id asked).0
    ≡ by_row caches platform (at_key default_status_list_id asked.store.status_lists)
get_status_list-by_row_example =
    get_status_list-by_row caches platform 20 default_status_list_id state asked empty-IsCoherent
      asked-Reached

revoked_is_published_example :
    (text : List ℕ) × ((get_status_list caches platform 20 default_status_list_id
        (revoke_vc caches platform 15 "vc:own" asked).1).0
      ≡ ok text)
    × (get_bit letters text 3 ≡ ok bit_1)
revoked_is_published_example =
    revoked_is_published caches platform 15 20 own 3 list (0 ∷ 0 ∷ []) state asked empty-IsCoherent
      asked-Reached asked_list asked_own refl own_points refl stored_text-IsList (omega arith)

bit_clear : get_bit letters list.encoded_list 3 ≡ ok bit_0
unfolding get_bit read_buffer base64url_decode from_url
bit_clear = refl

two_rows : own.vc_id ≢ other.vc_id
two_rows h = cc h

two_bits : ◌≢◌ {A = ℕ} 3 4
two_bits h = omega arith

overlap-IsLost_example :
    (after : State caches platform) × IsLost caches platform 10 11 own other 3 4 state after
overlap-IsLost_example =
    overlap-IsLost caches platform 10 11 own other 3 4 list (0 ∷ 0 ∷ []) state stored_list
      stored_own stored_other two_rows two_bits refl refl own_points other_points refl refl
      stored_text-IsList (omega arith) (omega arith) bit_clear
