-- ===== src/VcService/Statuses.antt =====
-- The two ways in which services/vc/vc.service.ts computes the status of a row, and the rows that the
-- repository calls active.
use helix_core.Prelude.{
  ℕ, ◌≡◌, ◌≢◌, ◌↔◌, refl, Option, none, some, true, not, ◌&&◌, ltb, leb, if◌then◌else◌, arith,
  Bool-cases, inl, inr,
}
use helix_core.VcStore.{JsDate, at, invalid_date, VcRecord, is_null, not_past, is_active}
use helix_core.VcStore.Listing.{not_after}
use helix_core.VcService.Manage.{is_good, is_revoked, is_expired, status_of, record_status}

active_parts :
    (now : ℕ) (r : Option ℕ) (e : Option JsDate)
    → e ≢ some invalid_date
    → ((is_null r && not_past e now) ≡ true) ↔ (
        (if not (is_null r) then is_revoked else if not_after e now then is_expired else is_good)
        ≡ is_good)
active_parts now (some t) e h = (λ g. cc g, λ g. cc g)
active_parts now none none h = (λ g. refl, λ g. refl)
active_parts now none (some (at t)) h = elim (Bool-cases (leb t now)) [
  | inl g ↦ rw g (λ later. ground arith, λ wrong. cc wrong)
  | inr g ↦ rw g (λ later. refl, λ good. ground arith)
]
active_parts now none (some invalid_date) h = absurd (h refl)

-- A row whose expiry is a date reads as `active` in `findRecordByVcId` and `listVCs` exactly when the
-- repository's lookups of active credentials find it.
record_status-is_active :
    (now : ℕ) (row : VcRecord)
    → row.expires_at ≢ some invalid_date
    → (is_active now row ≡ true) ↔ (record_status now row ≡ is_good)
unfolding is_active record_status
record_status-is_active now row h = active_parts now row.revoked_at row.expires_at h

instants :
    (now t : ℕ)
    → ((if ltb t now then is_expired else is_good) ≡ (if leb t now then is_expired else is_good))
      ↔ (t ≢ now)
instants now t = elim (Bool-cases (ltb t now)) [
  | inl e ↦ rw e (λ same. λ q. ground arith, λ apart. ground arith)
  | inr e ↦ rw e (λ same. λ q. ground arith, λ apart. ground arith)
]

-- For a row that is not revoked and has an expiry, `getVC` and `getVCStatus` report what
-- `findRecordByVcId` and `listVCs` report exactly when the clock does not stand at that expiry.
pub status_of-record_status :
    (now t : ℕ) (row : VcRecord)
    → row.revoked_at ≡ none
    → row.expires_at ≡ some (at t)
    → (status_of now row ≡ record_status now row) ↔ (t ≢ now)
unfolding status_of record_status
status_of-record_status now t row r e = rw (r, e) (instants now t)
