-- ===== src/VcService/Listing.antt =====
-- services/vc/vc.service.ts: `listVCs`.
use helix_core.Prelude.{ℕ, String, Option, none, some, List, [], ◌∷◌, ◌===◌, if◌then◌else◌, select}
use helix_core.Result.{Result, ok, throw, ◌>>=◌}
use helix_core.Action.{Action}
use helix_core.Cache.{ICache}
use helix_core.Credential.{body}
use helix_core.VcLookup.{vc_lookup_columns}
use helix_core.VcStore.{VcRecord}
use helix_core.VcStore.Listing.{first_rows, find_many}
use helix_core.VcService.{Platform, State, on_store}
use helix_core.VcService.Request.{unless_empty}
use helix_core.VcService.Manage.{VcStatus, is_good, is_revoked, is_expired, record_status, iso_date}

-- `ListVCFilters`
pub record ListVcFilters : Type 0 where
  pub subject_did : Option String
  pub issuer_did : Option String
  pub status : Option String
  pub limit : Option ℕ

-- `VCSummary`
pub record VcSummary : Type 0 where
  pub vc_id : String
  pub subject_did : String
  pub vc_type : Option String
  pub agent_name : Option String
  pub scopes : List String
  pub status : VcStatus
  pub issued_at : String
  pub expires_at : Option String
  pub parent_vc_id : Option String

abbrev status_text : VcStatus → String
status_text is_good = "active"
status_text is_revoked = "revoked"
status_text is_expired = "expired"

-- `a ?? b`
abbrev or_else : Option String → Option String → Option String
or_else none other = other
or_else (some text) other = some text

abbrev or_none : Option (List String) → List String
or_none none = []
or_none (some scopes) = scopes

abbrev or_fifty : Option ℕ → ℕ
or_fifty none = 50
or_fifty (some limit) = limit

-- `filters.status ? summaries.filter(…) : summaries`
unfoldable pub with_status : Option String → List VcSummary → List VcSummary
with_status none summaries = summaries
with_status (some status) summaries =
    if status === ""
    then summaries
    else select (λ (summary : VcSummary). status_text summary.status === status) summaries

module _ (caches : ICache (List ℕ)) (platform : Platform) where
  -- the summary of a row; an invalid expiry has no `toISOString()`
  unfoldable pub summary_of : ℕ → VcRecord → Result VcSummary
  summary_of now row = do
    expires_at ← iso_date caches platform row.expires_at
    ok (record {
      vc_id = row.vc_id;
      subject_did = row.subject_did;
      vc_type = unless_empty (or_else row.vc_type (vc_lookup_columns row.vc_json).vc_type);
      agent_name = unless_empty (body row.vc_json).subject.agent_name;
      scopes = or_none row.privilege_scopes;
      status = record_status now row;
      issued_at = platform.iso row.created_at;
      expires_at = expires_at;
      parent_vc_id =
          unless_empty (or_else row.parent_vc_id (body row.vc_json).subject.parent_vc_id);
    })

  -- `records.map(…)`
  unfoldable pub summaries_of : ℕ → List VcRecord → Result (List VcSummary)
  summaries_of now [] = ok []
  summaries_of now (row ∷ rows) = do
    summary ← summary_of now row
    rest ← summaries_of now rows
    ok (summary ∷ rest)

  abbrev cut : ListVcFilters → Result (List VcSummary) → Result (List VcSummary)
  cut filters (throw e) = throw e
  cut filters (ok summaries) =
      ok (first_rows (or_fifty filters.limit) (with_status filters.status summaries))

  abbrev summarise :
      ℕ
      → ListVcFilters
      → Result (List VcRecord) × State caches platform
      → Result (List VcSummary) × State caches platform
  summarise now filters (throw e, state) = (throw e, state)
  summarise now filters (ok rows, state) = (cut filters (summaries_of now rows), state)

  -- `listVCs`
  unfoldable pub list_vcs : ℕ → ListVcFilters → Action (State caches platform) (List VcSummary)
  list_vcs now filters state =
      summarise now filters
        (on_store caches platform (find_many filters.subject_did filters.issuer_did) state)
