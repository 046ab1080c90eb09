-- ===== src/VcService/Issued/Tests.antt =====
-- A credential for an agent that has none.
use helix_core.Prelude.{
  ◌<◌, ◌≡◌, refl, none, some, [], ◌∷◌, false, at_key, put, values, includes, add_all, add, ◌===◌,
}
use helix_core.Result.{Result, ok, throw}
use helix_core.Base58.{decode}
use helix_core.Credential.{SignedVc}
use helix_core.Verifier.Fixture.{subject, credential}
use helix_core.DidDocument.{multibase_to_public_key}
use helix_core.Scopes.{
  find_scope_problem, scope_problem, has_separator, is_separator, units, first_problem,
}
use helix_core.VcLookup.{vc_lookup_columns, scope_key, sort_scopes, normalize_scopes, join}
use helix_core.VcStore.{
  create_vc, claim_next_index, find_status_list_by_id, find_active_by_identity, active_sorted,
  sort_rows, has_identity, is_active,
}
use helix_core.VcService.{State, capacity, ensure_default_list, check_capacity}
use helix_core.VcService.Fixture.{platform, caches, state}
use helix_core.VcService.Tests.{stamp}
use helix_core.VcService.Reconcile.{
  nothing_done, reconcile_active, reconcile_identity, replace_all, revoke_all, same_scopes,
}
use helix_core.VcService.Issue.{
  ensure_subject, assert_issuer_signing_key_matches, status_entry, agent_subject, user_subject,
  build_credential, sign_credential, issued_row, store_issued, issue_vc,
}
use helix_core.VcService.Request.{
  IssueVcParams, IssueVcResult, extract_ed25519_public_key, expiry, check_kind, check_scopes,
}
use helix_core.VcService.Issued.{issue_vc-eq-ok}

abbrev params : IssueVcParams
params = record {
  subject_did = "did:new";
  subject_type = "agent";
  privilege_scopes = some ("read" ∷ []);
  agent_name = some "reader";
  user_id = none;
  expires_in_seconds = none;
  expires_at = none;
  delegated_from = none;
  delegation_depth = none;
  max_delegation_depth = none;
  parent_vc_id = none;
  revoke_existing = false;
}

abbrev outcome : Result IssueVcResult × State caches platform
outcome = issue_vc caches platform stamp params state

abbrev blank : IssueVcResult
blank = record {
  vc_id = "";
  vc = SignedVc.plain (credential "" "" [] (subject ""));
  status_list_index = 0;
  expires_at = none;
  reconciled = nothing_done;
}

abbrev or_blank : Result IssueVcResult → IssueVcResult
or_blank (ok result) = result
or_blank (throw e) = blank

abbrev result : IssueVcResult
result = or_blank outcome.0

issued_run : outcome ≡ (ok result, outcome.1)
unfolding issue_vc ensure_subject check_kind check_scopes find_scope_problem scope_problem
    first_problem has_separator is_separator units ensure_default_list find_status_list_by_id
    check_capacity assert_issuer_signing_key_matches extract_ed25519_public_key
    multibase_to_public_key decode claim_next_index store_issued sign_credential build_credential
    agent_subject user_subject status_entry create_vc issued_row expiry vc_lookup_columns scope_key
    sort_scopes normalize_scopes join reconcile_active reconcile_identity replace_all revoke_all
    same_scopes find_active_by_identity active_sorted sort_rows has_identity is_active includes add
    add_all at_key put values ◌===◌
issued_run = refl

issued_index : result.status_list_index ≡ 5
unfolding issue_vc ensure_subject check_kind check_scopes find_scope_problem scope_problem
    first_problem has_separator is_separator units ensure_default_list find_status_list_by_id
    check_capacity assert_issuer_signing_key_matches extract_ed25519_public_key
    multibase_to_public_key decode claim_next_index store_issued sign_credential build_credential
    agent_subject user_subject status_entry create_vc issued_row expiry vc_lookup_columns scope_key
    sort_scopes normalize_scopes join reconcile_active reconcile_identity replace_all revoke_all
    same_scopes find_active_by_identity active_sorted sort_rows has_identity is_active includes add
    add_all at_key put values ◌===◌
issued_index = refl

issue_vc-eq-ok_example :
    (ensure_subject caches platform "did:new" "agent" ≡ ok tt)
    × (check_kind params ≡ ok tt)
    × (check_scopes params ≡ ok tt)
    × (assert_issuer_signing_key_matches caches platform ≡ ok tt)
    × (sign_credential caches platform stamp
          (build_credential caches platform stamp params result.status_list_index)
        ≡ ok result.vc)
    × (result.status_list_index < capacity)
issue_vc-eq-ok_example =
    issue_vc-eq-ok caches platform stamp params state outcome.1 result issued_run
