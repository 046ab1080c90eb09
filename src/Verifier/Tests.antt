-- ===== src/Verifier/Tests.antt =====
-- The presentation of the fixture, verified.
use helix_core.Prelude.{
  ◌≡◌, refl, none, some, List, [], ◌∷◌, ◌⊎◌, ◌↔◌, Memᴰ, Has, ◌++◌, map, All, true, false,
}
use helix_core.Result.{ok, throw}
use helix_core.Errors.{plain, vc_revoked}
use helix_core.Verifier.Host.{VerifyVpOptions, error}
use helix_core.Verifier.Trust.{
  IsUnrevoked, verify_revocation_iff, verify_revocation_fails_closed, IsTrusted,
  verify_credential-IsTrusted,
}
use helix_core.Verifier.Links.{assert_subset_bypass, IsNamed}
use helix_core.Verifier.Delegated.{IsDelegated, verify_delegation_chain_sound, delegation_narrows}
use helix_core.Verifier.Agents.{IsAccepted}
use helix_core.Verifier.Run.{agent_entries, grant_entries, IsSigned}
use helix_core.Verifier.Soundness.{
  Allows, verify_vp_privileges, verify_vp_effective, verify_vp_consent, verify_vp-IsSigned,
}
use helix_core.Credential.{
  plain as plain_vc, SignedVp, SignedVc, body, agent_scopes, delegation_chain, DelegationLink,
}
use helix_core.Verifier.Host.{is_revoked_error}
use helix_core.VpService.{
  VpPlatform, VpOptions, VpVerificationResult, vp_verified, jwt_issued, signed_vp_schema,
  resolve_status_list, core_options, session_payload, verify_parsed, verify_presented,
}
use helix_core.VpService.Laws.{IsAnswer, IsEffective, verify_presented-IsSessionOf}
use helix_core.Verifier.Fixture.{
  list_json, credential, subject, host, options, status, root, leaf, vp,
}
use helix_core.Verifier.Vc.{
  is_agent_authority_type, is_grant_type, assert_agent_vc, after, at_or_before, has_expired,
  is_some, check_bit, status_list, fetch_status_list, verify_revocation, verify_validity_window,
  verify_vc_signature, verify_credential, is_self_signed, grant_schema, assert_grant_vc,
}
use helix_core.Verifier.Chain.{
  verify_delegation_chain, verify_each, check_chain, check_links, check_link, assert_subset,
  to_delegation_link,
}
use helix_core.StatusList.{get_bit, read_buffer, base64url_decode, from_url}
use helix_core.StatusList.Schema.{parse_status_list}
use helix_core.Json.{lookup, as_strings}
use helix_core.Prelude.{includes, add, add_all, ◌===◌}
use helix_core.Proof.{verify_ed25519_proof}
use helix_core.Base58.{decode}
use helix_core.DidDocument.{extract_public_key, multibase_to_public_key}
use helix_core.Verifier.Host.{is_dropped}
use mathlib.Core.List.{flat_map}
use helix_core.Verifier.Vp.{
  VerifyVpResult, verify_vp, check_envelope, check_entries, agent_loop, agent_step, check_agent,
  is_present, wrong_service, settle_agent, accept_agent, add_links, check_grant, covered_authority,
  effective, grant_loop, grant_step, intersect, is_false, same_user, settle_grant, throw_last,
  verify_agent_credential,
}

abbrev links : List DelegationLink
links = map to_delegation_link (root ∷ leaf ∷ [])

abbrev result : VerifyVpResult
result = record {
  agent_did = "did:holder";
  privilege_scopes = "read" ∷ [];
  effective_scopes = "read" ∷ [];
  vp_id = "urn:vp";
  delegation_chain = links;
  warning = none;
}

chain_run : verify_delegation_chain host options leaf ≡ ok links
unfolding is_agent_authority_type is_grant_type assert_agent_vc after at_or_before has_expired
    is_some check_bit status_list fetch_status_list verify_revocation verify_validity_window
    verify_vc_signature verify_credential is_self_signed grant_schema assert_grant_vc
    verify_delegation_chain verify_each check_chain check_links check_link assert_subset
    to_delegation_link get_bit read_buffer base64url_decode from_url parse_status_list lookup
    as_strings includes add add_all ◌===◌ verify_ed25519_proof decode extract_public_key
    multibase_to_public_key is_dropped is_revoked_error flat_map
chain_run = refl

vp_run : verify_vp host options vp ≡ ok result
unfolding verify_vp check_envelope check_entries agent_loop agent_step check_agent is_present
    wrong_service settle_agent accept_agent add_links check_grant covered_authority effective
    grant_loop grant_step intersect is_false same_user settle_grant throw_last
    verify_agent_credential is_agent_authority_type is_grant_type assert_agent_vc after at_or_before
    has_expired is_some check_bit status_list fetch_status_list verify_revocation
    verify_validity_window verify_vc_signature verify_credential is_self_signed grant_schema
    assert_grant_vc verify_delegation_chain verify_each check_chain check_links check_link
    assert_subset to_delegation_link get_bit read_buffer base64url_decode from_url parse_status_list
    lookup as_strings includes add add_all ◌===◌ verify_ed25519_proof decode extract_public_key
    multibase_to_public_key is_dropped is_revoked_error flat_map
vp_run = refl

-- The resolver is down.
abbrev unreachable : VerifyVpOptions
unreachable = record options { status_list_resolver = some (λ url. throw (plain "down")) }

verify_revocation_iff_example :
    (verify_revocation host root options ≡ ok tt) ↔ IsUnrevoked host options status
verify_revocation_iff_example = verify_revocation_iff host options root status refl

unreachable_run :
    verify_revocation host root unreachable
    ≡ throw (error vc_revoked ("Unable to verify credential revocation status" ∷ []))
unfolding verify_revocation status_list is_revoked_error
unreachable_run = refl

verify_revocation_fails_closed_example :
    is_revoked_error (error vc_revoked ("Unable to verify credential revocation status" ∷ []))
    ≡ true
verify_revocation_fails_closed_example =
    verify_revocation_fails_closed host unreachable root
      (error vc_revoked ("Unable to verify credential revocation status" ∷ [])) unreachable_run

root_run : verify_credential host root options ≡ ok none
unfolding is_agent_authority_type is_grant_type assert_agent_vc after at_or_before has_expired
    is_some check_bit status_list fetch_status_list verify_revocation verify_validity_window
    verify_vc_signature verify_credential is_self_signed grant_schema assert_grant_vc
    verify_delegation_chain verify_each check_chain check_links check_link assert_subset
    to_delegation_link get_bit read_buffer base64url_decode from_url parse_status_list lookup
    as_strings includes add add_all ◌===◌ verify_ed25519_proof decode extract_public_key
    multibase_to_public_key is_dropped is_revoked_error flat_map
root_run = refl

verify_credential-IsTrusted_example : IsTrusted host options root
verify_credential-IsTrusted_example = verify_credential-IsTrusted host options root none root_run

read_named : includes ("read" ∷ []) "" ≡ false
unfolding includes ◌===◌
read_named = refl

read_run : assert_subset ("read" ∷ "write" ∷ []) ("read" ∷ []) ≡ ok tt
unfolding assert_subset includes ◌===◌
read_run = refl

assert_subset_bypass_example : assert_subset ("read" ∷ []) ("" ∷ "admin" ∷ []) ≡ ok tt
assert_subset_bypass_example = assert_subset_bypass ("read" ∷ []) ("admin" ∷ []) read_named

verify_delegation_chain_sound_example :
    IsDelegated host options leaf
    × (links ≡ map to_delegation_link (delegation_chain leaf ++ leaf ∷ []))
verify_delegation_chain_sound_example =
    verify_delegation_chain_sound host options leaf links refl chain_run

chain-IsNamed : All IsNamed (delegation_chain leaf ++ leaf ∷ [])
unfolding includes ◌===◌
chain-IsNamed = (refl, (refl, tt))

leaf_reads : Has (agent_scopes leaf) "read"
unfolding includes ◌===◌
leaf_reads = refl

delegation_narrows_example :
    All (λ vc. Has (agent_scopes vc) "read") (delegation_chain leaf ++ leaf ∷ [])
delegation_narrows_example =
    delegation_narrows host options leaf links "read" refl chain_run chain-IsNamed leaf_reads

reads : Has ("read" ∷ []) "read"
unfolding includes ◌===◌
reads = refl

verify_vp_privileges_example : (Has result.privilege_scopes "read") ↔ (
    (vc : SignedVc) × Memᴰ vc (agent_entries vp)
    × IsAccepted host options vp vc
    × Has (agent_scopes vc) "read")
verify_vp_privileges_example = verify_vp_privileges host options vp result "read" vp_run

verify_vp_effective_example :
    Has result.privilege_scopes "read"
    × ((grant_entries vp ≡ []) ⊎ ((grant : SignedVc) × Allows host options vp result grant "read"))
verify_vp_effective_example = verify_vp_effective host options vp result "read" vp_run reads

verify_vp_consent_example :
    (grant : SignedVc) × Allows host options vp result grant "read"
    × ((body grant).subject.user_did ≡ some "did:user")
verify_vp_consent_example = verify_vp_consent host options vp result "read" vp_run refl reads

verify_vp-IsSigned_example :
    IsSigned host options vp × ("did:holder" ≡ vp.holder) × ("urn:vp" ≡ vp.id)
verify_vp-IsSigned_example = verify_vp-IsSigned host options vp result vp_run

-- A credential of both types, and one of neither: the two are counted together as two.
abbrev mixed : SignedVp
mixed = record vp {
  verifiable_credential =
      plain_vc (
        credential "urn:both" "did:org" ("HelixAgentCredential" ∷ "DelegationGrantCredential" ∷ [])
          (subject "did:holder"))
      ∷ plain_vc (credential "urn:neither" "did:org" [] (subject "did:holder"))
      ∷ [];
}

mixed_run : check_entries host options mixed ≡ ok tt
unfolding check_entries is_agent_authority_type is_grant_type includes ◌===◌
mixed_run = refl

-- The presentation is sent to the service, and a session asked for.
abbrev served : VpPlatform
served = record {
  host = host;
  api_base_url = "https://helix/";
  jwt_session = some (record { signing_key = "k"; issuer_did = "did:org"; ttl_seconds = 60 });
  get_status_list = λ id. ok list_json;
  decode_uri_component = λ text. ok "1";
  iso = λ t. "then";
  issue_jwt = λ payload key. ok "token";
}

abbrev asked : VpOptions
asked = record {
  issue_session = true;
  expected_target_service = none;
  allow_self_signed = none;
  jti = "jwt:1";
}

abbrev sent : SignedVp
sent = record vp {
  id = "vp:helix:1";
  nonce = "0000000000000000000000000000000000000000000000000000000000000000";
}

abbrev response : VpVerificationResult
response = record {
  agent_did = "did:holder";
  user_did = some "did:user";
  target_service = "did:service";
  verified_at = "then";
  privilege_scopes = "read" ∷ [];
  effective_scopes = "read" ∷ [];
  vp_id = "vp:helix:1";
  delegation_chain = links;
  warning = none;
  session = some (record { token = "token"; expires_at = "then" });
}

serves :
    verify_presented served asked sent []
    ≡ (ok response, vp_verified "vp:helix:1" ∷ jwt_issued "jwt:1" ∷ [])
unfolding verify_presented verify_parsed signed_vp_schema core_options resolve_status_list
    session_payload verify_vp check_envelope check_entries agent_loop agent_step check_agent
    is_present wrong_service settle_agent accept_agent add_links check_grant covered_authority
    effective grant_loop grant_step intersect is_false same_user settle_grant throw_last
    verify_agent_credential is_agent_authority_type is_grant_type assert_agent_vc after at_or_before
    has_expired is_some check_bit status_list fetch_status_list verify_revocation
    verify_validity_window verify_vc_signature verify_credential is_self_signed grant_schema
    assert_grant_vc verify_delegation_chain verify_each check_chain check_links check_link
    assert_subset to_delegation_link get_bit read_buffer base64url_decode from_url parse_status_list
    lookup as_strings includes add add_all ◌===◌ verify_ed25519_proof decode extract_public_key
    multibase_to_public_key is_dropped is_revoked_error flat_map
serves = refl

verify_presented-IsSessionOf_example :
    (answer : IsAnswer served asked sent response) × All
      (IsEffective served asked sent answer.result)
      ("read" ∷ [])
verify_presented-IsSessionOf_example =
    verify_presented-IsSessionOf served asked sent []
      (vp_verified "vp:helix:1" ∷ jwt_issued "jwt:1" ∷ []) response serves
