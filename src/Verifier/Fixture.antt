-- ===== src/Verifier/Fixture.antt =====
-- A host and a presentation: an agent with a delegated credential, whose chain has a root with a status,
-- and a grant that the user gave to the delegating agent.
use helix_core.Prelude.{String, none, some, List, [], ◌∷◌, true, false, ◌===◌, if◌then◌else◌}
use helix_core.Result.{ok}
use helix_core.Json.{Json, str, arr, obj, nil, cons, end, member}
use helix_core.Credential.{
  Proof, CredentialStatus, CredentialSubject, VcBody, SignedVc, plain, chained, SignedVp, of_list,
}
use helix_core.DidDocument.{DidDocument}
use helix_core.StatusList.Tests.{letters}
use helix_core.Verifier.Host.{Host, index, VerifyVpOptions}

abbrev pub document : String → DidDocument
document did = record {
  context = [];
  id = did;
  controller = did;
  verification_method =
      record {
        id = "key";
        type = "Ed25519VerificationKey2020";
        controller = did;
        public_key_multibase = "z112";
      }
      ∷ [];
  authentication = "key" ∷ [];
  assertion_method = "key" ∷ [];
  service = none;
}

abbrev pub list_json : Json
list_json = obj (
    member "@context" (arr (cons (str "https://www.w3.org/ns/credentials/v2") nil)) (
      member "id" (str "https://helix/v1/status-list/1") (
        member "type" (arr (cons (str "BitstringStatusListCredential") nil)) (
          member "issuer" (str "did:org") (
            member "validFrom" (str "past") (
              member "credentialSubject"
                (obj (
                  member "id" (str "https://helix/v1/status-list/1#list") (
                    member "type" (str "BitstringStatusList") (
                      member "statusPurpose" (str "revocation")
                        (member "encodedList" (str "ÀÀ") end)))))
                end))))))

-- Instants are "past" or later; every signature is right.
abbrev pub host : Host
host = record {
  now = 10;
  date_ms = λ s. if s === "past" then some 5 else some 20;
  number_of = λ s. index 3;
  is_datetime = λ s. true;
  is_url = λ s. true;
  resolve_did = λ did. ok (document did);
  loopback_override = λ url. ok url;
  hash_vc = λ vc. [];
  hash_vp = λ vp. [];
  ed25519_verify = λ signature hash key. ok true;
  fetch = λ url. ok (record { ok = true; json = some list_json });
  codec = letters;
}

abbrev pub options : VerifyVpOptions
options = record {
  expected_target_service = none;
  allow_self_signed = false;
  status_list_resolver = none;
}

abbrev pub proof : Proof
proof = record {
  type = "Ed25519Signature2020";
  created = "past";
  verification_method = "key";
  proof_purpose = "assertionMethod";
  proof_value = "z12";
}

abbrev pub subject : String → CredentialSubject
subject id = record {
  id = id;
  type = "HelixAgent";
  privilege_scopes = none;
  agent_name = none;
  delegated_from = none;
  delegation_depth = none;
  max_delegation_depth = none;
  parent_vc_id = none;
  user_id = none;
  user_did = none;
  scopes = none;
  durability = none;
  service_did = none;
  allow_delegation = none;
}

abbrev pub credential : String → String → List String → CredentialSubject → VcBody
credential id issuer types subject = record {
  context = "https://www.w3.org/ns/credentials/v2" ∷ [];
  id = id;
  types = "VerifiableCredential" ∷ types;
  issuer = issuer;
  valid_from = "past";
  valid_until = some "future";
  credential_status = none;
  proof = some proof;
  subject = subject;
  target_service = none;
}

abbrev pub status : CredentialStatus
status = record {
  id = "https://helix/v1/status-list/1#3";
  type = "BitstringStatusListEntry";
  status_purpose = "revocation";
  status_list_index = "3";
  status_list_credential = "https://helix/v1/status-list/1";
}

abbrev pub root : SignedVc
root =
    plain
      (record (credential "urn:root" "did:org" ("HelixAgentCredential" ∷ [])
        (record (subject "did:parent") {
          privilege_scopes = some ("read" ∷ "write" ∷ []);
          delegation_depth = some 0;
          max_delegation_depth = some 1;
        })) { credential_status = some status })

abbrev pub leaf : SignedVc
leaf =
    chained
      (credential "urn:leaf" "did:parent" ("HelixAgentCredential" ∷ [])
        (record (subject "did:holder") {
          privilege_scopes = some ("read" ∷ []);
          delegated_from = some "did:parent";
          delegation_depth = some 1;
          max_delegation_depth = some 1;
          parent_vc_id = some "urn:root";
        }))
      (of_list (root ∷ []))

abbrev pub grant : SignedVc
grant = plain (
    credential "urn:grant" "did:service" ("DelegationGrantCredential" ∷ [])
      (record (subject "did:parent") {
        type = "DelegationGrant";
        user_did = some "did:user";
        scopes = some ("read" ∷ []);
        durability = some "standing";
      }))

abbrev pub vp : SignedVp
vp = record {
  id = "urn:vp";
  holder = "did:holder";
  verifiable_credential = leaf ∷ grant ∷ [];
  nonce = "n";
  expiration_date = "future";
  delegated_by = some "did:user";
  target_service = "did:service";
  proof = some proof;
}
