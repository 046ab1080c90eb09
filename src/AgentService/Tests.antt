-- ===== src/AgentService/Tests.antt =====
-- An agent that is onboarded, one that inherits consent, and one that delegates.
use helix_core.Prelude.{
  ◌≡◌, refl, none, some, [], ◌∷◌, true, false, ◌===◌, select, includes, at_key, put, values, add,
  add_all,
}
use helix_core.Errors.{Thrown, enrollment_token_already_used}
use helix_core.Result.{ok, throw}
use helix_core.Action.{resolve}
use helix_core.Credential.{Proof, SignedVc, chained, of_list, body, delegation_chain}
use helix_core.Delegation.{Stamps}
use helix_core.Verifier.Fixture.{document, subject, credential}
use helix_core.Verifier.Host.{error}
use helix_core.VcService.Request.{IssueVcResult}
use helix_core.KeyStore.{DidKeyRecord}
use helix_core.AgentStore.{
  EnrollmentTokenRecord, ChallengeRecord, find_challenge_by_id, find_enrollment_token_by_id,
  mark_challenge_verified,
}
use helix_core.AgentService.{Services, AgentPlatform, CustodyState, is_hex}
use helix_core.AgentService.Enrollment.{or_no_texts, normalize_domains}
use helix_core.AgentService.Challenge.{
  ChallengeDraws, OnboardInput, process_onboard_create_challenge,
}
use helix_core.AgentService.Onboarding.{
  VerifyInput, OnboardResult, onboarding_vc, verify_signature, complete_onboarding, check_challenge,
  process_onboard_verify,
}
use helix_core.AgentService.Presenting.{
  Inherited, delegator_dids_of, is_delegable, inherited_from, ask_holders, find_delegator_grants,
}
use helix_core.AgentService.Delegating.{DelegateInput, is_eligible, only_eligible, sign_delegation}
use helix_core.AgentService.Once.{process_onboard_create_challenge_once}
use helix_core.AgentService.Verified.{HasPassed, ChallengeIsVerified, process_onboard_verify-eq-ok}
use helix_core.AgentService.Inheritance.{IsInheritance, find_delegator_grants-IsInheritance}
use helix_core.AgentService.Sources.{only_eligible-sign_delegation}

abbrev proof : Proof
proof = record {
  type = "Ed25519Signature2020";
  created = "now";
  verification_method = "did:agent#key-1";
  proof_purpose = "assertionMethod";
  proof_value = "1";
}

-- a root credential with depth, one that was delegated from it, and a grant
abbrev root : SignedVc
root = SignedVc.plain (
    credential "vc:root" "did:org" ("HelixAgentCredential" ∷ []) (record (subject "did:boss") {
      privilege_scopes = some ("read" ∷ []);
      delegation_depth = some 0;
      max_delegation_depth = some 2;
    }))

abbrev delegated : SignedVc
delegated =
    chained
      (credential "vc:delegated" "did:boss" ("HelixAgentCredential" ∷ []) (subject "did:agent"))
      (of_list (root ∷ []))

abbrev grant : SignedVc
grant =
    SignedVc.plain
      (credential "vc:grant" "did:sp" ("DelegationGrantCredential" ∷ []) (subject "did:boss"))

abbrev issued : IssueVcResult
issued = record {
  vc_id = "vc:root";
  vc = root;
  status_list_index = 0;
  expires_at = none;
  reconciled = record { replaced_vc_ids = []; revoked_vc_ids = []; retained_vc_ids = [] };
}

-- services that signed_answer the same each time, and a user who consented to `did:boss`
abbrev services : Services
services = record {
  Rest = Unit {0};
  prepare_did_creation =
      λ multibase. resolve (record { state_json = ""; signing_payload_hex = "" });
  create_did = λ key kind domains proof. resolve (record {
    did = "did:agent";
    did_document = document "did:agent";
    hedera_transaction_id = "t";
  });
  resolve_did = λ did. resolve (document did);
  issue_vc = λ params. resolve issued;
  list_active_by_subject_did = λ did kind. resolve (root ∷ []);
  find_active_by_subject_did = λ did. resolve (some root);
  find_active_by_vc_id = λ id did kind. resolve (some root);
  list_active_grants = λ did service user. resolve (grant ∷ []);
  claim_status_list_entry = resolve ("https://helix/list", 3);
  register_signed_vc = λ vc revoke. resolve issued.reconciled;
}

abbrev platform : AgentPlatform
platform = record {
  challenge_ttl_seconds = 300;
  hash_token = λ token. token;
  text_of = λ text. "";
  index_text = λ i. "3";
  hex_bytes = λ text. [];
  hex_text = λ bytes. "";
  json_texts = λ texts. "[]";
  parse_texts = λ text. ok [];
  trim = λ text. text;
  url_of = λ text. some ("https:", "a.b");
  add_days = λ now days. now;
  ed25519_verify = λ signature message key. ok true;
  sign_bytes = λ key bytes. ok "00";
  prove_vp = λ key method vp created. ok proof;
  prove_vc = λ key payload chain. ok proof;
}

abbrev token : EnrollmentTokenRecord
token = record {
  id = "tok";
  token_hash = "enroll:1";
  agent_name = "Agent";
  requested_scopes = "[]";
  requested_domains = "[]";
  max_delegation_depth = 1;
  expires_at = some 1000;
  used_at = none;
  created_at = 1;
}

abbrev challenge : ChallengeRecord
challenge = record {
  id = "c";
  challenge_id = "chal:1";
  nonce = "00";
  did = "";
  purpose = "agent_onboarding";
  pending_public_key_hex = some "07";
  pending_domains = some "[]";
  pending_did_create_state_json = some "";
  pending_did_create_payload_hex = some "";
  expires_at = 900;
  verified_at = none;
  created_at = 1;
  enrollment_token_id = some "tok";
}

abbrev state : CustodyState services
state = record {
  agents = record {
    enrollment_tokens = ("enroll:1", token) ∷ [];
    challenges = ("chal:1", challenge) ∷ [];
  };
  keys = [];
  rest = tt;
  log = [];
}

abbrev draws : ChallengeDraws
draws = record { now = 500; id = "c2"; challenge_id = "chal:2"; nonce = "00" }

abbrev later : ChallengeDraws
later = record { now = 600; id = "c3"; challenge_id = "chal:3"; nonce = "00" }

abbrev input : OnboardInput
input = record {
  enrollment_token = "enroll:1";
  public_key_hex = "0707070707070707070707070707070707070707070707070707070707070707";
  domains = none;
}

its_key : is_hex 64 input.public_key_hex ≡ true
unfolding is_hex
its_key = refl

its_domains : normalize_domains services platform (or_no_texts input.domains) ≡ ok []
unfolding normalize_domains
its_domains = refl

stored_token : at_key "enroll:1" state.agents.enrollment_tokens ≡ some token
unfolding at_key ◌===◌
stored_token = refl

abbrev after_draws : CustodyState services
after_draws = (process_onboard_create_challenge services platform draws input state).1

process_onboard_create_challenge_once_example :
    (process_onboard_create_challenge services platform later input after_draws).0
    ≡ throw (error enrollment_token_already_used [])
process_onboard_create_challenge_once_example =
    process_onboard_create_challenge_once services platform draws later input input [] [] token
      state after_draws its_key its_domains stored_token refl refl its_key its_domains refl refl

abbrev signed_answer : VerifyInput
signed_answer = record {
  challenge_id = "chal:1";
  signature =
      "00000000000000000000000000000000000000000000000000000000000000000000000000000000000000000000000000000000000000000000000000000000";
  did_create_signature = none;
}

abbrev onboarded : CustodyState services
onboarded = (process_onboard_verify services platform 500 signed_answer state).1

abbrev result : OnboardResult
result = record {
  agent_did = "did:agent";
  vc = root;
  hedera_transaction_id = "t";
  vc_id = "vc:root";
}

onboards : process_onboard_verify services platform 500 signed_answer state ≡ (ok result, onboarded)
unfolding process_onboard_verify find_challenge_by_id at_key ◌===◌ check_challenge is_hex
    verify_signature complete_onboarding find_enrollment_token_by_id values onboarding_vc
    mark_challenge_verified put
onboards = refl

process_onboard_verify-eq-ok_example :
    (found : ChallengeRecord) × (at_key "chal:1" state.agents.challenges ≡ some found)
    × HasPassed services platform 500 signed_answer found
    × ChallengeIsVerified services platform "chal:1" onboarded
    × ((e : Thrown) × ((process_onboard_verify services platform 550 signed_answer onboarded).0
          ≡ throw e))
process_onboard_verify-eq-ok_example =
    process_onboard_verify-eq-ok services platform 500 550 signed_answer signed_answer result state
      onboarded onboarded onboards refl refl

abbrev inherited : Inherited
inherited = record {
  agent_credentials = delegated ∷ [];
  grants = grant ∷ [];
  grant_holder_dids = "did:boss" ∷ [];
}

inherits :
    find_delegator_grants services platform (root ∷ delegated ∷ []) "did:sp" "did:user" state
    ≡ (ok (some inherited), state)
unfolding find_delegator_grants delegator_dids_of add_all add includes ask_holders is_delegable put
    inherited_from at_key values ◌===◌
inherits = refl

find_delegator_grants-IsInheritance_example : IsInheritance services "did:sp" "did:user" inherited
find_delegator_grants-IsInheritance_example =
    find_delegator_grants-IsInheritance services platform (root ∷ delegated ∷ []) "did:sp"
      "did:user" inherited state state inherits

abbrev delegation : DelegateInput
delegation = record {
  did = "did:boss";
  to = "did:agent";
  scopes = "read" ∷ [];
  vc_id = none;
  revoke_existing = false;
}

abbrev key : DidKeyRecord
key = record {
  id = "k";
  did = "did:boss";
  subject_type = "agent";
  encrypted = record { encrypted_private_key = ""; iv = ""; auth_tag = ""; algorithm = "" };
  created_at = 1;
}

abbrev stamps : Stamps
stamps = record { id = "vc:new"; now = "now"; expires_at = "then" }

picked :
    only_eligible "did:boss"
      ("read" ∷ [])
      (select (is_eligible ("read" ∷ [])) (delegated ∷ root ∷ []))
    ≡ ok (some root)
unfolding only_eligible is_eligible includes ◌===◌
picked = refl

apart : ("did:agent" === "did:boss") ≡ false
unfolding ◌===◌
apart = refl

only_eligible-sign_delegation_example :
    (vc : SignedVc) × (sign_delegation services platform stamps delegation key root
        ("https://helix/list", 3)
      ≡ ok vc)
    × (delegation_chain vc ≡ root ∷ [])
    × ((body vc).subject.privilege_scopes ≡ some ("read" ∷ []))
only_eligible-sign_delegation_example =
    only_eligible-sign_delegation services platform stamps delegation key (delegated ∷ root ∷ [])
      root ("read" ∷ []) ("https://helix/list", 3) (λ payload chain. (proof, refl)) picked apart
      refl
