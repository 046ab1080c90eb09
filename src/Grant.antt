-- ===== src/Grant.antt =====
-- core/grant.ts: `issueGrant`, by which a service issues a user's consent.
use Prim.Native.String.{◌++◌ as ◌<>◌}
use helix_core.Prelude.{
  ℕ, ◌+◌, ◌*◌, String, Option, none, some, List, [], ◌∷◌, Bool, ◌===◌, if◌then◌else◌,
}
use helix_core.Text.{codes}
use helix_core.Errors.{validation}
use helix_core.Result.{Result, ok, throw, ◌>>=◌}
use helix_core.Credential.{Proof, CredentialSubject, VcBody, SignedVc}
use helix_core.StatusList.{get_status_list_length}
use helix_core.StatusList.Schema.{StatusListCredential}
use helix_core.Verifier.Host.{Host, error}
use helix_core.Verifier.Vc.{grant_schema}

-- `IssueGrantOptions`
pub record IssueGrantOptions : Type 0 where
  pub agent_did : String
  pub user_did : String
  pub scopes : List String
  pub durability : String
  pub service_did : Option String
  pub allow_delegation : Option Bool
  pub status_list : StatusListCredential
  pub status_list_credential_url : String
  pub status_list_index : Option ℕ

-- `IssuerKeyMaterial`; the private key and `createEd25519Proof` with it are one function
pub record IssuerKeyMaterial : Type 0 where
  pub did : String
  pub create_proof : VcBody → Result Proof

-- What one call draws from outside: `Math.floor(Math.random() * length)`, `randomUUID()`, the clock,
-- `toISOString()`, the decimal text of an index and zod's message for a payload that it rejects.
pub record GrantDraws : Type 0 where
  pub random_index : ℕ → ℕ
  pub uuid : String
  pub now : ℕ
  pub iso : ℕ → String
  pub index_text : ℕ → String
  pub schema_message : VcBody → String

-- `STANDING_GRANT_VALID_MS` and `SESSION_GRANT_VALID_MS`
abbrev pub standing_grant_valid_ms : ℕ
standing_grant_valid_ms = 10 * 365 * 24 * 60 * 60 * 1000

abbrev pub session_grant_valid_ms : ℕ
session_grant_valid_ms = 24 * 60 * 60 * 1000

-- `options.statusListIndex ?? …`
abbrev chosen_index : Option ℕ → ℕ → ℕ
chosen_index none random = random
chosen_index (some claimed) random = claimed

-- the subject of the payload
unfoldable pub grant_subject : IssueGrantOptions → CredentialSubject
grant_subject options = record {
  id = options.agent_did;
  type = "DelegationGrant";
  privilege_scopes = none;
  agent_name = none;
  delegated_from = none;
  delegation_depth = none;
  max_delegation_depth = none;
  parent_vc_id = none;
  user_id = none;
  user_did = some options.user_did;
  scopes = some options.scopes;
  durability = some options.durability;
  service_did = options.service_did;
  allow_delegation = options.allow_delegation;
}

-- `payload`, before it is signed
unfoldable pub grant_payload : IssueGrantOptions → String → GrantDraws → ℕ → VcBody
grant_payload options issuer draws index =
    let valid_ms =
      if options.durability === "standing"
      then standing_grant_valid_ms
      else session_grant_valid_ms in
    record {
      context = "https://www.w3.org/ns/credentials/v2" ∷ "https://helixid.io/contexts/v1" ∷ [];
      id = ◌<>◌ "vc:helix:grant:" draws.uuid;
      types = "VerifiableCredential" ∷ "DelegationGrantCredential" ∷ [];
      issuer = issuer;
      valid_from = draws.iso draws.now;
      valid_until = some (draws.iso (draws.now + valid_ms));
      credential_status = some (record {
        id = ◌<>◌ options.status_list_credential_url (◌<>◌ "#" (draws.index_text index));
        type = "BitstringStatusListEntry";
        status_purpose = "revocation";
        status_list_index = draws.index_text index;
        status_list_credential = options.status_list_credential_url;
      });
      proof = none;
      subject = grant_subject options;
      target_service = none;
    }

module _ (host : Host) where
  -- the schema check and the signature
  unfoldable pub sign_grant : GrantDraws → IssuerKeyMaterial → VcBody → Result SignedVc
  sign_grant draws issuer_wallet payload =
      if grant_schema host (SignedVc.plain payload)
      then (issuer_wallet.create_proof payload >>= λ proof.
          ok (SignedVc.plain (record payload { proof = some proof })))
      else throw
          (error validation (◌<>◌ "Invalid grant payload: " (draws.schema_message payload) ∷ []))

  -- `issueGrant`
  unfoldable pub issue_grant :
      IssueGrantOptions → IssuerKeyMaterial → GrantDraws → Result (SignedVc × StatusListCredential)
  issue_grant options issuer_wallet draws = do
    list_length ←
        get_status_list_length host.codec
          (codes options.status_list.credential_subject.encoded_list)
    let index = chosen_index options.status_list_index (draws.random_index list_length)
    grant_vc ← sign_grant draws issuer_wallet (grant_payload options issuer_wallet.did draws index)
    ok (grant_vc, options.status_list)
