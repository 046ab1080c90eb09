-- ===== src/Delegation.antt =====
-- core/delegation.ts: `buildDelegationVC`, by which an agent passes on a part of its scopes.
pub mod Laws
mod Tests
use helix_core.Prelude.{
  ℕ, ◌+◌, String, Option, none, some, List, [], ◌∷◌, ◌++◌, Bool, true, false, not, ltb, ◌===◌,
  includes, if◌then◌else◌,
}
use helix_core.Errors.{
  Thrown, scope_escalation_denied, self_delegation_not_allowed, max_delegation_depth_exceeded,
}
use helix_core.Result.{Result, ok, throw, throw_if, ◌>>=◌, ◌>>◌}
use helix_core.Credential.{
  Proof, CredentialStatus, CredentialSubject, VcBody, SignedVc, chained, body, of_list,
  delegation_chain, or_zero, agent_scopes,
}
use helix_core.Verifier.Host.{error}

-- `DelegateOptions`; the number `expiresIn` is in `Stamps`
pub record DelegateOptions : Type 0 where
  pub to : String
  pub scopes : List String
  pub from_vc : SignedVc
  pub credential_status : Option CredentialStatus

-- What one call draws from outside: `vc:helix:delegation:${randomUUID()}`, and `toISOString()` of now and
-- of now plus `expiresIn` seconds.
pub record Stamps : Type 0 where
  pub id : String
  pub now : String
  pub expires_at : String

-- `wallet`; the private key and `createEd25519Proof` with it are one function
pub record Wallet : Type 0 where
  pub did : String
  pub create_proof : VcBody → List SignedVc → Result Proof

-- `assertAgentVC`
unfoldable pub assert_scopes : Option (List String) → Result (Unit {0})
assert_scopes none =
    throw (error scope_escalation_denied ("credential has no privilege scopes" ∷ []))
assert_scopes (some scopes) = ok tt

-- `assertSubset`
unfoldable pub assert_all_held : List String → List String → Result (Unit {0})
assert_all_held parent_scopes [] = ok tt
assert_all_held parent_scopes (scope ∷ scopes) = do
  throw_if (not (includes parent_scopes scope)) (error scope_escalation_denied (scope ∷ []))
  assert_all_held parent_scopes scopes

-- `payload`, before it is signed
abbrev pub delegation_body : DelegateOptions → String → Stamps → VcBody
delegation_body options did stamps =
    let parent = body options.from_vc in
    record {
      context = "https://www.w3.org/ns/credentials/v2" ∷ "https://helixid.io/contexts/v1" ∷ [];
      id = stamps.id;
      types = "VerifiableCredential" ∷ "HelixAgentCredential" ∷ [];
      issuer = did;
      valid_from = stamps.now;
      valid_until = some stamps.expires_at;
      credential_status = options.credential_status;
      proof = none;
      subject = record {
        id = options.to;
        type = "HelixAgent";
        privilege_scopes = some options.scopes;
        agent_name = some options.to;
        delegated_from = some did;
        delegation_depth = some (or_zero parent.subject.delegation_depth + 1);
        max_delegation_depth = some (or_zero parent.subject.max_delegation_depth);
        parent_vc_id = some parent.id;
        user_id = none;
        user_did = none;
        scopes = none;
        durability = none;
        service_did = none;
        allow_delegation = none;
      };
      target_service = none;
    }

-- `buildDelegationVC`
unfoldable pub build_delegation_vc : DelegateOptions → Wallet → Stamps → Result SignedVc
build_delegation_vc options wallet stamps = do
  let subject = (body options.from_vc).subject
  throw_if (options.to === wallet.did) (error self_delegation_not_allowed (wallet.did ∷ []))
  assert_scopes subject.privilege_scopes
  assert_all_held (agent_scopes options.from_vc) options.scopes
  throw_if (ltb (or_zero subject.max_delegation_depth) (or_zero subject.delegation_depth + 1))
      (error max_delegation_depth_exceeded [])
  let payload = delegation_body options wallet.did stamps
  let chain = delegation_chain options.from_vc ++ options.from_vc ∷ []
  proof ← wallet.create_proof payload chain
  ok (chained (record payload { proof = some proof }) (of_list chain))
