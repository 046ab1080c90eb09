-- ===== src/Credential.antt =====
-- core/schemas/vc.ts, delegation-grant.ts and vp.ts: credentials and presentations as the verifier
-- reads them. An absent field is `none`. Instants are milliseconds counted from the earliest instant
-- that a JavaScript `Date` holds, so that they are natural numbers.
use helix_core.Prelude.{ℕ, String, Option, none, some, List, [], ◌∷◌, Bool}

-- `VCProofSchema`
pub record Proof : Type 0 where
  pub type : String
  pub created : String
  pub verification_method : String
  pub proof_purpose : String
  pub proof_value : String

-- `VCCredentialStatusSchema`
pub record CredentialStatus : Type 0 where
  pub id : String
  pub type : String
  pub status_purpose : String
  pub status_list_index : String
  pub status_list_credential : String

-- The fields of `AgentCredentialSubjectSchema`, `UserCredentialSubjectSchema` and
-- `DelegationGrantSubjectSchema`; a credential whose kind has not been checked may lack any of them.
pub record CredentialSubject : Type 0 where
  pub id : String
  pub type : String
  pub privilege_scopes : Option (List String)
  pub agent_name : Option String
  pub delegated_from : Option String
  pub delegation_depth : Option ℕ
  pub max_delegation_depth : Option ℕ
  pub parent_vc_id : Option String
  pub user_id : Option String
  pub user_did : Option String
  pub scopes : Option (List String)
  pub durability : Option String
  pub service_did : Option String
  pub allow_delegation : Option Bool

-- `VCBaseSchema` with the subject, the types and `targetService`
pub record VcBody : Type 0 where
  pub context : List String
  pub id : String
  pub types : List String
  pub issuer : String
  pub valid_from : String
  pub valid_until : Option String
  pub credential_status : Option CredentialStatus
  pub proof : Option Proof
  pub subject : CredentialSubject
  pub target_service : Option String

-- A signed credential without a `delegationChain`, or with one: the credentials from the root down to
-- its parent.
mutual
  pub data SignedVc : Type 0 where
    plain : VcBody → SignedVc
    chained : VcBody → SignedVcs → SignedVc

  pub data SignedVcs : Type 0 where
    nil : SignedVcs
    cons : SignedVc → SignedVcs → SignedVcs

abbrev pub body : SignedVc → VcBody
body (plain b) = b
body (chained b chain) = b

abbrev pub to_list : SignedVcs → List SignedVc
to_list nil = []
to_list (cons vc more) = vc ∷ to_list more

abbrev pub of_list : List SignedVc → SignedVcs
of_list [] = nil
of_list (vc ∷ more) = cons vc (of_list more)

-- `vc.delegationChain ?? []`
abbrev pub delegation_chain : SignedVc → List SignedVc
delegation_chain (plain b) = []
delegation_chain (chained b chain) = to_list chain

-- `signedVPSchema`, less the context, the types and the nonce, which nothing but the hash reads
pub record SignedVp : Type 0 where
  pub id : String
  pub holder : String
  pub verifiable_credential : List SignedVc
  pub nonce : String
  pub expiration_date : String
  pub delegated_by : Option String
  pub target_service : String
  pub proof : Option Proof

-- core/delegation.ts: `DelegationLink`
pub record DelegationLink : Type 0 where
  pub issuer : String
  pub subject : String
  pub vc_id : String
  pub scopes : List String
  pub delegation_depth : ℕ

-- `value ?? 0`
abbrev pub or_zero : Option ℕ → ℕ
or_zero none = 0
or_zero (some n) = n

-- `subject.privilegeScopes` of a credential that is known to have them
abbrev pub agent_scopes : SignedVc → List String
agent_scopes vc = scopes_of (body vc).subject.privilege_scopes
  where
    scopes_of : Option (List String) → List String
    scopes_of none = []
    scopes_of (some scopes) = scopes
