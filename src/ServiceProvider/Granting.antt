-- ===== src/ServiceProvider/Granting.antt =====
-- services/service-provider/service-provider.service.ts: `getAgentScopes` and `issueDelegationGrant`.
use Prim.Native.String.{◌++◌ as ◌<>◌}
use helix_core.Prelude.{
  String, Option, none, some, List, [], ◌∷◌, Bool, true, false, not, ◌&&◌, ◌===◌, if◌then◌else◌,
  select, every, includes, add_all,
}
use helix_core.Text.{codes, truthy, after_prefix}
use helix_core.Errors.{
  coded, delegatee_not_an_agent, agent_active_credential_not_found, service_revoked,
  service_key_not_found, consent_grant_scope_not_allowed, consent_no_grantable_scopes,
}
use helix_core.Result.{Result, ok, throw}
use helix_core.Action.{Action, resolve, reject, reject_if, call, ◌>>=◌, ◌>>◌}
use helix_core.Credential.{SignedVc, body, agent_scopes}
use helix_core.Scopes.{find_scope_problem}
use helix_core.VcLookup.{normalize_scopes}
use helix_core.StatusList.Schema.{StatusListCredential}
use helix_core.KeyStore.{DidKeyRecord, find_key_by_did}
use helix_core.ServiceStore.{ServiceRecord, find_service_by_did}
use helix_core.Grant.{GrantDraws, issue_grant}
use helix_core.Verifier.Host.{Host, error}
use helix_core.VcService.Reconcile.{ReconcileResult}
use helix_core.ServiceProvider.{
  GrantVcStore, ProviderPlatform, GrantEntry, ProviderState, on_services, on_keys, on_rest,
}
use helix_core.ServiceProvider.Enroll.{invalid_input, check_problem}

-- `IssueDelegationGrantInput`
pub record IssueGrantInput : Type 0 where
  pub service_did : String
  pub agent_did : String
  pub user_did : String
  pub scopes : List String
  pub durability : Option String
  pub revoke_existing : Bool
  pub allow_delegation : Option Bool

-- `IssueDelegationGrantResult`
pub record IssueGrantResult : Type 0 where
  pub grant_vc : SignedVc
  pub reconciled : ReconcileResult

-- `ACCEPT_TERMS_SCOPE`
abbrev pub accept_terms_scope : String
accept_terms_scope = "accept-terms"

-- `startsWith('did:')`
abbrev pub starts_with_did : String → Bool
starts_with_did text = elim (after_prefix (codes "did:") (codes text)) [
  | none ↦ false
  | some rest ↦ true
]

abbrev pub is_empty {ℓ} : {A : Type ℓ} → List A → Bool
is_empty [] = true
is_empty (x ∷ xs) = false

-- `!vc.credentialSubject.delegatedFrom`
abbrev pub is_own : SignedVc → Bool
is_own vc = not (truthy (body vc).subject.delegated_from)

-- the loop that gathers the scopes of the credentials
unfoldable pub union_scopes : List SignedVc → List String → List String
union_scopes [] scopes = scopes
union_scopes (vc ∷ vcs) scopes = union_scopes vcs (add_all (agent_scopes vc) scopes)

-- `keyRecord && keyRecord.subjectType === kind`
abbrev pub is_key_of : String → Option DidKeyRecord → Bool
is_key_of kind none = false
is_key_of kind (some key) = key.subject_type === kind

-- `scope !== ACCEPT_TERMS_SCOPE && !held.has(scope)`
abbrev pub is_beyond : List String → String → Bool
is_beyond held scope = not (scope === accept_terms_scope) && not (includes held scope)

-- `notHeld` and the scopes
unfoldable pub refuse_beyond : List String → List String → Result (List String)
refuse_beyond (scope ∷ more) scopes = throw (error consent_grant_scope_not_allowed (scope ∷ more))
refuse_beyond [] scopes =
    if every (λ scope. scope === accept_terms_scope) scopes
    then throw (error consent_no_grantable_scopes [])
    else ok scopes

-- the tests of the scopes that are asked for, against the scopes that the agent holds
unfoldable pub granted_scopes : List String → List String → Result (List String)
unfolding refuse_beyond
granted_scopes held requested =
    let scopes = normalize_scopes requested in refuse_beyond (select (is_beyond held) scopes) scopes

-- `{ grantVC }`
abbrev pub grant_of : Result (SignedVc × StatusListCredential) → Result SignedVc
grant_of (throw e) = throw e
grant_of (ok issued) = ok issued.0

-- `input.durability ?? 'standing'`
abbrev or_standing : Option String → String
or_standing none = "standing"
or_standing (some durability) = durability

module _ (store : GrantVcStore) (platform : ProviderPlatform) where
  -- `getAgentScopes`
  unfoldable pub get_agent_scopes : String → Action (ProviderState store) (List String)
  get_agent_scopes agent = do
    reject_if (not (starts_with_did agent)) (invalid_input "agentDid must be a DID")
    key ← on_keys store (find_key_by_did agent)
    reject_if (not (is_key_of "agent" key)) (error delegatee_not_an_agent (agent ∷ []))
    active ← on_rest store (store.list_active_by_subject_did agent "HelixAgentCredential")
    reject_if (is_empty (select is_own active))
        (error agent_active_credential_not_found (agent ∷ []))
    resolve (union_scopes (select is_own active) [])

  -- the tests of the input
  unfoldable pub check_grant_input : IssueGrantInput → Action (ProviderState store) (Unit {0})
  check_grant_input input = do
    let durability = or_standing input.durability
    reject_if (is_empty input.scopes) (invalid_input "scopes must be a non-empty array")
    check_problem "scopes" (find_scope_problem input.scopes)
    reject_if (not (durability === "standing") && not (durability === "session"))
        (invalid_input "durability must be 'standing' or 'session'")
    reject_if (not (starts_with_did input.user_did)) (invalid_input "userDid must be a DID")
    reject_if (not (starts_with_did input.agent_did)) (invalid_input "agentDid must be a DID")
    reject_if (input.agent_did === input.service_did)
        (invalid_input "A service cannot grant to itself")

  abbrev check_service : String → Option ServiceRecord → Action (ProviderState store) (Unit {0})
  check_service did none = reject (coded "SERVICE_NOT_FOUND" (◌<>◌ "Service not found: " did) 404)
  check_service did (some service) = elim service.revoked_at [
    | none ↦ resolve tt
    | some t ↦ reject (error service_revoked (did ∷ []))
  ]

  abbrev need_service_key : String → Option DidKeyRecord → Action (ProviderState store) DidKeyRecord
  need_service_key did none = reject (error service_key_not_found (did ∷ []))
  need_service_key did (some key) =
      if key.subject_type === "service"
      then resolve key
      else reject (error service_key_not_found (did ∷ []))

  -- the signer: a service that is enrolled and not revoked, and its key
  unfoldable pub find_signer : String → Action (ProviderState store) DidKeyRecord
  find_signer did = do
    service ← on_services store (find_service_by_did did)
    check_service did service
    key ← on_keys store (find_key_by_did did)
    need_service_key did key

  module _ (host : Host) where
    -- `issueGrant` with the key in custody
    unfoldable pub sign_consent :
        GrantDraws → IssueGrantInput → DidKeyRecord → List String → GrantEntry → Result SignedVc
    sign_consent draws input key scopes entry = grant_of (
        issue_grant host
          (record {
            agent_did = input.agent_did;
            user_did = input.user_did;
            scopes = scopes;
            durability = or_standing input.durability;
            service_did = some input.service_did;
            allow_delegation = input.allow_delegation;
            status_list = entry.status_list;
            status_list_credential_url = entry.status_list_credential_url;
            status_list_index = some entry.status_list_index;
          })
          (record { did = input.service_did; create_proof = platform.prove_vc key.encrypted })
          draws)

    -- `issueDelegationGrant`
    unfoldable pub issue_delegation_grant :
        GrantDraws → IssueGrantInput → Action (ProviderState store) IssueGrantResult
    issue_delegation_grant draws input = do
      check_grant_input input
      key ← find_signer input.service_did
      held ← get_agent_scopes input.agent_did
      scopes ← call (granted_scopes held input.scopes)
      entry ← on_rest store store.claim_status_list_entry
      grant ← call (sign_consent draws input key scopes entry)
      reconciled ← on_rest store (store.register_issued_grant grant input.revoke_existing)
      resolve (record { grant_vc = grant; reconciled = reconciled })
