-- ===== src/AgentService/Delegating.antt =====
-- services/agent/agent.service.ts: `delegateAuthority` and `resolveDelegationSourceVC`.
use Prim.Native.String.{◌++◌ as ◌<>◌}
use helix_core.Prelude.{
  ℕ, ◌+◌, String, Option, none, some, List, [], ◌∷◌, Bool, true, false, ◌&&◌, ◌===◌, leb, select,
  every, includes, if◌then◌else◌,
}
use helix_core.Text.{truthy}
use helix_core.Errors.{
  agent_active_credential_not_found, delegatee_not_an_agent, vp_multiple_active_vc,
}
use helix_core.Result.{Result, ok, throw}
use helix_core.Action.{Action, resolve, reject, call, ◌>>=◌, ◌>>◌}
use helix_core.Credential.{CredentialStatus, SignedVc, body, agent_scopes, or_zero}
use helix_core.Delegation.{Stamps, build_delegation_vc}
use helix_core.Verifier.Host.{error}
use helix_core.VcService.Reconcile.{ReconcileResult}
use helix_core.KeyStore.{DidKeyRecord, find_key_by_did}
use helix_core.AgentService.{
  Services, AgentPlatform, vc_delegated, CustodyState, on_rest, on_keys, log_agent,
}
use helix_core.AgentService.Presenting.{need_key}

-- the input of `delegateAuthority`, but for `expiresIn`, which is in the stamps of the credential
pub record DelegateInput : Type 0 where
  pub did : String
  pub to : String
  pub scopes : List String
  pub vc_id : Option String
  pub revoke_existing : Bool

-- `DelegateAuthorityResult`
pub record DelegateAuthorityResult : Type 0 where
  pub delegated_vc : SignedVc
  pub reconciled : ReconcileResult

-- the test of `candidates.filter`
unfoldable pub is_eligible : List String → SignedVc → Bool
is_eligible requested vc =
    let subject = (body vc).subject in
    every (λ scope. includes (agent_scopes vc) scope) requested
    && leb (or_zero subject.delegation_depth + 1) (or_zero subject.max_delegation_depth)

-- `scopes.join(', ')`
abbrev pub join_scopes : List String → String
join_scopes [] = ""
join_scopes (s ∷ []) = s
join_scopes (s ∷ t ∷ more) = ◌<>◌ s (◌<>◌ ", " (join_scopes (t ∷ more)))

-- the one candidate that is left
unfoldable pub only_eligible : String → List String → List SignedVc → Result (Option SignedVc)
only_eligible did requested [] = ok none
only_eligible did requested (vc ∷ []) = ok (some vc)
only_eligible did requested (vc ∷ other ∷ more) = throw (
    error vp_multiple_active_vc (
      ◌<>◌ "Multiple eligible credentials found for " (
        ◌<>◌ did (
          ◌<>◌ " to delegate "
            (◌<>◌ (join_scopes requested) " from -- pass vcId to pick one explicitly")))
      ∷ []))

-- `delegateeKey?.subjectType === 'agent'`
abbrev pub is_agent_key : Option DidKeyRecord → Bool
is_agent_key none = false
is_agent_key (some key) = key.subject_type === "agent"

abbrev pub reject_empty : {State : Type 0} → String → List SignedVc → Action State (Unit {0})
reject_empty to [] = reject (error delegatee_not_an_agent (to ∷ []))
reject_empty to (vc ∷ more) = resolve tt

module _ (services : Services) (platform : AgentPlatform) where
  -- `resolveDelegationSourceVC`
  unfoldable pub resolve_delegation_source_vc :
      String → List String → Action (CustodyState services) (Option SignedVc)
  unfolding only_eligible
  resolve_delegation_source_vc did requested = do
    candidates ← on_rest services (services.list_active_by_subject_did did "HelixAgentCredential")
    call (only_eligible did requested (select (is_eligible requested) candidates))

  -- the credential that is delegated from
  abbrev pub source_vc :
      DelegateInput → Option String → Action (CustodyState services) (Option SignedVc)
  source_vc input none = resolve_delegation_source_vc input.did input.scopes
  source_vc input (some vc_id) =
      if truthy (some vc_id)
      then on_rest services (services.find_active_by_vc_id vc_id input.did "HelixAgentCredential")
      else resolve_delegation_source_vc input.did input.scopes

  abbrev pub need_source : String → Option SignedVc → Action (CustodyState services) SignedVc
  need_source did none = reject (error agent_active_credential_not_found (did ∷ []))
  need_source did (some vc) = resolve vc

  -- whether the delegatee is an agent with an active credential
  abbrev pub check_delegatee : String → Bool → Action (CustodyState services) (Unit {0})
  check_delegatee to false = reject (error delegatee_not_an_agent (to ∷ []))
  check_delegatee to true = do
    active ← on_rest services (services.list_active_by_subject_did to "HelixAgentCredential")
    reject_empty to active

  -- the entry on the status list
  unfoldable pub delegation_status : String → ℕ → CredentialStatus
  delegation_status url i = record {
    id = ◌<>◌ url (◌<>◌ "#" (platform.index_text i));
    type = "BitstringStatusListEntry";
    status_purpose = "revocation";
    status_list_index = platform.index_text i;
    status_list_credential = url;
  }

  -- `buildDelegationVC` with the key in custody
  unfoldable pub sign_delegation :
      Stamps → DelegateInput → DidKeyRecord → SignedVc → String × ℕ → Result SignedVc
  unfolding delegation_status
  sign_delegation stamps input key from_vc entry =
      build_delegation_vc
        (record {
          to = input.to;
          scopes = input.scopes;
          from_vc = from_vc;
          credential_status = some (delegation_status entry.0 entry.1);
        })
        (record { did = input.did; create_proof = platform.prove_vc key.encrypted }) stamps

  -- `delegateAuthority`; `authorize` is `options.authorizeDelegatee`
  unfoldable pub delegate_authority :
      (String → SignedVc → Result (Unit {0}))
      → Stamps
      → DelegateInput
      → Action (CustodyState services) DelegateAuthorityResult
  unfolding sign_delegation
  delegate_authority authorize stamps input = do
    found ← on_keys services (find_key_by_did input.did)
    key ← need_key services platform input.did found
    source ← source_vc input input.vc_id
    from_vc ← need_source input.did source
    delegatee ← on_keys services (find_key_by_did input.to)
    check_delegatee input.to (is_agent_key delegatee)
    call (authorize input.to from_vc)
    entry ← on_rest services services.claim_status_list_entry
    delegated ← call (sign_delegation stamps input key from_vc entry)
    reconciled ← on_rest services (services.register_signed_vc delegated input.revoke_existing)
    log_agent services (vc_delegated input.did input.to)
    resolve (record { delegated_vc = delegated; reconciled = reconciled })
