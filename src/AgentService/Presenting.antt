-- ===== src/AgentService/Presenting.antt =====
-- services/agent/agent.service.ts: `signVP` and `findDelegatorGrants`.
use Prim.Native.String.{◌++◌ as ◌<>◌}
use mathlib.Core.List.{reverse}
use helix_core.Prelude.{
  String, Option, none, some, List, [], ◌∷◌, ◌++◌, map, Bool, true, false, not, select, put, values,
  at_key, add_all, if◌then◌else◌,
}
use helix_core.Text.{codes, truthy, after_prefix}
use helix_core.Errors.{
  coded, agent_key_not_found, agent_active_credential_not_found, consent_grant_not_found,
}
use helix_core.Result.{Result, ok, throw}
use helix_core.Action.{Action, resolve, reject, reject_if, call, ◌>>=◌, ◌>>◌}
use helix_core.Credential.{SignedVc, SignedVp, body, delegation_chain}
use helix_core.Verifier.Host.{error}
use helix_core.VpBuilder.{Draws, new_vp_builder, sign_vp}
use helix_core.KeyStore.{DidKeyRecord, find_key_by_did}
use helix_core.AgentService.{
  Services, AgentPlatform, agent_vp_signed, CustodyState, on_rest, on_keys, log_agent,
}

-- the input of `signVP`
pub record PresentInput : Type 0 where
  pub did : String
  pub target_service : String
  pub user_did : Option String

-- what `findDelegatorGrants` returns
pub record Inherited : Type 0 where
  pub agent_credentials : List SignedVc
  pub grants : List SignedVc
  pub grant_holder_dids : List String

-- `chainDidsOf`
unfoldable pub delegator_dids_of : SignedVc → List String
delegator_dids_of vc = reverse (map (λ link. (body link).subject.id) (delegation_chain vc))

-- `agentVCs.flatMap(chainDidsOf)`
abbrev pub all_chain_dids : List SignedVc → List String
all_chain_dids [] = []
all_chain_dids (vc ∷ more) = delegator_dids_of vc ++ all_chain_dids more

-- `allowDelegation !== false`
abbrev pub not_false : Option Bool → Bool
not_false none = true
not_false (some allowed) = allowed

unfoldable pub is_delegable : SignedVc → Bool
is_delegable grant = not_false (body grant).subject.allow_delegation

-- `grantsByHolder`
abbrev pub GrantsByHolder : Type 0
GrantsByHolder = List (String × List SignedVc)

-- `if (found.length > 0) grantsByHolder.set(did, found)`
abbrev pub add_holder : String → List SignedVc → GrantsByHolder → GrantsByHolder
add_holder did [] holders = holders
add_holder did (grant ∷ more) holders = put did (grant ∷ more) holders

-- `grantsByHolder.has(did)`
abbrev pub is_present : Option (List SignedVc) → Bool
is_present none = false
is_present (some found) = true

abbrev pub is_holder : GrantsByHolder → String → Bool
is_holder holders did = is_present (at_key did holders)

abbrev pub any_holder : GrantsByHolder → List String → Bool
any_holder holders [] = false
any_holder holders (did ∷ more) = if is_holder holders did then true else any_holder holders more

-- the loops that fill `grants`
abbrev pub add_grants : List SignedVc → List (String × SignedVc) → List (String × SignedVc)
add_grants [] grants = grants
add_grants (grant ∷ more) grants = add_grants more (put (body grant).id grant grants)

abbrev pub all_grants : GrantsByHolder → List (String × SignedVc) → List (String × SignedVc)
all_grants [] grants = grants
all_grants ((did, found) ∷ more) grants = all_grants more (add_grants found grants)

abbrev pub holder_dids : GrantsByHolder → List String
holder_dids [] = []
holder_dids ((did, found) ∷ more) = did ∷ holder_dids more

-- the end of `findDelegatorGrants`
unfoldable pub inherited_from : List SignedVc → GrantsByHolder → Option Inherited
inherited_from agent_vcs [] = none
inherited_from agent_vcs (holder ∷ holders) = some (record {
  agent_credentials = select (λ vc. any_holder (holder ∷ holders) (delegator_dids_of vc)) agent_vcs;
  grants = values (all_grants (holder ∷ holders) []);
  grant_holder_dids = holder_dids (holder ∷ holders);
})

module _ (services : Services) (platform : AgentPlatform) where
  -- the loop of `findDelegatorGrants`
  unfoldable pub ask_holders :
      String → String → List String → GrantsByHolder → Action (CustodyState services) GrantsByHolder
  ask_holders service_did user_did [] holders = resolve holders
  ask_holders service_did user_did (did ∷ more) holders = do
    found ← on_rest services (services.list_active_grants did service_did user_did)
    ask_holders service_did user_did more (add_holder did (select is_delegable found) holders)

  -- `findDelegatorGrants`
  unfoldable pub find_delegator_grants :
      List SignedVc → String → String → Action (CustodyState services) (Option Inherited)
  unfolding ask_holders inherited_from
  find_delegator_grants agent_vcs service_did user_did = do
    holders ← ask_holders service_did user_did (add_all (all_chain_dids agent_vcs) []) []
    resolve (inherited_from agent_vcs holders)

  abbrev pub own_grants : List SignedVc → List SignedVc → Inherited
  own_grants agent_vcs grants = record {
    agent_credentials = agent_vcs;
    grants = grants;
    grant_holder_dids = [];
  }

  -- `if (grants.length === 0) throw …`
  abbrev pub or_no_consent :
      PresentInput → String → Option Inherited → Action (CustodyState services) Inherited
  or_no_consent input user_did none =
      reject (error consent_grant_not_found (input.did ∷ input.target_service ∷ user_did ∷ []))
  or_no_consent input user_did (some inherited) = elim inherited.grants [
    | [] ↦ reject (error consent_grant_not_found (input.did ∷ input.target_service ∷ user_did ∷ []))
    | grant ∷ more ↦ resolve inherited
  ]

  -- the consent of a user: to the agent itself, or to an agent that delegated to it
  abbrev pub or_inherited :
      PresentInput
      → String
      → List SignedVc
      → List SignedVc
      → Action (CustodyState services) Inherited
  or_inherited input user_did agent_vcs [] = do
    inherited ← find_delegator_grants agent_vcs input.target_service user_did
    or_no_consent input user_did inherited
  or_inherited input user_did agent_vcs (grant ∷ more) =
      resolve (own_grants agent_vcs (grant ∷ more))

  abbrev pub consent_of :
      PresentInput → Option String → List SignedVc → Action (CustodyState services) Inherited
  consent_of input none agent_vcs = resolve (own_grants agent_vcs [])
  consent_of input (some user_did) agent_vcs =
      if truthy (some user_did)
      then (do
        grants ←
            on_rest services (services.list_active_grants input.did input.target_service user_did)
        or_inherited input user_did agent_vcs grants)
      else resolve (own_grants agent_vcs [])

  -- `new VPBuilder(…).sign(…)` with the key in custody
  unfoldable pub build_vp : Draws → PresentInput → DidKeyRecord → List SignedVc → Result SignedVp
  build_vp draws input key credentials =
      elim (new_vp_builder (record {
        credentials = credentials;
        holder_did = input.did;
        target_service = input.target_service;
        user_did = if truthy input.user_did then input.user_did else none;
      })) [
        | throw e ↦ throw e
        | ok builder ↦
            sign_vp (platform.prove_vp key.encrypted (◌<>◌ input.did "#key-1")) builder
              (record { id = none; nonce = none; expires_at = none; proof_created_at = none }) draws
      ]

  abbrev pub need_key : String → Option DidKeyRecord → Action (CustodyState services) DidKeyRecord
  need_key did none = reject (error agent_key_not_found (did ∷ []))
  need_key did (some key) = resolve key

  abbrev pub need_credentials : String → List SignedVc → Action (CustodyState services) (Unit {0})
  need_credentials did [] = reject (error agent_active_credential_not_found (did ∷ []))
  need_credentials did (vc ∷ more) = resolve tt

  abbrev is_did : String → Bool
  is_did text = elim (after_prefix (codes "did:") (codes text)) [ none ↦ false | some rest ↦ true ]

  -- `signVP`
  unfoldable pub sign_agent_vp : Draws → PresentInput → Action (CustodyState services) SignedVp
  unfolding find_delegator_grants build_vp
  sign_agent_vp draws input = do
    reject_if (not (is_did input.target_service))
        (coded "VALIDATION_ERROR" "targetService must be the service DID" 400)
    found ← on_keys services (find_key_by_did input.did)
    key ← need_key input.did found
    agent_vcs ←
        on_rest services (services.list_active_by_subject_did input.did "HelixAgentCredential")
    need_credentials input.did agent_vcs
    consent ← consent_of input input.user_did agent_vcs
    signed ← call (build_vp draws input key (consent.agent_credentials ++ consent.grants))
    log_agent services (
        agent_vp_signed input.did (map (λ vc. (body vc).id) consent.agent_credentials)
          (map (λ vc. (body vc).id) consent.grants))
    resolve signed
