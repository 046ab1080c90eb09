-- ===== src/Verifier/Vp.antt =====
-- core/vp-verifier.ts: `verifyVP`. Each loop carries its mutable variables in a record.
use helix_core.Prelude.{
  ℕ, ◌+◌, String, Option, none, some, List, [], ◌∷◌, ◌++◌, map, Bool, true, false, not, ◌&&◌, ◌||◌,
  ltb, ◌==◌, ◌===◌, if◌then◌else◌, includes, add, add_all, select, length,
}
use mathlib.Core.List.{flat_map}
use helix_core.Errors.{
  Thrown, undefined, vp_expired, vp_invalid_structure, vp_signature_invalid, consent_grant_required,
  consent_grant_subject_mismatch, consent_grant_wrong_service, consent_grant_not_delegable,
}
use helix_core.Result.{Result, ok, throw, throw_if, ◌>>=◌, ◌>>◌}
use helix_core.Text.{truthy}
use helix_core.Credential.{SignedVc, body, SignedVp, DelegationLink, agent_scopes}
use helix_core.Proof.{verify_ed25519_proof}
use helix_core.Verifier.Host.{Host, VerifyVpOptions, error, is_dropped}
use helix_core.Verifier.Vc.{
  is_agent_authority_type, is_grant_type, assert_agent_vc, assert_grant_vc, at_or_before,
  verify_credential,
}
use helix_core.Verifier.Chain.{verify_delegation_chain, is_text}

-- `VerifyVPResult`; `valid` is always true
pub record VerifyVpResult : Type 0 where
  pub agent_did : String
  pub privilege_scopes : List String
  pub effective_scopes : List String
  pub vp_id : String
  pub delegation_chain : List DelegationLink
  pub warning : Option String

-- an entry of `validAgentAuthorities`
pub record Authority : Type 0 where
  pub scopes : List String
  pub chain_subjects : List String

-- the variables of the loop over the agent credentials
pub record AgentState : Type 0 where
  pub privilege_scope_set : List String
  pub valid_agent_authorities : List Authority
  pub delegation_chain : List DelegationLink
  pub seen_links : List String
  pub warning : Option String
  pub valid_agent_vcs : ℕ
  pub last_dropped : Option Thrown

abbrev pub agent_start : AgentState
agent_start = record {
  privilege_scope_set = [];
  valid_agent_authorities = [];
  delegation_chain = [];
  seen_links = [];
  warning = none;
  valid_agent_vcs = 0;
  last_dropped = none;
}

-- the variables of the loop over the grants
pub record GrantState : Type 0 where
  pub allowed : List String
  pub valid : ℕ
  pub last_dropped : Option Thrown

abbrev pub grant_start : GrantState
grant_start = record { allowed = []; valid = 0; last_dropped = none }

-- `throw lastDropped`
unfoldable pub throw_last {ℓ} : {A : Type ℓ} → Option Thrown → Result A
throw_last none = throw undefined
throw_last (some e) = throw e

-- `vc.targetService && vc.targetService !== vp.targetService`
unfoldable pub wrong_service : Option String → String → Bool
wrong_service none service = false
wrong_service (some s) service = truthy (some s) && not (s === service)

-- `for (const link of chain)`
unfoldable pub add_links :
    List DelegationLink → List DelegationLink → List String → List DelegationLink × List String
unfolding add
add_links [] chain seen = (chain, seen)
add_links (link ∷ links) chain seen =
    add_links links (if includes seen link.vc_id then chain else chain ++ link ∷ [])
      (add link.vc_id seen)

-- `intersect`
unfoldable pub intersect : List String → List String → List String
intersect left right = select (λ scope. includes right scope) left

-- `value ?? …` for the warning
abbrev or_warning : Option String → Option String → Option String
or_warning none old = old
or_warning (some w) old = some w

-- `subject.allowDelegation === false`
unfoldable pub is_false : Option Bool → Bool
is_false none = false
is_false (some b) = not b

-- `subject.scopes` of a grant whose schema has been checked
abbrev pub grant_scopes : SignedVc → List String
grant_scopes vc = scopes_of (body vc).subject.scopes
  where
    scopes_of : Option (List String) → List String
    scopes_of none = []
    scopes_of (some scopes) = scopes

-- `grant.credentialSubject.userDid === vp.delegatedBy`
unfoldable pub same_user : Option String → Option String → Bool
same_user none delegated_by = false
same_user (some u) delegated_by = is_text delegated_by u

unfoldable pub is_present {ℓ} : {A : Type ℓ} → Option A → Bool
is_present none = false
is_present (some a) = true

-- the tests at the head of the loop over the agent credentials
unfoldable pub check_agent : SignedVp → SignedVc → Result (Unit {0})
check_agent vp vc = do
  throw_if (not (is_present (body vc).proof))
      (error vp_invalid_structure ("VP does not contain a signed VC" ∷ []))
  assert_agent_vc vc
  throw_if (not ((body vc).subject.id === vp.holder))
      (error vp_invalid_structure ("agent credential subject does not match VP holder" ∷ []))
  throw_if (wrong_service (body vc).target_service vp.target_service)
      (error vp_invalid_structure ("VC targetService does not match VP targetService" ∷ []))

module _ (host : Host) (options : VerifyVpOptions) where
  -- the `try` block of the loop over the agent credentials: the chain, and the warning
  unfoldable pub verify_agent_credential : SignedVc → Result (List DelegationLink × Option String)
  verify_agent_credential vc = do
    self_signed_warning ←
        (if truthy (body vc).subject.delegated_from
          then ok none
          else verify_credential host vc options)
    chain ← verify_delegation_chain host options vc
    ok (chain, self_signed_warning)

  -- what follows the `try` block
  unfoldable pub accept_agent :
      SignedVc → List DelegationLink × Option String → AgentState → AgentState
  accept_agent vc (chain, self_signed_warning) s =
      let (links, seen) = add_links chain s.delegation_chain s.seen_links in
      record {
        privilege_scope_set = add_all (agent_scopes vc) s.privilege_scope_set;
        valid_agent_authorities =
            s.valid_agent_authorities
            ++ record {
              scopes = agent_scopes vc;
              chain_subjects = map (λ (link : DelegationLink). link.subject) chain;
            }
              ∷ [];
        delegation_chain = links;
        seen_links = seen;
        warning = or_warning self_signed_warning s.warning;
        valid_agent_vcs = s.valid_agent_vcs + 1;
        last_dropped = s.last_dropped;
      }

  -- the `catch` block
  unfoldable pub settle_agent :
      SignedVc → Result (List DelegationLink × Option String) → AgentState → Result AgentState
  settle_agent vc (ok verified) s = ok (accept_agent vc verified s)
  settle_agent vc (throw e) s =
      if is_dropped e then ok (record s { last_dropped = some e }) else throw e

  -- the body of the loop over the agent credentials
  unfoldable pub agent_step : SignedVp → SignedVc → AgentState → Result AgentState
  agent_step vp vc s = do check_agent vp vc; settle_agent vc (verify_agent_credential vc) s

  unfoldable pub agent_loop : SignedVp → List SignedVc → AgentState → Result AgentState
  agent_loop vp [] s = ok s
  agent_loop vp (vc ∷ rest) s = do agent_loop vp rest (← agent_step vp vc s)

  -- the scopes that a grant is weighed against
  unfoldable pub covered_authority : SignedVp → AgentState → SignedVc → List String
  covered_authority vp s grant =
      let subject = (body grant).subject.id in
      if subject === vp.holder
      then s.privilege_scope_set
      else flat_map (λ (entry : Authority). entry.scopes)
          (select (λ (entry : Authority). includes entry.chain_subjects subject)
            s.valid_agent_authorities)

  -- the `try` block of the loop over the grants, and what follows it
  unfoldable pub settle_grant :
      SignedVp → AgentState → SignedVc → Result (Option String) → GrantState → Result GrantState
  settle_grant vp s grant (ok ignored) g = ok (record {
    allowed = add_all (intersect (grant_scopes grant) (covered_authority vp s grant)) g.allowed;
    valid = g.valid + 1;
    last_dropped = g.last_dropped;
  })
  settle_grant vp s grant (throw e) g =
      if is_dropped e then ok (record g { last_dropped = some e }) else throw e

  -- the tests at the head of the loop over the grants
  unfoldable pub check_grant : SignedVp → List String → SignedVc → Result (Unit {0})
  unfolding is_false
  check_grant vp chain_dids grant = do
    assert_grant_vc host grant
    let subject = (body grant).subject
    let direct = subject.id === vp.holder
    throw_if
        (not (
          (direct || includes chain_dids subject.id) && same_user subject.user_did vp.delegated_by))
        (error consent_grant_subject_mismatch [])
    throw_if (not ((body grant).issuer === vp.target_service))
        (error consent_grant_wrong_service ((body grant).issuer ∷ vp.target_service ∷ []))
    throw_if (not direct && is_false subject.allow_delegation)
        (error consent_grant_not_delegable [])

  unfoldable pub grant_step : SignedVp → AgentState → SignedVc → GrantState → Result GrantState
  grant_step vp s grant g = do
    check_grant vp (map (λ (link : DelegationLink). link.subject) s.delegation_chain) grant
    settle_grant vp s grant (verify_credential host grant options) g

  unfoldable pub grant_loop : SignedVp → AgentState → List SignedVc → GrantState → Result GrantState
  grant_loop vp s [] g = ok g
  grant_loop vp s (grant ∷ rest) g = do grant_loop vp s rest (← grant_step vp s grant g)

  -- the effective scopes: all of them without a grant, else those that a grant allows
  unfoldable pub effective : SignedVp → AgentState → List SignedVc → Result (List String)
  effective vp s [] = ok s.privilege_scope_set
  effective vp s (grant ∷ grants) = do
    g ← grant_loop vp s (grant ∷ grants) grant_start
    if g.valid == 0
        then throw_last g.last_dropped
        else ok (select (λ scope. includes g.allowed scope) s.privilege_scope_set)

  -- the tests that precede the loops: the VP's own expiry, service and signature
  unfoldable pub check_envelope : SignedVp → Result (Unit {0})
  unfolding at_or_before
  check_envelope vp = do
    throw_if (at_or_before (host.date_ms vp.expiration_date) host.now) (error vp_expired [])
    throw_if
        (truthy options.expected_target_service
          && not (is_text options.expected_target_service vp.target_service))
        (error vp_invalid_structure
          ("VP targetService does not match expected target service" ∷ []))
    document ← host.resolve_did vp.holder
    valid ← verify_ed25519_proof host.ed25519_verify (host.hash_vp vp) vp.proof document
    throw_if (not valid) (error vp_signature_invalid [])

  -- the tests of the credential array
  unfoldable pub check_entries : SignedVp → Result (Unit {0})
  check_entries vp = do
    let entries = vp.verifiable_credential
    let agents = length (select is_agent_authority_type entries)
    let grants = length (select is_grant_type entries)
    throw_if (ltb (length entries) 1)
        (error vp_invalid_structure ("VP must carry at least one credential" ∷ []))
    throw_if (ltb agents 1 || not (agents + grants == length entries)) (
        error vp_invalid_structure (
          "VP credential array must contain at least one agent-authority credential, and otherwise only consent grants"
          ∷ []))
    throw_if (truthy vp.delegated_by && grants == 0)
        (error consent_grant_required (user_name vp.delegated_by ∷ []))
    where
      user_name : Option String → String
      user_name none = "undefined"
      user_name (some u) = u

  -- the tests, then the two loops
  unfoldable pub verify_vp : SignedVp → Result VerifyVpResult
  verify_vp vp = do
    check_envelope vp
    check_entries vp
    s ← agent_loop vp (select is_agent_authority_type vp.verifiable_credential) agent_start
    (if s.valid_agent_vcs == 0 then throw_last s.last_dropped else ok tt)
    scopes ← effective vp s (select is_grant_type vp.verifiable_credential)
    ok (record {
      agent_did = vp.holder;
      privilege_scopes = s.privilege_scope_set;
      effective_scopes = scopes;
      vp_id = vp.id;
      delegation_chain = s.delegation_chain;
      warning = s.warning;
    })
