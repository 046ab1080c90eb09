-- ===== src/ChainIntegrity.antt =====
-- core/schemas/vc.ts: `validateScopeSubset` and `validateChainIntegrity`, the structural check of a chain
-- of agent credentials that needs no signature.
mod Laws
mod Tests
use helix_core.Prelude.{ℕ, ◌+◌, String, List, [], ◌∷◌, not, ltb, ◌==◌, includes}
use helix_core.Errors.{scope_escalation_denied}
use helix_core.Result.{Result, ok, throw, throw_if, ◌>>◌}
use helix_core.Credential.{SignedVc, body, or_zero, agent_scopes}
use helix_core.Verifier.Host.{error}
use helix_core.Verifier.Chain.{is_text, is_number, invalid}
use helix_core.Verifier.Links.{last}

-- `validateScopeSubset`
unfoldable pub validate_scope_subset : List String → List String → Result (Unit {0})
validate_scope_subset parent_scopes [] = ok tt
validate_scope_subset parent_scopes (scope ∷ scopes) = do
  throw_if (not (includes parent_scopes scope)) (error scope_escalation_denied (scope ∷ []))
  validate_scope_subset parent_scopes scopes

-- the body of the loop over the pairs of neighbours
unfoldable pub validate_link : ℕ → ℕ → SignedVc → SignedVc → Result (Unit {0})
validate_link max_depth index parent child = do
  let subject = (body child).subject
  throw_if (not (is_text subject.delegated_from (body parent).subject.id))
      (invalid "delegatedFrom does not match parent subject DID")
  throw_if (not (is_text subject.parent_vc_id (body parent).id))
      (invalid "parentVcId does not match parent VC id")
  throw_if (not (is_number subject.delegation_depth index))
      (invalid "delegationDepth values are not sequential")
  throw_if (not (is_number subject.max_delegation_depth max_depth))
      (invalid "maxDelegationDepth changed inside the chain")
  validate_scope_subset (agent_scopes parent) (agent_scopes child)

-- `for (let index = 1; index < chain.length; index += 1)`
unfoldable pub validate_links : ℕ → ℕ → SignedVc → List SignedVc → Result (Unit {0})
validate_links max_depth index parent [] = ok tt
validate_links max_depth index parent (child ∷ rest) = do
  validate_link max_depth index parent child
  validate_links max_depth (index + 1) child rest

-- `validateChainIntegrity`
unfoldable pub validate_chain_integrity : List SignedVc → Result (Unit {0})
validate_chain_integrity [] = throw (invalid "chain must contain root and leaf credentials")
validate_chain_integrity (vc ∷ []) = throw (invalid "chain must contain root and leaf credentials")
validate_chain_integrity (root ∷ child ∷ rest) = do
  let max_depth = or_zero (body root).subject.max_delegation_depth
  throw_if (not (or_zero (body root).subject.delegation_depth == 0))
      (invalid "root credential depth must be 0")
  validate_links max_depth 1 root (child ∷ rest)
  throw_if (ltb max_depth (or_zero (body (last root (child ∷ rest))).subject.delegation_depth))
      (invalid "leaf delegationDepth exceeds root maxDelegationDepth")
