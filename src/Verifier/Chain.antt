-- ===== src/Verifier/Chain.antt =====
-- core/vp-verifier.ts: `assertSubset`, `toDelegationLink` and `verifyDelegationChain`.
use Prim.Native.String.{◌++◌ as ◌<>◌}
use helix_core.Prelude.{
  ℕ, ◌+◌, String, Option, none, some, List, [], ◌∷◌, ◌++◌, map, Bool, true, false, not, ltb, ◌==◌,
  ◌===◌, includes, find, length,
}
use helix_core.Errors.{Thrown, plain, delegation_chain_invalid}
use helix_core.Result.{Result, ok, throw, throw_if, ◌>>◌}
use helix_core.Text.{truthy}
use helix_core.Credential.{SignedVc, body, delegation_chain, DelegationLink, or_zero, agent_scopes}
use helix_core.Verifier.Host.{Host, VerifyVpOptions, error}
use helix_core.Verifier.Vc.{assert_agent_vc, verify_credential}

-- the exception when `find` has returned a scope; an empty one is falsy
pub denied_scope : Option String → Result (Unit {0})
denied_scope none = ok tt
denied_scope (some denied) =
    throw_if (truthy (some denied))
      (error delegation_chain_invalid (◌<>◌ "scope escalation: " denied ∷ []))

-- `assertSubset`
unfoldable pub assert_subset : List String → List String → Result (Unit {0})
unfolding denied_scope
assert_subset parent_scopes child_scopes =
    denied_scope (find (λ scope. not (includes parent_scopes scope)) child_scopes)

-- `toDelegationLink`
unfoldable pub to_delegation_link : SignedVc → DelegationLink
to_delegation_link vc = record {
  issuer = (body vc).issuer;
  subject = (body vc).subject.id;
  vc_id = (body vc).id;
  scopes = agent_scopes vc;
  delegation_depth = or_zero (body vc).subject.delegation_depth;
}

-- `value === text` and `value === number` for a value that may be undefined
abbrev pub is_text : Option String → String → Bool
is_text none t = false
is_text (some s) t = s === t

abbrev pub is_number : Option ℕ → ℕ → Bool
is_number none n = false
is_number (some m) n = m == n

abbrev pub invalid : String → Thrown
invalid reason = error delegation_chain_invalid (reason ∷ [])

-- the body of the loop over the pairs of neighbours
unfoldable pub check_link : ℕ → ℕ → SignedVc → SignedVc → Result (Unit {0})
check_link max_depth index parent child = do
  let p = body parent
  let c = body child
  throw_if (not (c.issuer === p.subject.id))
      (invalid "child issuer does not match parent subject DID")
  throw_if (not (is_text c.subject.delegated_from p.subject.id))
      (invalid "delegatedFrom does not match parent subject DID")
  throw_if (not (is_text c.subject.parent_vc_id p.id))
      (invalid "parentVcId does not match parent VC id")
  throw_if (not (is_number c.subject.delegation_depth index))
      (invalid "delegationDepth values are not sequential")
  throw_if (not (is_number c.subject.max_delegation_depth max_depth))
      (invalid "maxDelegationDepth changed inside the chain")
  throw_if (ltb max_depth (or_zero c.subject.delegation_depth))
      (invalid "leaf delegationDepth exceeds root maxDelegationDepth")
  assert_subset (agent_scopes parent) (agent_scopes child)

-- `for (let index = 1; index < chain.length; index += 1)`
unfoldable pub check_links : ℕ → ℕ → SignedVc → List SignedVc → Result (Unit {0})
check_links max_depth index parent [] = ok tt
check_links max_depth index parent (child ∷ rest) = do
  check_link max_depth index parent child
  check_links max_depth (index + 1) child rest

-- the tests of `chain[0]`, and the loop
unfoldable pub check_chain : List SignedVc → Result (Unit {0})
check_chain [] = throw (plain "Cannot read properties of undefined")
check_chain (root ∷ rest) = do
  let subject = (body root).subject
  throw_if ((body root).issuer === subject.id)
      (invalid "delegation root must be signed by a trusted issuer DID")
  throw_if (not (or_zero subject.delegation_depth == 0)) (invalid "root credential depth must be 0")
  check_links (or_zero subject.max_delegation_depth) 1 root rest

module _ (host : Host) (options : VerifyVpOptions) where
  -- `for (const vc of chain)`
  unfoldable pub verify_each : List SignedVc → Result (Unit {0})
  verify_each [] = ok tt
  verify_each (vc ∷ rest) = do
    verify_credential host vc options
    assert_agent_vc vc
    verify_each rest

  -- `verifyDelegationChain`
  unfoldable pub verify_delegation_chain : SignedVc → Result (List DelegationLink)
  verify_delegation_chain leaf = elim (truthy (body leaf).subject.delegated_from) [
    | false ↦ ok (to_delegation_link leaf ∷ [])
    | true ↦ do
      let chain = delegation_chain leaf ++ leaf ∷ []
      throw_if (ltb (length chain) 2) (invalid "delegated credential is missing its parent chain")
      verify_each chain
      check_chain chain
      ok (map to_delegation_link chain)
  ]
