-- ===== src/Verifier/Delegated.antt =====
-- `verifyDelegationChain` of core/vp-verifier.ts: what an accepted delegated credential has behind it.
use helix_core.Prelude.{
  ℕ, suc, ◌≤◌, ◌≡◌, ◌≢◌, refl, sym, ◌∙◌, String, List, [], ◌∷◌, ◌++◌, map, true, false, not, ltb,
  ◌==◌, ◌===◌, ===_refl, arith, Has, length, All, length-append, subst, ==→eq,
}
use helix_core.Result.{ok-injective, Result, ok, throw_if, ◌>>◌, >>-eq-ok, guard-eq-ok}
use helix_core.Text.{truthy}
use helix_core.Credential.{SignedVc, body, delegation_chain, DelegationLink, or_zero, agent_scopes}
use helix_core.Verifier.Host.{Host, VerifyVpOptions}
use helix_core.Verifier.Trust.{IsTrusted, verify_credential-IsTrusted}
use helix_core.Verifier.Chain.{
  to_delegation_link, invalid, check_chain, verify_each, verify_delegation_chain,
}
use helix_core.Verifier.Links.{
  Linked, check_links-Linked, last, last_snoc, IsNamed, Linked-narrow, Linked-depth, not-eq-false,
}

module _ (host : Host) (options : VerifyVpOptions) where
  verify_each-IsTrusted :
      (chain : List SignedVc)
      → verify_each host options chain ≡ ok tt
      → All (IsTrusted host options) chain
  unfolding verify_each
  verify_each-IsTrusted [] h = tt
  verify_each-IsTrusted (vc ∷ rest) h =
      let (warning, verified, h1) = >>-eq-ok _ _ h in
      let (_, _, h2) = >>-eq-ok _ _ h1 in
      (verify_credential-IsTrusted host options vc warning verified, verify_each-IsTrusted rest h2)

  -- What stands behind a delegated credential: a chain from a root that somebody else signed, each
  -- credential trusted on its own, each linked to the one above it, within the root's depth.
  pub record IsDelegated (leaf : SignedVc) : Type 0 where
    pub root : SignedVc
    pub rest : List SignedVc
    pub chain : delegation_chain leaf ++ leaf ∷ [] ≡ root ∷ rest
    pub ends : last root rest ≡ leaf
    pub trusted : All (IsTrusted host options) (root ∷ rest)
    pub foreign : (body root).issuer ≢ (body root).subject.id
    pub root_depth : or_zero (body root).subject.delegation_depth ≡ 0
    pub linked : Linked (or_zero (body root).subject.max_delegation_depth) 1 root rest
    pub depth : or_zero (body leaf).subject.delegation_depth ≡ length rest
    pub bounded : length rest ≤ or_zero (body root).subject.max_delegation_depth

  record IsRooted (root : SignedVc) (rest : List SignedVc) : Type 0 where
    foreign : (body root).issuer ≢ (body root).subject.id
    root_depth : or_zero (body root).subject.delegation_depth ≡ 0
    linked : Linked (or_zero (body root).subject.max_delegation_depth) 1 root rest

  check_chain-IsRooted :
      (root : SignedVc) (rest : List SignedVc)
      → check_chain (root ∷ rest) ≡ ok tt
      → IsRooted root rest
  unfolding check_chain
  check_chain-IsRooted root rest h =
      let depth = or_zero (body root).subject.delegation_depth in
      let (a, h1) = guard-eq-ok _ _ _ h in
      let (b, h2) = guard-eq-ok (not (depth == 0)) _ _ h1 in
      record {
        foreign = λ e. absurd (differ e a);
        root_depth = ==→eq depth 0 (not-eq-false (depth == 0) b);
        linked = check_links-Linked _ 1 root rest h2;
      }
    where
      differ : {s t : String} → s ≡ t → (s === t) ≡ false → ⊥
      differ {s} {t} e f = cc (===_refl s, e)

  chain_cases :
      (xs : List SignedVc) (leaf : SignedVc)
      → (root : SignedVc) × (rest : List SignedVc) × (xs ++ leaf ∷ [] ≡ root ∷ rest)
        × (last root rest ≡ leaf)
        × (length rest ≡ length xs)
  chain_cases [] leaf = (leaf, [], refl, refl, refl)
  chain_cases (x ∷ xs) leaf =
      (x, xs ++ leaf ∷ [], refl, last_snoc x xs leaf, length-append xs (leaf ∷ []) ∙ omega arith)

  chain_depth :
      (root : SignedVc) (rest : List SignedVc)
      → 1 ≤ length rest
      → IsRooted root rest
      → (or_zero (body (last root rest)).subject.delegation_depth ≡ length rest)
        × (length rest ≤ or_zero (body root).subject.max_delegation_depth)
  chain_depth root [] p r = absurd (omega arith)
  chain_depth root (child ∷ rest) p r =
      let (l, ls) = r.linked in
      let (d, b) = Linked-depth _ 2 child rest l.delegation_depth refl l.within ls in
      (d ∙ omega arith, omega arith)

  -- the branch of `verifyDelegationChain` for a delegated leaf
  abbrev walked : List SignedVc → Result (List DelegationLink)
  walked chain = do
    throw_if (ltb (length chain) 2) (invalid "delegated credential is missing its parent chain")
    verify_each host options chain
    check_chain chain
    ok (map to_delegation_link chain)

  verify_delegation_chain-walked :
      (leaf : SignedVc)
      → truthy (body leaf).subject.delegated_from ≡ true
      → verify_delegation_chain host options leaf ≡ walked (delegation_chain leaf ++ leaf ∷ [])
  unfolding verify_delegation_chain
  verify_delegation_chain-walked leaf named = rw (named, verify_delegation_chain)

  walked-eq-ok :
      (chain : List SignedVc) (links : List DelegationLink)
      → walked chain ≡ ok links
      → (ltb (length chain) 2 ≡ false)
        × (verify_each host options chain ≡ ok tt)
        × (check_chain chain ≡ ok tt)
        × (links ≡ map to_delegation_link chain)
  walked-eq-ok chain links h =
      let (long, h1) = guard-eq-ok _ _ _ h in
      let (_, each, h2) = >>-eq-ok _ _ h1 in
      let (_, checked, h3) = >>-eq-ok _ _ h2 in (long, each, checked, sym (ok-injective h3))

  -- An accepted credential that names a delegator has a verified chain behind it, and the result lists
  -- the links of that chain from the root down.
  pub verify_delegation_chain_sound :
      (leaf : SignedVc) (links : List DelegationLink)
      → truthy (body leaf).subject.delegated_from ≡ true
      → verify_delegation_chain host options leaf ≡ ok links
      → IsDelegated leaf × (links ≡ map to_delegation_link (delegation_chain leaf ++ leaf ∷ []))
  verify_delegation_chain_sound leaf links named h =
      let (long, each, checked, result) =
        walked-eq-ok (delegation_chain leaf ++ leaf ∷ []) links
          (sym (verify_delegation_chain-walked leaf named) ∙ h) in
      let (root, rest, split, ends, count) = chain_cases (delegation_chain leaf) leaf in
      let rooted =
        check_chain-IsRooted root rest (subst (λ c. check_chain c ≡ ok tt) split checked) in
      let enough : 1 ≤ length rest =
        long_enough (length rest) (subst (λ c. ltb (length c) 2 ≡ false) split long) in
      let (depth, bounded) = chain_depth root rest enough rooted in
      (
        record {
          root = root;
          rest = rest;
          chain = split;
          ends = ends;
          trusted =
              verify_each-IsTrusted (root ∷ rest)
                (subst (λ c. verify_each host options c ≡ ok tt) split each);
          foreign = rooted.foreign;
          root_depth = rooted.root_depth;
          linked = rooted.linked;
          depth = subst (λ vc. or_zero (body vc).subject.delegation_depth ≡ length rest) ends depth;
          bounded = bounded;
        },
        result,
      )
    where
      long_enough : (n : ℕ) → ltb (suc n) 2 ≡ false → 1 ≤ n
      long_enough n e = ground arith

  -- Authority only shrinks: where no credential of the chain lists an empty scope, a scope of an
  -- accepted delegated credential is held by every credential of its chain, the root included.
  pub delegation_narrows :
      (leaf : SignedVc) (links : List DelegationLink) (scope : String)
      → truthy (body leaf).subject.delegated_from ≡ true
      → verify_delegation_chain host options leaf ≡ ok links
      → All IsNamed (delegation_chain leaf ++ leaf ∷ [])
      → Has (agent_scopes leaf) scope
      → All (λ vc. Has (agent_scopes vc) scope) (delegation_chain leaf ++ leaf ∷ [])
  delegation_narrows leaf links scope named h scopes m =
      let d = (verify_delegation_chain_sound leaf links named h).0 in
      subst (All (λ vc. Has (agent_scopes vc) scope)) (sym d.chain) (
        Linked-narrow _ 1 d.root d.rest scope d.linked (subst (All IsNamed) d.chain scopes).1
          (subst (λ vc. Has (agent_scopes vc) scope) (sym d.ends) m))
