-- ===== src/ChainIntegrity/Laws.antt =====
-- The verifier (core/vp-verifier.ts) is at least as strict as the structural check of a chain
-- (core/schemas/vc.ts), where no scope is empty.
use helix_core.Prelude.{
  ℕ, ◌+◌, ◌≤◌, ◌≡◌, refl, String, List, [], ◌∷◌, false, not, ltb, ◌==◌, ◌===◌, ===_refl, ==_refl,
  Has-head, Has-tail, All, arith,
}
use helix_core.Result.{ok, guard-eq-ok}
use helix_core.Credential.{SignedVc, body, or_zero, agent_scopes}
use helix_core.ChainIntegrity.{
  validate_scope_subset, validate_link, validate_links, validate_chain_integrity,
}
use helix_core.Verifier.Chain.{check_chain}
use helix_core.Verifier.Links.{
  IsNarrower, assert_subset-IsNarrower, IsLink, Linked, check_links-Linked, last, IsNamed,
  Linked-depth,
}

IsNarrower-validate_scope_subset :
    (parent child : List String)
    → IsNarrower child parent
    → validate_scope_subset parent child ≡ ok tt
unfolding validate_scope_subset
IsNarrower-validate_scope_subset parent [] h = refl
IsNarrower-validate_scope_subset parent (scope ∷ scopes) h =
    rw (h scope (Has-head scope scopes))
      (IsNarrower-validate_scope_subset parent scopes (λ s m. h s (Has-tail scope scopes s m)))

IsLink-validate_link :
    (max_depth index : ℕ) (parent child : SignedVc)
    → IsLink max_depth index parent child
    → IsNamed child
    → validate_link max_depth index parent child ≡ ok tt
unfolding validate_link
IsLink-validate_link max_depth index parent child l named =
    rw
      (
        l.delegated_from,
        l.parent_vc_id,
        l.delegation_depth,
        l.max_delegation_depth,
        ===_refl (body parent).subject.id,
        ===_refl (body parent).id,
        ==_refl index,
        ==_refl max_depth,
      )
      (IsNarrower-validate_scope_subset (agent_scopes parent) (agent_scopes child)
        (assert_subset-IsNarrower (agent_scopes parent) (agent_scopes child) named l.subset))

Linked-validate_links :
    (max_depth index : ℕ) (parent : SignedVc) (rest : List SignedVc)
    → Linked max_depth index parent rest
    → All IsNamed rest
    → validate_links max_depth index parent rest ≡ ok tt
unfolding validate_links
Linked-validate_links max_depth index parent [] l n = refl
Linked-validate_links max_depth index parent (child ∷ rest) (l, ls) (n, ns) =
    rw (IsLink-validate_link max_depth index parent child l n)
      (Linked-validate_links max_depth (index + 1) child rest ls ns)

within_bound : (m n : ℕ) → n ≤ m → ltb m n ≡ false
within_bound m n h = ground arith

-- A chain of two credentials or more that passes the verifier's chain checks, and in which no credential
-- below the root names an empty scope, passes the structural check as well.
pub check_chain-validate_chain_integrity :
    (root child : SignedVc) (rest : List SignedVc)
    → All IsNamed (child ∷ rest)
    → check_chain (root ∷ child ∷ rest) ≡ ok tt
    → validate_chain_integrity (root ∷ child ∷ rest) ≡ ok tt
unfolding check_chain validate_chain_integrity
check_chain-validate_chain_integrity root child rest named h =
    let depth = or_zero (body root).subject.delegation_depth in
    let m = or_zero (body root).subject.max_delegation_depth in
    let (_, h1) = guard-eq-ok ((body root).issuer === (body root).subject.id) _ _ h in
    let (b, h2) = guard-eq-ok (not (depth == 0)) _ _ h1 in
    let linked = check_links-Linked m 1 root (child ∷ rest) h2 in
    let (l, ls) = linked in
    let (d, bounded) = Linked-depth m 2 child rest l.delegation_depth refl l.within ls in
    rw
      (
        b,
        Linked-validate_links m 1 root (child ∷ rest) linked named,
        within_bound m (or_zero (body (last child rest)).subject.delegation_depth)
            (omega (arith, d, bounded)),
      )
      refl
