-- ===== src/AgentService/Sources.antt =====
-- The credential that `delegateAuthority` picks (services/agent/agent.service.ts) passes the tests of
-- `buildDelegationVC`.
use helix_core.Prelude.{
  ℕ, ◌+◌, ◌≡◌, refl, sym, subst, ◌∙◌, ap, String, some, List, [], ◌∷◌, ◌++◌, Bool, true, false,
  ◌&&◌, ◌===◌, leb, ltb, select, every, includes, Bool-cases, inl, inr, arith,
}
use helix_core.Result.{ok}
use helix_core.Credential.{
  Proof, VcBody, SignedVc, body, chained, of_list, agent_scopes, or_zero, delegation_chain,
}
use helix_core.Delegation.{
  DelegateOptions, Stamps, assert_scopes, assert_all_held, build_delegation_vc, delegation_body,
}
use helix_core.Delegation.Laws.{to_list-of_list}
use helix_core.KeyStore.{DidKeyRecord}
use helix_core.AgentService.{Services, AgentPlatform}
use helix_core.AgentService.Delegating.{
  DelegateInput, is_eligible, only_eligible, delegation_status, sign_delegation,
}

and_left : (a b : Bool) → (a && b) ≡ true → a ≡ true
and_left a b h = ground arith

and_right : (a b : Bool) → (a && b) ≡ true → b ≡ true
and_right a b h = ground arith

select_yes :
    (p : SignedVc → Bool) (vc : SignedVc) (more : List SignedVc)
    → p vc ≡ true
    → select p (vc ∷ more) ≡ vc ∷ select p more
select_yes p vc more e = rw (e, select) refl

select_no :
    (p : SignedVc → Bool) (vc : SignedVc) (more : List SignedVc)
    → p vc ≡ false
    → select p (vc ∷ more) ≡ select p more
select_no p vc more e = rw (e, select) refl

head_eq : {a b : SignedVc} {as' bs : List SignedVc} → a ∷ as' ≡ b ∷ bs → a ≡ b
head_eq same = cc same

-- The first credential that is left has passed the test.
pub select-eq-cons :
    (p : SignedVc → Bool) (candidates : List SignedVc) (vc : SignedVc) (more : List SignedVc)
    → select p candidates ≡ vc ∷ more
    → p vc ≡ true
select-eq-cons p [] vc more h = cc h
select-eq-cons p (candidate ∷ candidates) vc more h = elim (Bool-cases (p candidate)) [
  | inl e ↦ subst (λ c. p c ≡ true) (head_eq (sym (select_yes p candidate candidates e) ∙ h)) e
  | inr e ↦ select-eq-cons p candidates vc more (sym (select_no p candidate candidates e) ∙ h)
]

assert_all_held-every :
    (held requested : List String)
    → every (λ scope. includes held scope) requested ≡ true
    → assert_all_held held requested ≡ ok tt
unfolding assert_all_held
assert_all_held-every held [] h = refl
assert_all_held-every held (scope ∷ more) h =
    let own = and_left (includes held scope) (every (λ s. includes held s) more) h in
    let others = and_right (includes held scope) (every (λ s. includes held s) more) h in
    rw own (assert_all_held-every held more others)

-- The one candidate that may be delegated from holds the scopes and has depth left.
only_eligible-eq-ok :
    (did : String) (requested : List String) (left : List SignedVc) (vc : SignedVc)
    → only_eligible did requested left ≡ ok (some vc)
    → left ≡ vc ∷ []
unfolding only_eligible
only_eligible-eq-ok did requested [] vc h = cc h
only_eligible-eq-ok did requested (a ∷ []) vc h = cc h
only_eligible-eq-ok did requested (a ∷ b ∷ more) vc h = cc h

depth_left : (depth most : ℕ) → leb (depth + 1) most ≡ true → ltb most (depth + 1) ≡ false
depth_left depth most h = ground (arith, h)

-- A delegation to another DID, from the one credential that `resolveDelegationSourceVC` finds eligible, is
-- signed: the credential's scopes and its depth never make `buildDelegationVC` reject it, when the credential
-- has scopes and the key in custody signs.
pub only_eligible-sign_delegation :
    (services : Services) (platform : AgentPlatform) (stamps : Stamps) (input : DelegateInput)
    (key : DidKeyRecord) (candidates : List SignedVc) (vc : SignedVc) (scopes : List String)
    (entry : String × ℕ)
    (signs : (payload : VcBody) (chain : List SignedVc)
      → (proof : Proof) × (platform.prove_vc key.encrypted payload chain ≡ ok proof))
    → only_eligible input.did input.scopes (select (is_eligible input.scopes) candidates)
      ≡ ok (some vc)
    → (input.to === input.did) ≡ false
    → (body vc).subject.privilege_scopes ≡ some scopes
    → (delegated : SignedVc) × (sign_delegation services platform stamps input key vc entry
        ≡ ok delegated)
      × (delegation_chain delegated ≡ delegation_chain vc ++ vc ∷ [])
      × ((body delegated).subject.privilege_scopes ≡ some input.scopes)
unfolding sign_delegation build_delegation_vc is_eligible assert_scopes
only_eligible-sign_delegation services platform stamps input key candidates vc scopes entry signs
      picked apart has_scopes =
    let left =
      only_eligible-eq-ok input.did input.scopes (select (is_eligible input.scopes) candidates) vc
        picked in
    let eligible = select-eq-cons (is_eligible input.scopes) candidates vc [] left in
    let held = assert_all_held-every (agent_scopes vc) input.scopes (and_left _ _ eligible) in
    let options : DelegateOptions = record {
      to = input.to;
      scopes = input.scopes;
      from_vc = vc;
      credential_status = some (delegation_status services platform entry.0 entry.1);
    } in
    let payload = delegation_body options input.did stamps in
    let chain = delegation_chain vc ++ vc ∷ [] in
    let (proof, proved) = signs payload chain in
    let assigned : assert_scopes (body vc).subject.privilege_scopes ≡ ok tt =
      ap assert_scopes has_scopes in
    let deep =
      depth_left (or_zero (body vc).subject.delegation_depth)
        (or_zero (body vc).subject.max_delegation_depth) (and_right _ _ eligible) in
    (
      chained (record payload { proof = some proof }) (of_list chain),
      rw apart (rw assigned (rw held (rw deep (rw proved refl)))),
      to_list-of_list chain,
      refl,
    )
