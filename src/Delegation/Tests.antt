-- ===== src/Delegation/Tests.antt =====
-- An agent passes on one of its two scopes.
use helix_core.Prelude.{◌≡◌, refl, none, some, [], ◌∷◌, ◌++◌, includes, ◌===◌}
use helix_core.Result.{ok}
use helix_core.Credential.{SignedVc, chained, delegation_chain, of_list, agent_scopes}
use helix_core.Delegation.{
  DelegateOptions, Stamps, Wallet, delegation_body, assert_scopes, assert_all_held,
  build_delegation_vc,
}
use helix_core.Delegation.Laws.{build_delegation_vc-check_chain}
use helix_core.Verifier.Chain.{check_chain, check_links}
use helix_core.Verifier.Fixture.{proof, root}
use helix_core.Verifier.Links.{IsNarrower}

abbrev options : DelegateOptions
options = record {
  to = "did:child";
  scopes = "read" ∷ [];
  from_vc = root;
  credential_status = none;
}

abbrev wallet : Wallet
wallet = record { did = "did:parent"; create_proof = λ payload chain. ok proof }

abbrev stamps : Stamps
stamps = record { id = "urn:new"; now = "past"; expires_at = "future" }

abbrev built : SignedVc
built =
    chained (record (delegation_body options "did:parent" stamps) { proof = some proof })
      (of_list (root ∷ []))

build_run : build_delegation_vc options wallet stamps ≡ ok built
unfolding build_delegation_vc assert_scopes assert_all_held includes ◌===◌
build_run = refl

root_run : check_chain (root ∷ []) ≡ ok tt
unfolding check_chain check_links ◌===◌
root_run = refl

build_delegation_vc-check_chain_example :
    (check_chain (delegation_chain built ++ built ∷ []) ≡ ok tt)
    × (agent_scopes built ≡ "read" ∷ [])
    × IsNarrower (agent_scopes built) ("read" ∷ "write" ∷ [])
build_delegation_vc-check_chain_example =
    build_delegation_vc-check_chain options wallet stamps built root [] refl root_run refl build_run
