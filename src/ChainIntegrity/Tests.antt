-- ===== src/ChainIntegrity/Tests.antt =====
-- The chain of the fixture.
use helix_core.Prelude.{◌≡◌, refl, [], ◌∷◌, includes, ◌===◌, All}
use helix_core.Result.{ok}
use helix_core.ChainIntegrity.{validate_chain_integrity}
use helix_core.ChainIntegrity.Laws.{check_chain-validate_chain_integrity}
use helix_core.Verifier.Chain.{check_chain, check_links, check_link, assert_subset}
use helix_core.Verifier.Fixture.{root, leaf}
use helix_core.Verifier.Links.{IsNamed}

leaf-IsNamed : All IsNamed (leaf ∷ [])
unfolding includes ◌===◌
leaf-IsNamed = (refl, tt)

pair_run : check_chain (root ∷ leaf ∷ []) ≡ ok tt
unfolding check_chain check_links check_link assert_subset includes ◌===◌
pair_run = refl

check_chain-validate_chain_integrity_example : validate_chain_integrity (root ∷ leaf ∷ []) ≡ ok tt
check_chain-validate_chain_integrity_example =
    check_chain-validate_chain_integrity root leaf [] leaf-IsNamed pair_run
