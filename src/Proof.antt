-- ===== src/Proof.antt =====
-- core/proof.ts: `verifyEd25519Proof`. The hash of the canonical payload is handed in; `@noble/ed25519`
-- is a parameter. Signatures and keys are lists of bytes, of which the source passes the hexadecimal
-- form.
use helix_core.Prelude.{ℕ, Option, none, some, List, Bool, true, false, if◌then◌else◌}
use helix_core.Text.{codes, after_z}
use helix_core.Errors.{plain}
use helix_core.Result.{Result, ok, throw, ◌>>=◌}
use helix_core.Base58
use helix_core.Credential.{Proof}
use helix_core.DidDocument.{DidDocument, extract_public_key}

module _ (ed25519_verify : List ℕ → List ℕ → List ℕ → Result Bool) where
  -- the inner function `verifyProofValue`
  pub verify_proof_value : List ℕ → DidDocument → List ℕ → Result Bool
  verify_proof_value hash document proof_value = do
    signature ← Base58.decode proof_value
    key ← extract_public_key document
    ed25519_verify signature hash key

  -- the retry for a value with the multibase prefix `z`
  pub retry : List ℕ → DidDocument → Option (List ℕ) → Result Bool
  unfolding verify_proof_value
  retry hash document none = ok false
  retry hash document (some rest) = elim (verify_proof_value hash document rest) [
    | ok valid ↦ ok valid
    | throw e ↦ ok false
  ]

  -- `verifyEd25519Proof`; reading `proofValue` of a proof that is absent throws
  unfoldable pub verify_ed25519_proof : List ℕ → Option Proof → DidDocument → Result Bool
  unfolding retry
  verify_ed25519_proof hash none document = throw (plain "Cannot read properties of undefined")
  verify_ed25519_proof hash (some proof) document =
      elim (verify_proof_value hash document (codes proof.proof_value)) [
        | ok valid ↦
            if valid then ok true else retry hash document (after_z (codes proof.proof_value))
        | throw e ↦ retry hash document (after_z (codes proof.proof_value))
      ]
