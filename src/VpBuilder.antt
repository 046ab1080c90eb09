-- ===== src/VpBuilder.antt =====
-- core/vp-builder.ts: `VPBuilder`, by which an agent puts its credentials and grants into a presentation.
mod Laws
mod Tests
use helix_core.Prelude.{
  ℕ, ◌+◌, ◌*◌, String, Option, none, some, List, [], ◌∷◌, not, ◌||◌, ltb, ◌==◌, select, length,
}
use helix_core.Errors.{vp_invalid_structure}
use helix_core.Result.{Result, ok, throw_if, ◌>>=◌, ◌>>◌}
use helix_core.Credential.{Proof, SignedVc, SignedVp}
use helix_core.Verifier.Host.{error}
use helix_core.Verifier.Vc.{is_agent_authority_type, is_grant_type}

-- `VPBuilderOptions`, which a `VPBuilder` keeps
pub record VpBuilderOptions : Type 0 where
  pub credentials : List SignedVc
  pub holder_did : String
  pub target_service : String
  pub user_did : Option String

-- `VPBuilderSignOverrides`
pub record VpBuilderSignOverrides : Type 0 where
  pub id : Option String
  pub nonce : Option String
  pub expires_at : Option ℕ
  pub proof_created_at : Option ℕ

-- What one call draws from outside: `vp:helix:${randomUUID()}`, the random nonce, the clock and
-- `toISOString()`.
pub record Draws : Type 0 where
  pub id : String
  pub nonce : String
  pub now : ℕ
  pub iso : ℕ → String

-- the constructor of `VPBuilder`
unfoldable pub new_vp_builder : VpBuilderOptions → Result VpBuilderOptions
new_vp_builder options = do
  let agents = length (select is_agent_authority_type options.credentials)
  let grants = length (select is_grant_type options.credentials)
  throw_if (ltb (length options.credentials) 1)
      (error vp_invalid_structure ("VP must carry at least one credential" ∷ []))
  throw_if (ltb agents 1 || not (agents + grants == length options.credentials)) (
      error vp_invalid_structure (
        "VP credential array must contain at least one agent-authority credential, and otherwise only consent grants"
        ∷ []))
  ok options

-- `override ?? value`
abbrev or_value {ℓ} : {A : Type ℓ} → Option A → A → A
or_value none value = value
or_value (some override) value = override

-- `payload`, before it is signed
unfoldable pub vp_payload : VpBuilderOptions → VpBuilderSignOverrides → Draws → SignedVp
vp_payload options overrides draws = record {
  id = or_value overrides.id draws.id;
  holder = options.holder_did;
  verifiable_credential = options.credentials;
  nonce = or_value overrides.nonce draws.nonce;
  expiration_date = draws.iso (or_value overrides.expires_at (draws.now + 5 * 60 * 1000));
  delegated_by = options.user_did;
  target_service = options.target_service;
  proof = none;
}

-- `sign`; the private key, the method and `createEd25519Proof` with them are one function
unfoldable pub sign_vp :
    (SignedVp → Option ℕ → Result Proof)
    → VpBuilderOptions
    → VpBuilderSignOverrides
    → Draws
    → Result SignedVp
sign_vp create_proof options overrides draws = do
  let payload = vp_payload options overrides draws
  proof ← create_proof payload overrides.proof_created_at
  ok (record payload { proof = some proof })
