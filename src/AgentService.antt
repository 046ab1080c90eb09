-- ===== src/AgentService.antt =====
-- services/agent/agent.service.ts: `AgentService`, over its tokens and challenges, the keys in custody, the
-- state of the services that it calls, and the audit log.
pub mod Enrollment
pub mod Challenge
pub mod Onboarding
pub mod Custody
pub mod Presenting
pub mod Delegating
pub mod Once
pub mod Verified
pub mod Inheritance
pub mod Sources
mod Tests
use helix_core.Prelude.{
  ℕ, String, Option, none, some, List, [], ◌∷◌, ◌++◌, Bool, true, false, leb, ◌||◌, ◌&&◌, ◌==◌,
  every, length,
}
use helix_core.Text.{codes}
use helix_core.Errors.{Thrown, helix, coded, plain, undefined, code}
use helix_core.Result.{Result, ok, throw}
use helix_core.Action.{Action, write}
use helix_core.Credential.{Proof, VcBody, SignedVc, SignedVp}
use helix_core.DidDocument.{DidDocument}
use helix_core.AgentStore.{AgentStore}
use helix_core.KeyStore.{EncryptedKey, KeyRows}
use helix_core.DidService.{DidCreationRequest, DidCreationProof}
use helix_core.DidService.Mint.{CreateDidResult}
use helix_core.VcService.Reconcile.{ReconcileResult}
use helix_core.VcService.Request.{IssueVcParams, IssueVcResult}

-- What the service calls of `IDIDService` and `IVCService`, over the state that these keep.
pub record Services : Type 1 where
  pub Rest : Type 0
  pub prepare_did_creation : String → Action Rest DidCreationRequest
  pub create_did :
      String → String → List String → Option DidCreationProof → Action Rest CreateDidResult
  pub resolve_did : String → Action Rest DidDocument
  pub issue_vc : IssueVcParams → Action Rest IssueVcResult
  pub list_active_by_subject_did : String → String → Action Rest (List SignedVc)
  pub find_active_by_subject_did : String → Action Rest (Option SignedVc)
  pub find_active_by_vc_id : String → String → String → Action Rest (Option SignedVc)
  -- the agent, the service and the user
  pub list_active_grants : String → String → String → Action Rest (List SignedVc)
  pub claim_status_list_entry : Action Rest (String × ℕ)
  pub register_signed_vc : SignedVc → Bool → Action Rest ReconcileResult

-- What else the service is given, and what of JavaScript and of its libraries it uses.
pub record AgentPlatform : Type 0 where
  pub challenge_ttl_seconds : ℕ
  -- `hashToken`
  pub hash_token : String → String
  -- the text of code points, `String(n)`, `Buffer.from(s, 'hex')`, `toString('hex')`
  pub text_of : List ℕ → String
  pub index_text : ℕ → String
  pub hex_bytes : String → List ℕ
  pub hex_text : List ℕ → String
  -- `JSON.stringify` and `JSON.parse` of a list of texts
  pub json_texts : List String → String
  pub parse_texts : String → Result (List String)
  -- `normalizeDomain`: `trim` and the WHATWG `URL`: its protocol and hostname, `none` when it throws
  pub trim : String → String
  pub url_of : String → Option (String × String)
  -- `setDate(getDate() + days)`
  pub add_days : ℕ → ℕ → ℕ
  -- `ed25519.verify` of a signature, a message and a key, the first and the last in hex
  pub ed25519_verify : String → List ℕ → String → Result Bool
  -- `keyCustody.signWith` with a key in custody: of bytes, of a presentation by a verification method, and of a
  -- delegated credential
  pub sign_bytes : EncryptedKey → List ℕ → Result String
  pub prove_vp : EncryptedKey → String → SignedVp → Option ℕ → Result Proof
  pub prove_vc : EncryptedKey → VcBody → List SignedVc → Result Proof

-- the events of the audit log
pub data AgentEvent : Type 0 where
  enrollment_token_generated enrollment_token_rejected enrollment_token_consumed :
      String → AgentEvent
  challenge_issued challenge_verified : String → AgentEvent
  agent_onboarded user_did_verified : String → AgentEvent
  agent_vp_signed : String → List String → List String → AgentEvent
  vc_delegated : String → String → AgentEvent

-- What the service reads and writes.
pub record AgentWorld (Rest : Type 0) : Type 0 where
  pub agents : AgentStore
  pub keys : KeyRows
  pub rest : Rest
  pub log : List AgentEvent

-- `'code' in error`
unfoldable pub has_code : Thrown → Bool
has_code (helix e) = true
has_code (coded code message status) = true
has_code (plain message) = false
has_code undefined = false

-- a digit of `/[0-9a-f]/i`
abbrev pub is_hex_digit : ℕ → Bool
is_hex_digit c = leb b'0' c && leb c b'9' || leb b'a' c && leb c b'f' || leb b'A' c && leb c b'F'

-- `/^[0-9a-f]{n}$/i.test(text)`
unfoldable pub is_hex : ℕ → String → Bool
is_hex n text = length (codes text) == n && every is_hex_digit (codes text)

-- `a ?? b`
abbrev pub or_text : String → Option String → String
or_text other none = other
or_text other (some text) = text

module _ (services : Services) where
  abbrev pub CustodyState : Type 0
  CustodyState = AgentWorld services.Rest

  abbrev pub put_agents {ℓ} :
      {Value : Type ℓ} → CustodyState → Result Value × AgentStore → Result Value × CustodyState
  put_agents state (outcome, agents) = (outcome, record state { agents = agents })

  abbrev pub put_rest {ℓ} :
      {Value : Type ℓ} → CustodyState → Result Value × services.Rest → Result Value × CustodyState
  put_rest state (outcome, rest) = (outcome, record state { rest = rest })

  abbrev pub put_keys {ℓ} :
      {Value : Type ℓ} → CustodyState → Result Value × KeyRows → Result Value × CustodyState
  put_keys state (outcome, keys) = (outcome, record state { keys = keys })

  -- a call of the agent repository, of another service, of the key repository
  abbrev pub on_agents {ℓ} : {Value : Type ℓ} → Action AgentStore Value → Action CustodyState Value
  on_agents action state = put_agents state (action state.agents)

  abbrev pub on_rest {ℓ} : {Value : Type ℓ} → Action services.Rest Value → Action CustodyState Value
  on_rest action state = put_rest state (action state.rest)

  abbrev pub on_keys {ℓ} : {Value : Type ℓ} → Action KeyRows Value → Action CustodyState Value
  on_keys action state = put_keys state (action state.keys)

  -- `auditLogger.log`
  abbrev pub log_agent : AgentEvent → Action CustodyState (Unit {0})
  log_agent event = write (λ (state : CustodyState). record state { log = state.log ++ event ∷ [] })

  -- `try { … } catch (error) { throw … }`
  abbrev pub thrown_as {ℓ} :
      {Value : Type ℓ}
      → (Thrown → Thrown)
      → Result Value × CustodyState
      → Result Value × CustodyState
  thrown_as change (ok value, state) = (ok value, state)
  thrown_as change (throw e, state) = (throw (change e), state)

  abbrev pub catching {ℓ} :
      {Value : Type ℓ} → (Thrown → Thrown) → Action CustodyState Value → Action CustodyState Value
  catching change action state = thrown_as change (action state)
