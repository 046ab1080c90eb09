-- ===== src/ServiceProvider.antt =====
-- services/service-provider/service-provider.service.ts: `ServiceProviderService`, over the rows of services, the
-- keys in custody, the state of the services that it calls, and the audit log.
pub mod Enroll
pub mod Granting
mod Consent
mod Granted
use helix_core.Prelude.{ℕ, String, Option, List, [], ◌∷◌, ◌++◌, Bool}
use helix_core.Result.{Result}
use helix_core.Action.{Action, write}
use helix_core.Credential.{Proof, VcBody, SignedVc}
use helix_core.StatusList.Schema.{StatusListCredential}
use helix_core.KeyStore.{EncryptedKey, KeyRows}
use helix_core.ServiceStore.{ServiceRows}
use helix_core.DidService.Mint.{CreateDidResult}
use helix_core.VcService.Reconcile.{ReconcileResult}

-- the result of `claimStatusListEntry`
pub record GrantEntry : Type 0 where
  pub status_list : StatusListCredential
  pub status_list_credential_url : String
  pub status_list_index : ℕ

-- What the service calls: `createDID` with a key, a kind and domains, and `GrantVCStore`, over the state that
-- these keep.
pub record GrantVcStore : Type 1 where
  pub Rest : Type 0
  pub create_did : String → String → List String → Action Rest CreateDidResult
  pub claim_status_list_entry : Action Rest GrantEntry
  pub register_issued_grant : SignedVc → Bool → Action Rest ReconcileResult
  pub list_active_by_subject_did : String → String → Action Rest (List SignedVc)

-- `trim`, the text of code points, and `keyCustody.signWith` of a grant with a key in custody
pub record ProviderPlatform : Type 0 where
  pub trim : String → String
  pub text_of : List ℕ → String
  pub prove_vc : EncryptedKey → VcBody → Result Proof

-- the event of the audit log: the id, the DID and the name of a service
pub data ProviderEvent : Type 0 where
  service_enrolled : String → String → String → ProviderEvent

-- What the service reads and writes.
pub record ProviderWorld (Rest : Type 0) : Type 0 where
  pub services : ServiceRows
  pub keys : KeyRows
  pub rest : Rest
  pub log : List ProviderEvent

module _ (store : GrantVcStore) where
  abbrev pub ProviderState : Type 0
  ProviderState = ProviderWorld store.Rest

  abbrev put_services {ℓ} :
      {Value : Type ℓ} → ProviderState → Result Value × ServiceRows → Result Value × ProviderState
  put_services state (outcome, services) = (outcome, record state { services = services })

  abbrev put_keys {ℓ} :
      {Value : Type ℓ} → ProviderState → Result Value × KeyRows → Result Value × ProviderState
  put_keys state (outcome, keys) = (outcome, record state { keys = keys })

  abbrev pub put_rest {ℓ} :
      {Value : Type ℓ} → ProviderState → Result Value × store.Rest → Result Value × ProviderState
  put_rest state (outcome, rest) = (outcome, record state { rest = rest })

  -- a call of the service repository, of the key repository, of another service
  abbrev pub on_services {ℓ} :
      {Value : Type ℓ} → Action ServiceRows Value → Action ProviderState Value
  on_services action state = put_services state (action state.services)

  abbrev pub on_keys {ℓ} : {Value : Type ℓ} → Action KeyRows Value → Action ProviderState Value
  on_keys action state = put_keys state (action state.keys)

  abbrev pub on_rest {ℓ} : {Value : Type ℓ} → Action store.Rest Value → Action ProviderState Value
  on_rest action state = put_rest state (action state.rest)

  -- `auditLogger.log`
  abbrev pub log_provider : ProviderEvent → Action ProviderState (Unit {0})
  log_provider event =
      write (λ (state : ProviderState). record state { log = state.log ++ event ∷ [] })
