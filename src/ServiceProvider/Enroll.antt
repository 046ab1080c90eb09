-- ===== src/ServiceProvider/Enroll.antt =====
-- services/service-provider/service-provider.service.ts: `enroll`.
use Prim.Native.String.{◌++◌ as ◌<>◌}
use helix_core.Prelude.{ℕ, String, Option, none, some, List, [], ◌∷◌, if◌then◌else◌}
use helix_core.Text.{truthy}
use helix_core.Errors.{Thrown, coded}
use helix_core.Action.{Action, resolve, reject, ◌>>=◌, ◌>>◌}
use helix_core.Scopes.{find_scope_problem}
use helix_core.KeyStore.{EncryptedKey, create_key}
use helix_core.ServiceStore.{ServiceRecord, create_service, find_service_by_name}
use helix_core.AgentService.Enrollment.{parse_scopes}
use helix_core.ServiceProvider.{
  GrantVcStore, ProviderPlatform, service_enrolled, ProviderState, on_services, on_keys, on_rest,
  log_provider,
}

-- `EnrollServiceInput`; no scopes when it is no array
pub record EnrollServiceInput : Type 0 where
  pub name : Option String
  pub domain : Option String
  pub required_scopes : Option (List String)
  pub description : Option String
  pub framework : Option String

-- What one call draws from outside: the clock, `keyCustody.generateAndEncrypt()`, the random id of the row of
-- the key, and `generateServiceId()`.
pub record EnrollDraws : Type 0 where
  pub now : ℕ
  pub public_key : String
  pub encrypted : EncryptedKey
  pub key_id : String
  pub service_id : String

-- `new HelixError(ErrorCode.VALIDATION_ERROR, message, 400)`
abbrev pub invalid_input : String → Thrown
invalid_input message = coded "VALIDATION_ERROR" message 400

-- `text?.trim() || null`
abbrev trimmed : (String → String) → Option String → Option String
trimmed trim none = none
trimmed trim (some text) = if truthy (some (trim text)) then some (trim text) else none

abbrev scopes_or_none : (List ℕ → String) → Option (List String) → List String
scopes_or_none text_of none = []
scopes_or_none text_of (some input) = parse_scopes text_of input

-- `if (problem) throw …`
abbrev pub check_problem : {State : Type 0} → String → Option String → Action State (Unit {0})
check_problem field none = resolve tt
check_problem field (some problem) = reject (invalid_input (◌<>◌ field (◌<>◌ ": " problem)))

module _ (store : GrantVcStore) (platform : ProviderPlatform) where
  -- the key pair, the DID, the key in custody, the row and the event
  unfoldable pub store_service :
      EnrollDraws
      → EnrollServiceInput
      → String
      → String
      → List String
      → Action (ProviderState store) ServiceRecord
  store_service draws input name domain scopes = do
    created ← on_rest store (store.create_did draws.public_key "service" [])
    on_keys store (create_key draws.now draws.key_id created.did "service" draws.encrypted)
    row ← on_services store (
        create_service draws.now (record {
          id = draws.service_id;
          did = created.did;
          name = name;
          domain = domain;
          required_scopes = scopes;
          description = trimmed platform.trim input.description;
          framework = trimmed platform.trim input.framework;
        }))
    log_provider store (service_enrolled row.id created.did name)
    resolve row

  abbrev unless_enrolled :
      EnrollDraws
      → EnrollServiceInput
      → String
      → String
      → List String
      → Option ServiceRecord
      → Action (ProviderState store) ServiceRecord
  unless_enrolled draws input name domain scopes (some row) =
      reject (coded "SERVICE_ALREADY_EXISTS" (◌<>◌ "Service already enrolled: " name) 409)
  unless_enrolled draws input name domain scopes none = store_service draws input name domain scopes

  abbrev enroll_named :
      EnrollDraws
      → EnrollServiceInput
      → Option String
      → Option String
      → List String
      → Action (ProviderState store) ServiceRecord
  enroll_named draws input (some name) (some domain) (scope ∷ scopes) = do
    check_problem "requiredScopes" (find_scope_problem (scope ∷ scopes))
    found ← on_services store (find_service_by_name name)
    unless_enrolled draws input name domain (scope ∷ scopes) found
  enroll_named draws input name domain scopes =
      reject (invalid_input "name, domain and requiredScopes are required")

  -- `enroll`
  unfoldable pub enroll :
      EnrollDraws → EnrollServiceInput → Action (ProviderState store) ServiceRecord
  enroll draws input =
      enroll_named draws input (trimmed platform.trim input.name)
        (trimmed platform.trim input.domain) (scopes_or_none platform.text_of input.required_scopes)
