-- ===== src/StatusList/Schema.antt =====
-- core/status-list/schema.ts: `StatusListCredentialSchema`, and the credential that it accepts.
use helix_core.Prelude.{String, Option, none, some, List, [], ◌∷◌, true, false, ◌===◌}
use helix_core.Json.{Json, Members, as_string, as_strings, as_object, lookup}

pub record StatusListSubject : Type 0 where
  pub id : String
  pub type : String
  pub status_purpose : String
  pub encoded_list : String

pub record StatusListCredential : Type 0 where
  pub context : List String
  pub id : String
  pub type : List String
  pub issuer : String
  pub valid_from : String
  pub credential_subject : StatusListSubject

infixl 5 ◌>>=◌ ◌>>◌
abbrev ◌>>=◌ {ℓ κ} : {A : Type ℓ} {B : Type κ} → Option A → (A → Option B) → Option B
none >>= f = none
some a >>= f = f a

abbrev ◌>>◌ {ℓ κ} : {A : Type ℓ} {B : Type κ} → Option A → Option B → Option B
none >> k = none
some a >> k = k

-- `.min(1)`
abbrev non_empty : List String → Option (List String)
non_empty [] = none
non_empty (x ∷ xs) = some (x ∷ xs)

-- `z.literal(text)`
abbrev literal : String → String → Option String
literal text s = elim (s === text) [ true ↦ some s | false ↦ none ]

string_field : String → Members → Option String
string_field key ms = do as_string (← lookup key ms)

subject_schema : Members → Option StatusListSubject
unfolding string_field
subject_schema ms = do
  id ← string_field "id" ms
  type ← literal "BitstringStatusList" (← string_field "type" ms)
  purpose ← literal "revocation" (← string_field "statusPurpose" ms)
  encoded ← string_field "encodedList" ms
  some (record { id = id; type = type; status_purpose = purpose; encoded_list = encoded })

-- `StatusListCredentialSchema.safeParse(raw)`, `none` when it does not succeed
unfoldable pub parse_status_list : Json → Option StatusListCredential
unfolding string_field subject_schema
parse_status_list raw = do
  ms ← as_object raw
  context ← non_empty (← as_strings (← lookup "@context" ms))
  id ← string_field "id" ms
  type ← as_strings (← lookup "type" ms)
  issuer ← string_field "issuer" ms
  valid_from ← string_field "validFrom" ms
  subject ← subject_schema (← as_object (← lookup "credentialSubject" ms))
  some (record {
    context = context;
    id = id;
    type = type;
    issuer = issuer;
    valid_from = valid_from;
    credential_subject = subject;
  })
