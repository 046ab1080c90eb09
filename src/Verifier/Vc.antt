-- ===== src/Verifier/Vc.antt =====
-- core/vp-verifier.ts: one credential. Signature, validity window, revocation, and their order.
use helix_core.Prelude.{
  ℕ, String, Option, none, some, List, [], ◌∷◌, Bool, true, false, not, ◌&&◌, ◌||◌, ltb, leb, ◌===◌,
  if◌then◌else◌, includes,
}
use helix_core.Errors.{
  vc_signature_invalid, vc_not_yet_valid, vc_expired, vc_revoked, self_signed_vc_not_allowed,
  consent_grant_invalid, vp_invalid_structure,
}
use helix_core.Result.{Result, ok, throw, throw_if, ◌>>=◌, ◌>>◌}
use helix_core.Text.{codes, truthy}
use helix_core.Json.{Json}
use helix_core.Credential.{Proof, CredentialStatus, CredentialSubject, SignedVc, body}
use helix_core.Proof.{verify_ed25519_proof}
use helix_core.StatusList.{bit_0, bit_1, get_bit}
use helix_core.StatusList.Schema.{StatusListCredential, parse_status_list}
use helix_core.Verifier.Host.{
  JsNumber, index, negative, not_integer, Host, VerifyVpOptions, error, is_revoked_error,
}

-- `isAgentAuthorityType` and `isGrantType`
unfoldable pub is_agent_authority_type : SignedVc → Bool
is_agent_authority_type vc = includes (body vc).types "HelixAgentCredential"

unfoldable pub is_grant_type : SignedVc → Bool
is_grant_type vc = includes (body vc).types "DelegationGrantCredential"

-- `assertAgentVC`
unfoldable pub assert_agent_vc : SignedVc → Result (Unit {0})
assert_agent_vc vc = elim (body vc).subject.privilege_scopes [
  | none ↦ throw (error vp_invalid_structure ("VC does not contain agent privilege scopes" ∷ []))
  | some scopes ↦ ok tt
]

unfoldable pub is_some {ℓ} : {A : Type ℓ} → Option A → Bool
is_some none = false
is_some (some a) = true

-- a comparison of `new Date(s).getTime()` with the clock, false when either side is NaN
unfoldable pub after : Option ℕ → ℕ → Bool
after none now = false
after (some t) now = ltb now t

unfoldable pub at_or_before : Option ℕ → ℕ → Bool
at_or_before none now = false
at_or_before (some t) now = leb t now

-- an optional field that passes `test` when it is there
abbrev if_present {ℓ} : {A : Type ℓ} → (A → Bool) → Option A → Bool
if_present test none = true
if_present test (some a) = test a

module _ (host : Host) where
  -- `VCProofSchema` and `VCCredentialStatusSchema`
  proof_schema : Proof → Bool
  proof_schema p =
      p.type === "Ed25519Signature2020"
      && host.is_datetime p.created
      && p.proof_purpose === "assertionMethod"

  status_schema : CredentialStatus → Bool
  status_schema s =
      host.is_url s.id
      && s.type === "BitstringStatusListEntry"
      && s.status_purpose === "revocation"
      && host.is_url s.status_list_credential

  -- `DelegationGrantSubjectSchema`
  grant_subject_schema : CredentialSubject → Bool
  unfolding is_some
  grant_subject_schema s =
      s.type === "DelegationGrant"
      && is_some s.user_did
      && is_some s.scopes
      && (elim s.durability [ none ↦ false | some d ↦ d === "standing" || d === "session" ])

  -- `DelegationGrantVCSchema.safeParse(vc).success`
  unfoldable pub grant_schema : SignedVc → Bool
  unfolding proof_schema status_schema grant_subject_schema
  grant_schema vc =
      let b = body vc in
      not_empty b.context
      && host.is_datetime b.valid_from
      && if_present host.is_datetime b.valid_until
      && if_present status_schema b.credential_status
      && if_present proof_schema b.proof
      && includes b.types "VerifiableCredential"
      && includes b.types "DelegationGrantCredential"
      && grant_subject_schema b.subject
    where
      not_empty : List String → Bool
      not_empty [] = false
      not_empty (x ∷ xs) = true

  -- `assertGrantVC`
  unfoldable pub assert_grant_vc : SignedVc → Result (Unit {0})
  unfolding is_some
  assert_grant_vc vc = do
    throw_if (not (grant_schema vc)) (error consent_grant_invalid [])
    throw_if (not (is_some (body vc).proof))
        (error consent_grant_invalid ("Consent grant credential is missing its proof" ∷ []))

  -- `verifyVCSignature`
  unfoldable pub verify_vc_signature : SignedVc → Result (Unit {0})
  verify_vc_signature vc = do
    document ← host.resolve_did (body vc).issuer
    valid ← verify_ed25519_proof host.ed25519_verify (host.hash_vc vc) (body vc).proof document
    throw_if (not valid) (error vc_signature_invalid [])

  -- `vc.validUntil && new Date(vc.validUntil).getTime() <= now`
  unfoldable pub has_expired : Option String → Bool
  unfolding at_or_before
  has_expired none = false
  has_expired (some until) = truthy (some until) && at_or_before (host.date_ms until) host.now

  -- `verifyValidityWindow`
  unfoldable pub verify_validity_window : SignedVc → Result (Unit {0})
  unfolding has_expired after
  verify_validity_window vc = do
    throw_if (after (host.date_ms (body vc).valid_from) host.now) (error vc_not_yet_valid [])
    throw_if (has_expired (body vc).valid_until) (error vc_expired [])

  -- the body of a response, or the rejection of `fetchStatusList`
  status_json : Option Json → Result Json
  status_json none = throw (error vc_revoked ("Status list response is not valid JSON" ∷ []))
  status_json (some json) = ok json

  -- `fetchStatusList`
  unfoldable pub fetch_status_list : String → Result Json
  unfolding status_json
  fetch_status_list url = do
    response ← host.fetch (← host.loopback_override url)
    throw_if (not response.ok)
        (error vc_revoked ("Unable to verify credential revocation status" ∷ []))
    status_json response.json

  -- `options.statusListResolver ?? fetchStatusList`
  pub ask_status_list : Option (String → Result Json) → String → Result Json
  ask_status_list none url = fetch_status_list url
  ask_status_list (some resolver) url = resolver url

  -- the `catch` around the call of the resolver
  unfoldable pub status_list : VerifyVpOptions → String → Result Json
  unfolding ask_status_list
  status_list options url = elim (ask_status_list options.status_list_resolver url) [
    | ok raw ↦ ok raw
    | throw e ↦
        if is_revoked_error e
        then throw e
        else throw (error vc_revoked ("Unable to verify credential revocation status" ∷ []))
  ]

  -- `getBit` with the `catch` around it, and the test of the bit
  unfoldable pub check_bit : StatusListCredential → JsNumber → Result (Unit {0})
  check_bit list not_integer = throw (error vc_revoked [])
  check_bit list negative = throw (error vc_revoked ("Status list entry could not be read" ∷ []))
  check_bit list (index i) =
      elim (get_bit host.codec (codes list.credential_subject.encoded_list) i) [
        | throw e ↦ throw (error vc_revoked ("Status list entry could not be read" ∷ []))
        | ok bit_1 ↦ throw (error vc_revoked [])
        | ok bit_0 ↦ ok tt
      ]

  -- `verifyRevocation`
  unfoldable pub verify_revocation : SignedVc → VerifyVpOptions → Result (Unit {0})
  verify_revocation vc options = elim (body vc).credential_status [
    | none ↦ ok tt
    | some status ↦ do
      raw ← status_list options status.status_list_credential
      elim (parse_status_list raw) [
        | none ↦ throw (error vc_revoked ("Status list credential failed schema validation" ∷ []))
        | some list ↦ check_bit list (host.number_of status.status_list_index)
      ]
  ]

  -- `vc.issuer === vc.credentialSubject.id`
  unfoldable pub is_self_signed : SignedVc → Bool
  is_self_signed vc = (body vc).issuer === (body vc).subject.id

  -- `verifyCredential`
  unfoldable pub verify_credential : SignedVc → VerifyVpOptions → Result (Option String)
  unfolding is_some
  verify_credential vc options = do
    verify_vc_signature vc
    verify_validity_window vc
    let self_signed = is_self_signed vc
    throw_if (self_signed && not options.allow_self_signed) (error self_signed_vc_not_allowed [])
    (if not self_signed || is_some (body vc).credential_status
        then verify_revocation vc options
        else ok tt)
    ok (if self_signed then some "self-signed credential, not trusted in production" else none)
