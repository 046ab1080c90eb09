-- ===== src/VpService.antt =====
-- services/vp/vp.service.ts: `VPService`, over the audit log; `signedVPSchema` of core/schemas/vp.ts.
pub mod Laws
pub mod Errors
mod Tests
use helix_core.Prelude.{
  ℕ, ◌+◌, ◌*◌, ◌/◌, String, Option, none, some, List, [], ◌∷◌, ◌++◌, Bool, true, false, not, ◌&&◌,
  ◌||◌, ◌==◌, ◌===◌, leb, every, length, if◌then◌else◌,
}
use helix_core.Text.{codes, truthy, after_prefix}
use helix_core.Errors.{
  Thrown, helix, coded, plain, undefined, vp_invalid_structure, vp_verification_failed,
}
use helix_core.Result.{Result, ok, throw, throw_if, ◌>>=◌, ◌>>◌}
use helix_core.Json.{Json}
use helix_core.Credential.{Proof, SignedVc, SignedVp, DelegationLink}
use helix_core.Verifier.Host.{Host, VerifyVpOptions, error}
use helix_core.Verifier.Vc.{fetch_status_list}
use helix_core.Verifier.Vp.{VerifyVpResult, verify_vp}

-- `JWTSessionOptions`
pub record JwtSessionOptions : Type 0 where
  pub signing_key : String
  pub issuer_did : String
  pub ttl_seconds : ℕ

-- `HelixJWTPayload`
pub record HelixJwtPayload : Type 0 where
  pub iss : String
  pub sub : String
  pub iat : ℕ
  pub exp : ℕ
  pub jti : String
  pub user_did : String
  pub target_service : String
  pub scopes : List String
  pub vp_id : String

-- What the service is given: the verifier's host, `vcService.getStatusList`, the session options, and
-- `decodeURIComponent`, `toISOString` and `issueJWT`.
pub record VpPlatform : Type 0 where
  pub host : Host
  pub api_base_url : String
  pub jwt_session : Option JwtSessionOptions
  pub get_status_list : String → Result Json
  pub decode_uri_component : List ℕ → Result String
  pub iso : ℕ → String
  pub issue_jwt : HelixJwtPayload → String → Result String

-- the options of `verifyVP`, and the random id of a token
pub record VpOptions : Type 0 where
  pub issue_session : Bool
  pub expected_target_service : Option String
  pub allow_self_signed : Option Bool
  pub jti : String

-- `response.session`
pub record Session : Type 0 where
  pub token : String
  pub expires_at : String

-- `VPVerificationResult`
pub record VpVerificationResult : Type 0 where
  pub agent_did : String
  pub user_did : Option String
  pub target_service : String
  pub verified_at : String
  pub privilege_scopes : List String
  pub effective_scopes : List String
  pub vp_id : String
  pub delegation_chain : List DelegationLink
  pub warning : Option String
  pub session : Option Session

-- the events of the audit log
pub data VpEvent : Type 0 where
  vp_verified jwt_issued vp_rejected : String → VpEvent

abbrev pub is_lower_hex : ℕ → Bool
is_lower_hex c = leb b'0' c && leb c b'9' || leb b'a' c && leb c b'f'

-- `apiBaseUrl.replace(/\/$/, '')`
abbrev pub without_slash : List ℕ → List ℕ
without_slash [] = []
without_slash (c ∷ []) = if c == b'/' then [] else c ∷ []
without_slash (c ∷ d ∷ url) = c ∷ without_slash (d ∷ url)

-- `text.split(/[#?]/, 1)[0]`
abbrev pub before_mark : List ℕ → List ℕ
before_mark [] = []
before_mark (c ∷ text) = if c == b'#' || c == b'?' then [] else c ∷ before_mark text

-- `credentials.length > 0`
abbrev pub has_any_vc : List SignedVc → Bool
has_any_vc [] = false
has_any_vc (vc ∷ more) = true

-- `z.string().min(1).optional()`
abbrev pub absent_or_truthy : Option String → Bool
absent_or_truthy none = true
absent_or_truthy (some text) = truthy (some text)

abbrev pub starts_with_helix : String → Bool
starts_with_helix id = elim (after_prefix (codes "vp:helix:") (codes id)) [
  | none ↦ false
  | some rest ↦ true
]

-- `err instanceof HelixError ? err : new VPVerificationFailedError()`
unfoldable pub masked : Thrown → Thrown
masked (helix e) = helix e
masked (coded code message status) = coded code message status
masked (plain message) = error vp_verification_failed []
masked undefined = error vp_verification_failed []

module _ (platform : VpPlatform) where
  -- `proofSchema` and `signedVPSchema`, but for the two arrays of text that a parsed presentation does not keep
  abbrev vp_proof_schema : Option Proof → Bool
  vp_proof_schema none = false
  vp_proof_schema (some proof) =
      proof.type === "Ed25519Signature2020"
      && platform.host.is_datetime proof.created
      && truthy (some proof.verification_method)
      && proof.proof_purpose === "assertionMethod"
      && truthy (some proof.proof_value)

  unfoldable pub signed_vp_schema : SignedVp → Bool
  signed_vp_schema vp =
      starts_with_helix vp.id
      && truthy (some vp.holder)
      && has_any_vc vp.verifiable_credential
      && (length (codes vp.nonce) == 64 && every is_lower_hex (codes vp.nonce))
      && platform.host.is_datetime vp.expiration_date
      && absent_or_truthy vp.delegated_by
      && truthy (some vp.target_service)
      && vp_proof_schema vp.proof

  -- `statusListResolver`: the API's own lists are read from the credential service
  abbrev own_list : String → Option (List ℕ) → Result Json
  own_list url none = fetch_status_list platform.host url
  own_list url (some rest) = do
    platform.get_status_list (← platform.decode_uri_component (before_mark rest))

  unfoldable pub resolve_status_list : String → Result Json
  resolve_status_list url = own_list url (
      after_prefix (without_slash (codes platform.api_base_url) ++ codes "/v1/status-list/")
        (codes url))

  -- the options of the verifier
  abbrev or_false : Option Bool → Bool
  or_false none = false
  or_false (some allowed) = allowed

  unfoldable pub core_options : VpOptions → VerifyVpOptions
  unfolding resolve_status_list
  core_options options = record {
    expected_target_service = options.expected_target_service;
    allow_self_signed = or_false options.allow_self_signed;
    status_list_resolver = some resolve_status_list;
  }

  abbrev or_agent : Option String → String → String
  or_agent none agent_did = agent_did
  or_agent (some user_did) agent_did = user_did

  -- the payload of a session
  unfoldable pub session_payload :
      VpOptions → SignedVp → VerifyVpResult → JwtSessionOptions → HelixJwtPayload
  session_payload options vp result jwt =
      let now_seconds = platform.host.now / 1000 in
      record {
        iss = jwt.issuer_did;
        sub = result.agent_did;
        iat = now_seconds;
        exp = now_seconds + jwt.ttl_seconds;
        jti = options.jti;
        user_did = or_agent vp.delegated_by result.agent_did;
        target_service = vp.target_service;
        scopes = result.effective_scopes;
        vp_id = vp.id;
      }

  -- the session of a response, if one is asked for
  abbrev pub session_of :
      Bool
      → VpOptions
      → SignedVp
      → VerifyVpResult
      → Option JwtSessionOptions
      → Result (Option Session)
  session_of false options vp result jwt = ok none
  session_of true options vp result none = throw (plain "jwt_session_not_configured")
  session_of true options vp result (some jwt) = do
    let payload = session_payload options vp result jwt
    token ← platform.issue_jwt payload jwt.signing_key
    ok (some (record { token = token; expires_at = platform.iso (payload.exp * 1000) }))

  abbrev response_of : SignedVp → VerifyVpResult → Option Session → VpVerificationResult
  response_of vp result session = record {
    agent_did = result.agent_did;
    user_did = vp.delegated_by;
    target_service = vp.target_service;
    verified_at = platform.iso platform.host.now;
    privilege_scopes = result.privilege_scopes;
    effective_scopes = result.effective_scopes;
    vp_id = result.vp_id;
    delegation_chain = result.delegation_chain;
    warning = result.warning;
    session = session;
  }

  -- the tests of the `try`, up to the first event of the log
  unfoldable pub verify_parsed : VpOptions → SignedVp → Result VerifyVpResult
  unfolding signed_vp_schema core_options
  verify_parsed options vp = do
    throw_if (not (signed_vp_schema vp)) (error vp_invalid_structure [])
    verify_vp platform.host (core_options options) vp

  -- `vpId`, as the `catch` sees it
  abbrev pub known_id : SignedVp → String
  known_id vp = if signed_vp_schema vp then vp.id else "unknown"

  -- the rest of the `try`, after the first event
  abbrev pub finish_vp :
      VpOptions
      → SignedVp
      → VerifyVpResult
      → List VpEvent
      → Result (Option Session)
      → Result VpVerificationResult × List VpEvent
  finish_vp options vp result log (throw e) = (throw (masked e), log ++ vp_rejected vp.id ∷ [])
  finish_vp options vp result log (ok none) = (ok (response_of vp result none), log)
  finish_vp options vp result log (ok (some session)) =
      (ok (response_of vp result (some session)), log ++ jwt_issued options.jti ∷ [])

  abbrev pub settle_vp :
      VpOptions
      → SignedVp
      → List VpEvent
      → Result VerifyVpResult
      → Result VpVerificationResult × List VpEvent
  settle_vp options vp log (throw e) = (throw (masked e), log ++ vp_rejected (known_id vp) ∷ [])
  settle_vp options vp log (ok result) =
      finish_vp options vp result (log ++ vp_verified vp.id ∷ [])
        (session_of options.issue_session options vp result platform.jwt_session)

  -- `verifyVP`
  unfoldable pub verify_presented :
      VpOptions → SignedVp → List VpEvent → Result VpVerificationResult × List VpEvent
  unfolding verify_parsed session_payload
  verify_presented options vp log = settle_vp options vp log (verify_parsed options vp)
