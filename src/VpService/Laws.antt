-- ===== src/VpService/Laws.antt =====
-- What the presentation service answers (services/vp/vp.service.ts).
use helix_core.Prelude.{
  ◌≡◌, refl, ap, subst, String, Option, none, some, List, [], ◌∷◌, ◌++◌, Bool, true, false, not,
  ◌⊎◌, Has, Has-head, Has-tail, All,
}
use helix_core.Result.{Result, ok, throw, ok-injective, guard-eq-ok, >>=-eq-ok}
use helix_core.Credential.{SignedVc, SignedVp}
use helix_core.Verifier.Vp.{VerifyVpResult, verify_vp}
use helix_core.Verifier.Run.{grant_entries}
use helix_core.Verifier.Soundness.{Allows, verify_vp_effective}
use helix_core.VpService.{
  HelixJwtPayload, JwtSessionOptions, VpPlatform, VpOptions, Session, VpVerificationResult, VpEvent,
  vp_verified, signed_vp_schema, core_options, session_payload, session_of, verify_parsed,
  finish_vp, settle_vp, verify_presented,
}

module _ (platform : VpPlatform) (options : VpOptions) (vp : SignedVp) where
  -- The session of a response: none, or a token of the payload with the effective scopes of the result.
  abbrev pub IsSessionOf : VerifyVpResult → Option Session → Type 0
  IsSessionOf result none = Unit
  IsSessionOf result (some session) =
      (jwt : JwtSessionOptions) × (payload : HelixJwtPayload) × (platform.issue_jwt payload
          jwt.signing_key
        ≡ ok session.token)
      × (payload.scopes ≡ result.effective_scopes)
      × (payload.sub ≡ result.agent_did)
      × (payload.target_service ≡ vp.target_service)

  session_of-IsSessionOf :
      (wanted : Bool) (result : VerifyVpResult) (jwt : Option JwtSessionOptions)
      (session : Option Session)
      → session_of platform wanted options vp result jwt ≡ ok session
      → IsSessionOf result session
  unfolding session_payload
  session_of-IsSessionOf false result jwt none h = tt
  session_of-IsSessionOf false result jwt (some session) h = cc h
  session_of-IsSessionOf true result none session h = cc h
  session_of-IsSessionOf true result (some jwt) session h =
      let (token, signs, same) =
        >>=-eq-ok
          (platform.issue_jwt (session_payload platform options vp result jwt) jwt.signing_key) _
          h in
      subst (IsSessionOf result) (ok-injective same)
        (jwt, session_payload platform options vp result jwt, signs, refl, refl, refl)

  -- What a response says, and what it was made of.
  pub record IsAnswer (response : VpVerificationResult) : Type 0 where
    pub result : VerifyVpResult
    pub verified : verify_vp platform.host (core_options platform options) vp ≡ ok result
    pub privileges : response.privilege_scopes ≡ result.privilege_scopes
    pub effectives : response.effective_scopes ≡ result.effective_scopes
    pub agent : response.agent_did ≡ result.agent_did
    pub user : response.user_did ≡ vp.delegated_by
    pub service : response.target_service ≡ vp.target_service
    pub id : response.vp_id ≡ result.vp_id
    pub chain : response.delegation_chain ≡ result.delegation_chain
    pub warning : response.warning ≡ result.warning
    pub session : IsSessionOf result response.session

  finish_vp-eq-ok :
      (result : VerifyVpResult) (log after : List VpEvent) (outcome : Result (Option Session))
      (response : VpVerificationResult)
      → verify_vp platform.host (core_options platform options) vp ≡ ok result
      → ((session : Option Session) → outcome ≡ ok session → IsSessionOf result session)
      → finish_vp platform options vp result log outcome ≡ (ok response, after)
      → IsAnswer response
  finish_vp-eq-ok result log after (throw e) response verified sessions h = cc h
  finish_vp-eq-ok result log after (ok none) response verified sessions h =
      subst IsAnswer (ok-injective (ap (λ ended. ended.0) h)) (record {
        result = result;
        verified = verified;
        privileges = refl;
        effectives = refl;
        agent = refl;
        user = refl;
        service = refl;
        id = refl;
        chain = refl;
        warning = refl;
        session = sessions none refl;
      })
  finish_vp-eq-ok result log after (ok (some session)) response verified sessions h =
      subst IsAnswer (ok-injective (ap (λ ended. ended.0) h)) (record {
        result = result;
        verified = verified;
        privileges = refl;
        effectives = refl;
        agent = refl;
        user = refl;
        service = refl;
        id = refl;
        chain = refl;
        warning = refl;
        session = sessions (some session) refl;
      })

  settle_vp-eq-ok :
      (log after : List VpEvent) (outcome : Result VerifyVpResult) (response : VpVerificationResult)
      → ((result : VerifyVpResult)
          → outcome ≡ ok result
          → verify_vp platform.host (core_options platform options) vp ≡ ok result)
      → settle_vp platform options vp log outcome ≡ (ok response, after)
      → IsAnswer response
  settle_vp-eq-ok log after (throw e) response core h = cc h
  settle_vp-eq-ok log after (ok result) response core h =
      finish_vp-eq-ok result (log ++ vp_verified vp.id ∷ []) after
        (session_of platform options.issue_session options vp result platform.jwt_session) response
        (core result refl)
        (λ session same.
          session_of-IsSessionOf options.issue_session result platform.jwt_session session same)
        h

  verify_parsed-eq-ok :
      (result : VerifyVpResult)
      → verify_parsed platform options vp ≡ ok result
      → verify_vp platform.host (core_options platform options) vp ≡ ok result
  unfolding verify_parsed
  verify_parsed-eq-ok result h = (guard-eq-ok (not (signed_vp_schema platform vp)) _ _ h).1

  verify_presented-IsAnswer :
      (log after : List VpEvent) (response : VpVerificationResult)
      → verify_presented platform options vp log ≡ (ok response, after)
      → IsAnswer response
  unfolding verify_presented
  verify_presented-IsAnswer log after response h =
      settle_vp-eq-ok log after (verify_parsed platform options vp) response
        (λ result same. verify_parsed-eq-ok result same) h

All-Has : (P : String → Type 0) (xs : List String) → ((x : String) → Has xs x → P x) → All P xs
All-Has P [] each = tt
All-Has P (x ∷ xs) each = (each x (Has-head x xs), All-Has P xs (λ y m. each y (Has-tail x xs y m)))

-- What makes a scope effective: the agent has it as a privilege, and a grant allows it if there are grants.
abbrev pub IsEffective : VpPlatform → VpOptions → SignedVp → VerifyVpResult → String → Type 0
IsEffective platform options vp result scope =
    Has result.privilege_scopes scope
    × ((grant_entries vp ≡ [])
        ⊎ ((grant : SignedVc) × Allows platform.host (core_options platform options) vp result grant
              scope))

-- A presentation that the service accepts has passed the verifier. The response names the user and the service
-- of the presentation, and says of the agent, the scopes, the id, the delegations and the warning what the
-- verifier found; the token of a session, if it has one, carries the effective scopes, all of them and no
-- more, for the agent and the service of the presentation. Each effective scope is one of the agent's
-- privileges and, where the presentation carries grants, one that a grant allows.
pub verify_presented-IsSessionOf :
    (platform : VpPlatform) (options : VpOptions) (vp : SignedVp) (log after : List VpEvent)
    (response : VpVerificationResult)
    → verify_presented platform options vp log ≡ (ok response, after)
    → (answer : IsAnswer platform options vp response) × All
        (IsEffective platform options vp answer.result)
        response.effective_scopes
verify_presented-IsSessionOf platform options vp log after response run =
    let answer = verify_presented-IsAnswer platform options vp log after response run in
    (
      answer,
      All-Has _ response.effective_scopes (λ scope effective.
          verify_vp_effective platform.host (core_options platform options) vp answer.result scope
            answer.verified (subst (λ scopes. Has scopes scope) answer.effectives effective)),
    )
