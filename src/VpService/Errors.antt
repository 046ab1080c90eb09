-- ===== src/VpService/Errors.antt =====
-- How the presentation service rejects (services/vp/vp.service.ts).
use helix_core.Prelude.{
  ◌≡◌, refl, sym, ap, subst, Option, none, some, List, [], ◌∷◌, ◌++◌, String, true,
}
use helix_core.Errors.{Thrown, helix, coded, plain, undefined}
use helix_core.Result.{Result, ok, throw}
use helix_core.Credential.{SignedVp}
use helix_core.Verifier.Vp.{VerifyVpResult}
use helix_core.DidService.{is_helix_error}
use helix_core.VpService.{
  VpPlatform, VpOptions, Session, VpVerificationResult, VpEvent, vp_verified, vp_rejected, masked,
  known_id, session_of, verify_parsed, finish_vp, settle_vp, verify_presented,
}

masked_helix : (e : Thrown) → is_helix_error (masked e) ≡ true
unfolding masked is_helix_error
masked_helix (helix e) = refl
masked_helix (coded code message status) = refl
masked_helix (plain message) = refl
masked_helix undefined = refl

throw-injective :
    {Value : Type 0} {a b : Thrown} → ◌≡◌ {A = Result Value} (throw a) (throw b) → a ≡ b
throw-injective same = cc same

module _ (platform : VpPlatform) (options : VpOptions) (vp : SignedVp) where
  -- A rejection carries an error of the program's own classes, and ends the log with the rejection.
  abbrev pub IsRejection : Thrown → List VpEvent → Type 0
  IsRejection e after =
      (is_helix_error e ≡ true)
      × ((before : List VpEvent) × (id : String) × (after ≡ before ++ vp_rejected id ∷ []))

  rejection :
      (d : Thrown) (before : List VpEvent) (id : String) {e : Thrown} {after : List VpEvent}
      → ◌≡◌ {A = Result VpVerificationResult × List VpEvent}
          (throw (masked d), before ++ vp_rejected id ∷ [])
          (throw e, after)
      → IsRejection e after
  rejection d before id h = (
    subst (λ x. is_helix_error x ≡ true) (throw-injective (ap (λ ended. ended.0) h))
        (masked_helix d),
    (before, id, sym (ap (λ ended. ended.1) h)),
  )

  finish_vp-eq-throw :
      (result : VerifyVpResult) (log after : List VpEvent) (outcome : Result (Option Session))
      (e : Thrown)
      → finish_vp platform options vp result log outcome ≡ (throw e, after)
      → IsRejection e after
  finish_vp-eq-throw result log after (throw d) e h = rejection d log vp.id h
  finish_vp-eq-throw result log after (ok none) e h = cc h
  finish_vp-eq-throw result log after (ok (some session)) e h = cc h

  settle_vp-eq-throw :
      (log after : List VpEvent) (outcome : Result VerifyVpResult) (e : Thrown)
      → settle_vp platform options vp log outcome ≡ (throw e, after)
      → IsRejection e after
  settle_vp-eq-throw log after (throw d) e h = rejection d log (known_id platform vp) h
  settle_vp-eq-throw log after (ok result) e h =
      finish_vp-eq-throw result (log ++ vp_verified vp.id ∷ []) after
        (session_of platform options.issue_session options vp result platform.jwt_session) e h

-- Whatever goes wrong, in the verifier, in a library or in issuing the session, the caller is rejected with an
-- error of the program's own classes, and the last event of the log is the rejection.
pub verify_presented-IsRejection :
    (platform : VpPlatform) (options : VpOptions) (vp : SignedVp) (log after : List VpEvent)
    (e : Thrown)
    → verify_presented platform options vp log ≡ (throw e, after)
    → IsRejection platform options vp e after
unfolding verify_presented
verify_presented-IsRejection platform options vp log after e h =
    settle_vp-eq-throw platform options vp log after (verify_parsed platform options vp) e h
