-- ===== src/AgentService/Once.antt =====
-- An enrollment token opens one onboarding, and a challenge is verified once
-- (services/agent/agent.service.ts).
use helix_core.Prelude.{
  ℕ, ◌≡◌, refl, sym, ◌∙◌, subst, String, none, some, List, [], true, false, at_key, at_key-put_self,
}
use helix_core.Errors.{Thrown, enrollment_token_already_used}
use helix_core.Result.{Result, ok, throw}
use helix_core.Action.{Keeps, continue-Keeps}
use helix_core.Verifier.Host.{error}
use helix_core.AgentStore.{
  EnrollmentTokenRecord, find_enrollment_token_by_hash, burn_enrollment_token, create_challenge,
}
use helix_core.AgentStore.Laws.{burned}
use helix_core.AgentService.{
  Services, AgentPlatform, is_hex, CustodyState, on_rest, thrown_as, catching,
}
use helix_core.AgentService.Enrollment.{or_no_texts, normalize_domains}
use helix_core.AgentService.Challenge.{
  ChallengeDraws, OnboardInput, is_used, has_passed, prepare_error, open_challenge, burn_and_open,
  unless_expired, with_token, process_onboard_create_challenge,
}

module _ (services : Services) (platform : AgentPlatform) where
  -- The token with this hash has been used.
  abbrev pub TokenIsUsed : String → CustodyState services → Type 0
  TokenIsUsed hash state =
      (token : EnrollmentTokenRecord) × (t : ℕ) × (at_key hash state.agents.enrollment_tokens
        ≡ some token)
      × (token.used_at ≡ some t)

  thrown_as-Keeps {ℓ} :
      {Value : Type ℓ} (Holds : CustodyState services → Type 0) (change : Thrown → Thrown)
      (ended : Result Value × CustodyState services)
      → Holds ended.1
      → Holds (thrown_as services change ended).1
  thrown_as-Keeps Holds change (ok value, state) h = h
  thrown_as-Keeps Holds change (throw e, state) h = h

  open_challenge-Keeps :
      (hash : String) (draws : ChallengeDraws) (input : OnboardInput) (domains : List String)
      (token : EnrollmentTokenRecord)
      → Keeps (TokenIsUsed hash) (open_challenge services platform draws input domains token)
  unfolding open_challenge create_challenge
  open_challenge-Keeps hash draws input domains token state h =
      continue-Keeps (TokenIsUsed hash)
        (catching services prepare_error
          (on_rest services (services.prepare_did_creation input.public_key_hex)) state)
        _
        (thrown_as-Keeps (TokenIsUsed hash) prepare_error
          (on_rest services (services.prepare_did_creation input.public_key_hex) state) h)
        (λ request middle k. k)

  -- A token that may be used is used afterwards, however the call ends.
  burn_and_open-uses :
      (draws : ChallengeDraws) (input : OnboardInput) (domains : List String)
      (token : EnrollmentTokenRecord) (state : CustodyState services)
      → at_key (platform.hash_token input.enrollment_token) state.agents.enrollment_tokens
        ≡ some token
      → token.used_at ≡ none
      → TokenIsUsed
          (platform.hash_token input.enrollment_token)
          (burn_and_open services platform draws input domains token state).1
  unfolding burn_and_open burn_enrollment_token find_enrollment_token_by_hash open_challenge
  burn_and_open-uses draws input domains token state here unused =
      let hash = platform.hash_token input.enrollment_token in
      rw here (
        rw unused (
          open_challenge-Keeps hash draws input domains token
            (record state { agents = burned draws.now hash token state.agents })
            (
              record token { used_at = some draws.now },
              draws.now,
              at_key-put_self hash _ state.agents.enrollment_tokens,
              refl,
            )))

  -- A used token is rejected.
  rejects_used :
      (draws : ChallengeDraws) (input : OnboardInput) (domains : List String)
      (state : CustodyState services)
      → is_hex 64 input.public_key_hex ≡ true
      → normalize_domains services platform (or_no_texts input.domains) ≡ ok domains
      → TokenIsUsed (platform.hash_token input.enrollment_token) state
      → (process_onboard_create_challenge services platform draws input state).0
        ≡ throw (error enrollment_token_already_used [])
  unfolding process_onboard_create_challenge find_enrollment_token_by_hash
  rejects_used draws input domains state hex normal (token, t, here, used) =
      rw hex (rw normal (rw (here, with_token) (rw (used, is_used) refl)))

  uses :
      (draws : ChallengeDraws) (input : OnboardInput) (domains : List String)
      (token : EnrollmentTokenRecord) (state : CustodyState services)
      → is_hex 64 input.public_key_hex ≡ true
      → normalize_domains services platform (or_no_texts input.domains) ≡ ok domains
      → at_key (platform.hash_token input.enrollment_token) state.agents.enrollment_tokens
        ≡ some token
      → token.used_at ≡ none
      → has_passed draws.now token.expires_at ≡ false
      → TokenIsUsed
          (platform.hash_token input.enrollment_token)
          (process_onboard_create_challenge services platform draws input state).1
  unfolding process_onboard_create_challenge find_enrollment_token_by_hash burn_and_open
      open_challenge
  uses draws input domains token state hex normal here unused timely = rw hex (
      rw normal (
        rw (here, with_token)
          (rw (unused, is_used)
            (rw (timely, unless_expired)
              (burn_and_open-uses draws input domains token state here unused)))))

-- A token that is stored, unused and in time is used up by one call that opens an onboarding with it, whose
-- key is 64 hex digits and whose domains normalise, whether that call goes on to succeed or not. A call with
-- the same token and such a key and domains is rejected because the token has been used, in every state that
-- stores under the token's hash what is stored after the first call.
pub process_onboard_create_challenge_once :
    (services : Services) (platform : AgentPlatform) (draws later : ChallengeDraws)
    (input again : OnboardInput) (domains others : List String) (token : EnrollmentTokenRecord)
    (state then : CustodyState services)
    → is_hex 64 input.public_key_hex ≡ true
    → normalize_domains services platform (or_no_texts input.domains) ≡ ok domains
    → at_key (platform.hash_token input.enrollment_token) state.agents.enrollment_tokens
      ≡ some token
    → token.used_at ≡ none
    → has_passed draws.now token.expires_at ≡ false
    → is_hex 64 again.public_key_hex ≡ true
    → normalize_domains services platform (or_no_texts again.domains) ≡ ok others
    → again.enrollment_token ≡ input.enrollment_token
    → at_key (platform.hash_token input.enrollment_token) then.agents.enrollment_tokens
      ≡ at_key
          (platform.hash_token input.enrollment_token)
          (process_onboard_create_challenge services platform draws input
            state).1.agents.enrollment_tokens
    → (process_onboard_create_challenge services platform later again then).0
      ≡ throw (error enrollment_token_already_used [])
process_onboard_create_challenge_once services platform draws later input again domains others token
      state then hex normal here unused timely hex' normal' same stored =
    let (found, t, at_hash, set) =
      uses services platform draws input domains token state hex normal here unused timely in
    rejects_used services platform later again others then hex' normal' (
      subst (λ t. TokenIsUsed services platform (platform.hash_token t) then) (sym same)
        (found, t, stored ∙ at_hash, set))
