-- ===== src/AgentService/Verified.antt =====
-- What a completed onboarding has been through, and that a challenge is verified once
-- (services/agent/agent.service.ts).
use helix_core.Prelude.{
  ℕ, ◌≡◌, refl, sym, ap, ◌∙◌, subst, String, some, [], Bool, true, false, not, ◌&&◌, ◌===◌, leb,
  Bool-cases, Option-cases, inl, inr, at_key, at_key-put_self,
}
use helix_core.Text.{truthy}
use helix_core.Errors.{Thrown, challenge_not_found, challenge_expired, challenge_already_verified}
use helix_core.Result.{Result, ok, throw}
use helix_core.Action.{Action, After, continue, call-eq-ok, reject_if-eq-ok}
use helix_core.Verifier.Host.{error}
use helix_core.AgentStore.{ChallengeRecord, find_challenge_by_id, mark_challenge_verified}
use helix_core.AgentService.{Services, AgentPlatform, is_hex, or_text, CustodyState, on_agents}
use helix_core.AgentService.Challenge.{is_used}
use helix_core.AgentService.Onboarding.{
  VerifyInput, OnboardResult, verify_signature, token_scopes, token_of, complete_onboarding,
  check_challenge, with_challenge, process_onboard_verify,
}

module _ (services : Services) (platform : AgentPlatform) where
  -- The challenge has been verified.
  abbrev pub ChallengeIsVerified : String → CustodyState services → Type 0
  ChallengeIsVerified id state =
      (challenge : ChallengeRecord) × (t : ℕ) × (at_key id state.agents.challenges ≡ some challenge)
      × (challenge.verified_at ≡ some t)

  -- What holds if the run resolves.
  abbrev Ends {ℓ} :
      {Value : Type ℓ}
      → (CustodyState services → Type 0)
      → Result Value × CustodyState services
      → Type 0
  Ends Good ended = After (λ value state. Good state) (λ state. Unit {0}) ended

  continue-Ends {ℓ κ} :
      {First : Type ℓ} {Second : Type κ} (Good : CustodyState services → Type 0)
      (outcome : Result First × CustodyState services)
      (next : First → Action (CustodyState services) Second)
      → ((value : First) (middle : CustodyState services) → Ends Good (next value middle))
      → Ends Good (continue outcome next)
  continue-Ends Good (ok value, state) next later = later value state
  continue-Ends Good (throw e, state) next later = tt

  marked-Ends {ℓ} :
      {Second : Type ℓ} (now : ℕ) (id : String) (state : CustodyState services)
      (next : ChallengeRecord → Action (CustodyState services) Second)
      → ((challenge : ChallengeRecord) (middle : CustodyState services)
          → ChallengeIsVerified id middle
          → Ends (ChallengeIsVerified id) (next challenge middle))
      → Ends
          (ChallengeIsVerified id)
          (continue (on_agents services (mark_challenge_verified now id) state) next)
  unfolding mark_challenge_verified find_challenge_by_id
  marked-Ends now id state next later = elim (Option-cases (at_key id state.agents.challenges)) [
    | inl missing ↦ rw missing tt
    | inr (challenge, here) ↦ rw here (
        later _ _ (
          record challenge { verified_at = some now },
          now,
          at_key-put_self id _ state.agents.challenges,
          refl,
        ))
  ]

  -- A completed onboarding leaves its challenge verified.
  complete_onboarding-Ends :
      (now : ℕ) (input : VerifyInput) (challenge : ChallengeRecord) (state : CustodyState services)
      → Ends
          (ChallengeIsVerified input.challenge_id)
          (complete_onboarding services platform now input challenge state)
  unfolding complete_onboarding
  complete_onboarding-Ends now input challenge state =
      let Good = ChallengeIsVerified input.challenge_id in
      continue-Ends Good (token_of services platform challenge.enrollment_token_id state) _
        (λ token s1.
          continue-Ends Good (platform.parse_texts (or_text "[]" challenge.pending_domains), s1) _
            (λ domains s2. continue-Ends Good _ _ (λ did_result s3.
              continue-Ends Good (token_scopes services platform token, s3) _
                (λ scopes s4.
                  continue-Ends Good _ _
                    (λ vc s5. marked-Ends now input.challenge_id s5 _ (λ marked s6 h. h))))))

  -- A challenge that has been verified is rejected.
  rejects_verified :
      (now : ℕ) (input : VerifyInput) (state : CustodyState services)
      → ChallengeIsVerified input.challenge_id state
      → (e : Thrown) × ((process_onboard_verify services platform now input state).0 ≡ throw e)
  unfolding process_onboard_verify find_challenge_by_id check_challenge
  rejects_verified now input state (challenge, t, here, set) =
      elim (Bool-cases (challenge.purpose === "agent_onboarding")) [
        | inr other ↦ (error challenge_not_found [], rw (here, with_challenge) (rw other refl))
        | inl onboarding ↦ elim (Bool-cases (leb challenge.expires_at now)) [
          | inl late ↦
              (error challenge_expired [], rw (here, with_challenge) (rw onboarding (rw late refl)))
          | inr timely ↦ (
            error challenge_already_verified [],
            rw (here, with_challenge) (rw onboarding (rw timely (rw (set, is_used) refl))),
          )
        ]
      ]

  -- The tests that a challenge has passed when its verification resolves.
  abbrev pub HasPassed : ℕ → VerifyInput → ChallengeRecord → Type 0
  HasPassed now input challenge =
      ((challenge.purpose === "agent_onboarding") ≡ true)
      × (leb challenge.expires_at now ≡ false)
      × (is_used challenge.verified_at ≡ false)
      × (verify_signature services platform (platform.hex_bytes challenge.nonce) input.signature
            (or_text "" challenge.pending_public_key_hex)
          ≡ ok true)

  not-false : (b : Bool) → not b ≡ false → b ≡ true
  not-false true h = refl
  not-false false h = cc h

  check_challenge-eq-ok :
      (now : ℕ) (input : VerifyInput) (challenge : ChallengeRecord) (result : OnboardResult)
      (state after : CustodyState services)
      → check_challenge services platform now input challenge state ≡ (ok result, after)
      → HasPassed now input challenge
        × (complete_onboarding services platform now input challenge state ≡ (ok result, after))
  unfolding check_challenge
  check_challenge-eq-ok now input challenge result state after run =
      let (purpose, r1) =
        reject_if-eq-ok (not (challenge.purpose === "agent_onboarding")) _ state _ run in
      let (timely, r2) = reject_if-eq-ok (leb challenge.expires_at now) _ state _ r1 in
      let (unverified, r3) = reject_if-eq-ok (is_used challenge.verified_at) _ state _ r2 in
      let (hex, r4) = reject_if-eq-ok (not (is_hex 128 input.signature)) _ state _ r3 in
      let (valid, answered, r4') =
        call-eq-ok
          (verify_signature services platform (platform.hex_bytes challenge.nonce) input.signature
            (or_text "" challenge.pending_public_key_hex))
          state _ r4 in
      let (signed, r5) = reject_if-eq-ok (not valid) _ state _ r4' in
      let (proved, r6) =
        reject_if-eq-ok
          (truthy challenge.pending_did_create_state_json
            && not (is_hex 128 (or_text "" input.did_create_signature)))
          _ state _ r5 in
      ((not-false _ purpose, timely, unverified, answered ∙ ap ok (not-false _ signed)), r6)

-- An onboarding that is verified had an open challenge: stored under its id, for onboarding, not expired, not
-- verified before, and with a signature of its nonce that the library accepts for the key that it was opened
-- for. Afterwards the challenge is marked as verified, and a call with the same challenge id is rejected in
-- every state that stores under that id what is stored afterwards.
pub process_onboard_verify-eq-ok :
    (services : Services) (platform : AgentPlatform) (now later : ℕ) (input again : VerifyInput)
    (result : OnboardResult) (state after then : CustodyState services)
    → process_onboard_verify services platform now input state ≡ (ok result, after)
    → again.challenge_id ≡ input.challenge_id
    → at_key input.challenge_id then.agents.challenges
      ≡ at_key input.challenge_id after.agents.challenges
    → (challenge : ChallengeRecord) × (at_key input.challenge_id state.agents.challenges
        ≡ some challenge)
      × HasPassed services platform now input challenge
      × ChallengeIsVerified services platform input.challenge_id after
      × ((e : Thrown) × ((process_onboard_verify services platform later again then).0 ≡ throw e))
unfolding process_onboard_verify find_challenge_by_id
process_onboard_verify-eq-ok services platform now later input again result state after then run
      same stored =
    elim (Option-cases (at_key input.challenge_id state.agents.challenges)) [
      | inl missing ↦ cc (rw (missing, with_challenge) at run)
      | inr (challenge, here) ↦
          let checked : check_challenge services platform now input challenge state
              ≡ (ok result, after) =
            rw (here, with_challenge) at run in
          let (passed, completed) =
            check_challenge-eq-ok services platform now input challenge result state after
              checked in
          let marked : ChallengeIsVerified services platform input.challenge_id after =
            subst
              (Ends services platform (ChallengeIsVerified services platform input.challenge_id))
              completed (complete_onboarding-Ends services platform now input challenge state) in
          let (found, t, at_id, set) = marked in
          (
            challenge,
            here,
            passed,
            marked,
            rejects_verified services platform later again then (
                subst (λ id. ChallengeIsVerified services platform id then) (sym same)
                  (found, t, stored ∙ at_id, set)),
          )
    ]
