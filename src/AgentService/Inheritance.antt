-- ===== src/AgentService/Inheritance.antt =====
-- What consent an agent inherits from its delegators: `findDelegatorGrants`
-- (services/agent/agent.service.ts).
mod Maps
use helix_core.Prelude.{
  ◌≡◌, refl, sym, subst, ap, String, Option, none, some, List, [], ◌∷◌, Bool, true, Bool-cases, inl,
  inr, All, select, put, values, at_key, Has, Has-tail, Has-head, add_all, Memᴰ,
}
use helix_core.Result.{Result, ok, throw, ok-injective}
use helix_core.Action.{continue-eq-ok}
use helix_core.Credential.{SignedVc, body}
use helix_core.AgentService.{Services, AgentPlatform, CustodyState, on_rest, put_rest}
use helix_core.AgentService.Presenting.{
  Inherited, delegator_dids_of, all_chain_dids, is_delegable, GrantsByHolder, add_holder,
  is_present, is_holder, any_holder, add_grants, all_grants, inherited_from, ask_holders,
  find_delegator_grants,
}
use helix_core.AgentService.Inheritance.Maps.{
  Entries, put-Entries, at_key-Entries, values-All, all_grants-Presents_held, at_key-values,
}

-- Each element that a filter keeps stands in the list and passes the test.
select-Memᴰ {ℓ} :
    {A : Type ℓ} (p : A → Bool) (xs : List A) → All (λ x. Memᴰ x xs × (p x ≡ true)) (select p xs)
select-Memᴰ p [] = tt
select-Memᴰ p (x ∷ xs) = elim (Bool-cases (p x)) [
  | inl e ↦ rw (e, select) ((Memᴰ.head refl, e), further p x xs (select p xs) (select-Memᴰ p xs))
  | inr e ↦ rw (e, select) (further p x xs (select p xs) (select-Memᴰ p xs))
]
  where
    further :
        {A : Type ℓ} (p : A → Bool) (x : A) (xs ys : List A)
        → All (λ y. Memᴰ y xs × (p y ≡ true)) ys
        → All (λ y. Memᴰ y (x ∷ xs) × (p y ≡ true)) ys
    further p x xs [] all = tt
    further p x xs (y ∷ ys) ((there, passes), all) =
        ((Memᴰ.tail there, passes), further p x xs ys all)

map-All {ℓ} :
    {A : Type ℓ} (P Q : A → Type 0) (xs : List A) → ((x : A) → P x → Q x) → All P xs → All Q xs
map-All P Q [] f all = tt
map-All P Q (x ∷ xs) f all = (f x all.0, map-All P Q xs f all.1)

any_holder-Has :
    (holders : GrantsByHolder) (dids : List String)
    → any_holder holders dids ≡ true
    → (did : String) × Has dids did × (is_holder holders did ≡ true)
any_holder-Has holders [] h = cc h
any_holder-Has holders (did ∷ more) h = elim (Bool-cases (is_holder holders did)) [
  | inl e ↦ (did, Has-head did more, e)
  | inr e ↦
      let (found, there, held) = any_holder-Has holders more (rw (e, any_holder) at h) in
      (found, Has-tail did more found there, held)
]

present :
    (answer : Option (List SignedVc))
    → is_present answer ≡ true
    → (found : List SignedVc) × (answer ≡ some found)
present none h = cc h
present (some found) h = (found, refl)

module _ (services : Services) (service_did user_did : String) where
  -- A consent of the user to the agent `did` for the service: a grant that the credential service answered
  -- when it was asked for those of the three, and that passes to delegates.
  pub record IsConsent (did : String) (grant : SignedVc) : Type 0 where
    pub before : services.Rest
    pub after : services.Rest
    pub answers : List SignedVc
    pub answered : services.list_active_grants did service_did user_did before ≡ (ok answers, after)
    pub among : Memᴰ grant answers
    pub delegable : is_delegable grant ≡ true

  -- What is kept for a holder: its consents, one at least.
  abbrev IsHeld : String → List SignedVc → Type 0
  IsHeld did found =
      (grant : SignedVc) × (more : List SignedVc) × (found ≡ grant ∷ more)
      × All (IsConsent did) found

  -- What is kept for an id: a consent with that id.
  abbrev IsShown : String → SignedVc → Type 0
  IsShown id grant = ((body grant).id ≡ id) × (did : String) × IsConsent did grant

  -- A credential whose chain names an agent with a consent, the id of which is that of a presented grant.
  abbrev pub Reaches : List SignedVc → SignedVc → Type 0
  Reaches grants vc =
      (did : String) × Has (delegator_dids_of vc) did
      × (consent : SignedVc) × IsConsent did consent
      × (grant : SignedVc) × Memᴰ grant grants
      × ((body grant).id ≡ (body consent).id)

  -- What an agent inherits: consents, and credentials whose chain reaches an agent with such a consent.
  abbrev pub IsInheritance : Inherited → Type 0
  IsInheritance inherited =
      All (λ grant. (did : String) × IsConsent did grant) inherited.grants
      × All (Reaches inherited.grants) inherited.agent_credentials

  add_holder-IsHeld :
      (did : String) (found : List SignedVc) (holders : GrantsByHolder)
      → All (IsConsent did) found
      → Entries IsHeld holders
      → Entries IsHeld (add_holder did found holders)
  add_holder-IsHeld did [] holders h all = all
  add_holder-IsHeld did (grant ∷ more) holders h all =
      put-Entries IsHeld did (grant ∷ more) holders (grant, more, refl, h) all

  add_grants-IsShown :
      (did : String) (found : List SignedVc) (grants : List (String × SignedVc))
      → All (IsConsent did) found
      → Entries IsShown grants
      → Entries IsShown (add_grants found grants)
  add_grants-IsShown did [] grants h all = all
  add_grants-IsShown did (grant ∷ more) grants h all =
      add_grants-IsShown did more (put (body grant).id grant grants) h.1
        (put-Entries IsShown (body grant).id grant grants (refl, did, h.0) all)

  all_grants-IsShown :
      (holders : GrantsByHolder) (grants : List (String × SignedVc))
      → Entries IsHeld holders
      → Entries IsShown grants
      → Entries IsShown (all_grants holders grants)
  all_grants-IsShown [] grants h all = all
  all_grants-IsShown ((did, found) ∷ more) grants (held, h) all =
      all_grants-IsShown more (add_grants found grants) h
        (add_grants-IsShown did found grants held.3 all)

  holder-Reaches :
      (holders : GrantsByHolder) (vc : SignedVc)
      → Entries IsHeld holders
      → any_holder holders (delegator_dids_of vc) ≡ true
      → Reaches (values (all_grants holders [])) vc
  holder-Reaches holders vc all h =
      let (did, named, holds) = any_holder-Has holders (delegator_dids_of vc) h in
      let (found, here) = present (at_key did holders) holds in
      let (consent, more, same, consents) = at_key-Entries IsHeld did found holders all here in
      let stored = subst (λ f. at_key did holders ≡ some f) same here in
      let (grant, shown) = all_grants-Presents_held holders [] did consent more stored in
      let its_id =
        at_key-Entries IsShown (body consent).id grant (all_grants holders [])
          (all_grants-IsShown holders [] all tt) shown in
      (
        did,
        named,
        consent,
        (subst (All (IsConsent did)) same consents).0,
        grant,
        at_key-values (body consent).id grant (all_grants holders []) shown,
        its_id.0,
      )

  inherited_from-IsInheritance :
      (agent_vcs : List SignedVc) (holders : GrantsByHolder) (inherited : Inherited)
      → Entries IsHeld holders
      → inherited_from agent_vcs holders ≡ some inherited
      → IsInheritance inherited
  unfolding inherited_from
  inherited_from-IsInheritance agent_vcs [] inherited all h = cc h
  inherited_from-IsInheritance agent_vcs (holder ∷ holders) inherited all h =
      subst IsInheritance (some_injective h) (
        values-All IsShown _ (all_grants (holder ∷ holders) [])
            (λ id grant shown. (shown.1, shown.2))
            (all_grants-IsShown (holder ∷ holders) [] all tt),
        map-All _ _ _ (λ vc kept. holder-Reaches (holder ∷ holders) vc all kept.1)
            (select-Memᴰ (λ vc. any_holder (holder ∷ holders) (delegator_dids_of vc)) agent_vcs),
      )
    where
      some_injective : {a b : Inherited} → some a ≡ some b → a ≡ b
      some_injective e = cc e

  answered-All :
      (did : String) (state middle : CustodyState services) (answers : List SignedVc)
      → on_rest services (services.list_active_grants did service_did user_did) state
        ≡ (ok answers, middle)
      → All (IsConsent did) (select is_delegable answers)
  answered-All did state middle answers asked =
      let (after, answered) =
        put_rest-eq-ok state (services.list_active_grants did service_did user_did state.rest)
          asked in
      map-All _ _ _
        (λ grant kept. record {
          before = state.rest;
          after = after;
          answers = answers;
          answered = answered;
          among = kept.0;
          delegable = kept.1;
        })
        (select-Memᴰ is_delegable answers)
    where
      put_rest-eq-ok :
          (state : CustodyState services) (outcome : Result (List SignedVc) × services.Rest)
          {value : List SignedVc} {end : CustodyState services}
          → put_rest services state outcome ≡ (ok value, end)
          → (after : services.Rest) × (outcome ≡ (ok value, after))
      put_rest-eq-ok state (ok found, after) h = (after, cc h)
      put_rest-eq-ok state (throw e, after) h = cc h

  ask_holders-IsHeld :
      (platform : AgentPlatform) (dids : List String) (holders found : GrantsByHolder)
      (state after : CustodyState services)
      → Entries IsHeld holders
      → ask_holders services platform service_did user_did dids holders state ≡ (ok found, after)
      → Entries IsHeld found
  unfolding ask_holders
  ask_holders-IsHeld platform [] holders found state after all h =
      subst (Entries IsHeld) (ok-injective (ap (λ ended. ended.0) h)) all
  ask_holders-IsHeld platform (did ∷ more) holders found state after all h =
      let (grants, middle, asked, rest) =
        continue-eq-ok
          (on_rest services (services.list_active_grants did service_did user_did) state) _ h in
      ask_holders-IsHeld platform more (add_holder did (select is_delegable grants) holders) found
        middle after
        (add_holder-IsHeld did (select is_delegable grants) holders
          (answered-All did state middle grants asked) all)
        rest

-- When an agent inherits consent from its delegators, each grant that it presents is one that the credential
-- service answered for some agent, this service and this user, and that lets the consent pass to delegates; and
-- each of its own credentials that it presents has in its delegation chain an agent with such a grant, the id of
-- which is that of a presented grant.
pub find_delegator_grants-IsInheritance :
    (services : Services) (platform : AgentPlatform) (agent_vcs : List SignedVc)
    (service_did user_did : String) (inherited : Inherited) (state after : CustodyState services)
    → find_delegator_grants services platform agent_vcs service_did user_did state
      ≡ (ok (some inherited), after)
    → IsInheritance services service_did user_did inherited
unfolding find_delegator_grants
find_delegator_grants-IsInheritance services platform agent_vcs service_did user_did inherited state
      after h =
    let (holders, middle, asked, built) =
      continue-eq-ok
        (ask_holders services platform service_did user_did (add_all (all_chain_dids agent_vcs) [])
          [] state)
        _ h in
    inherited_from-IsInheritance services service_did user_did agent_vcs holders inherited
      (ask_holders-IsHeld services service_did user_did platform
        (add_all (all_chain_dids agent_vcs) []) [] holders state middle tt asked)
      (ok-injective (ap (λ ended. ended.0) built))
