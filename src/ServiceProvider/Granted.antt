-- ===== src/ServiceProvider/Granted.antt =====
-- A consent that was granted (services/service-provider/service-provider.service.ts): `issueDelegationGrant` as a
-- whole call, with `issueGrant` of core/grant.ts.
use helix_core.Prelude.{
  ◌≡◌, refl, sym, subst, ap, String, some, List, [], Bool-cases, at_key, not, inl, inr, select,
}
use helix_core.Text.{codes}
use helix_core.StatusList.{get_status_list_length}
use helix_core.StatusList.Schema.{StatusListCredential}
use helix_core.Verifier.Vc.{grant_schema}
use helix_core.Result.{Result, ok, throw, >>=-eq-ok, ok-injective}
use helix_core.Action.{continue-eq-ok, call-eq-ok, reject_if-eq-ok}
use helix_core.Credential.{CredentialSubject, SignedVc, VcBody, body}
use helix_core.Grant.{
  GrantDraws, IssueGrantOptions, IssuerKeyMaterial, grant_subject, grant_payload, sign_grant,
  issue_grant,
}
use helix_core.Verifier.Host.{Host}
use helix_core.KeyStore.{DidKeyRecord, find_key_by_did}
use helix_core.ServiceProvider.{
  GrantVcStore, ProviderPlatform, GrantEntry, ProviderState, on_rest, put_rest,
}
use helix_core.ServiceProvider.Granting.{
  IssueGrantInput, IssueGrantResult, is_own, check_grant_input, find_signer, is_empty, is_key_of,
  starts_with_did, grant_of, union_scopes, granted_scopes, get_agent_scopes, sign_consent,
  issue_delegation_grant,
}
use helix_core.ServiceProvider.Consent.{IsGrantable, granted_scopes-eq-ok}

module _ (host : Host) (draws : GrantDraws) where
  sign_grant-subject :
      (wallet : IssuerKeyMaterial) (payload : VcBody) (vc : SignedVc)
      → sign_grant host draws wallet payload ≡ ok vc
      → (body vc).subject ≡ payload.subject
  unfolding sign_grant
  sign_grant-subject wallet payload vc h =
      elim (Bool-cases (grant_schema host (SignedVc.plain payload))) [
        | inl e ↦
            let (proof, made, same) = >>=-eq-ok (wallet.create_proof payload) _ (rw e at h) in
            let eq : SignedVc.plain (record payload { proof = some proof }) ≡ vc = cc same in
            ap (λ c. (body c).subject) (sym eq)
        | inr e ↦ cc (rw e at h)
      ]

  issue_grant-subject :
      (options : IssueGrantOptions) (wallet : IssuerKeyMaterial)
      {issued : SignedVc × StatusListCredential}
      → issue_grant host options wallet draws ≡ ok issued
      → (body issued.0).subject ≡ grant_subject options
  unfolding issue_grant grant_payload
  issue_grant-subject options wallet {issued} h =
      let (room, found, h) =
        >>=-eq-ok
          (get_status_list_length host.codec
            (codes options.status_list.credential_subject.encoded_list))
          _ h in
      let (vc, signed, same) = >>=-eq-ok (sign_grant host draws wallet _) _ h in
      let eq : (vc, options.status_list) ≡ issued = cc same in
      subst (λ (i : SignedVc × StatusListCredential). (body i.0).subject ≡ grant_subject options) eq
        (sign_grant-subject wallet _ vc signed)

grant_of-eq-ok :
    (outcome : Result (SignedVc × StatusListCredential)) {vc : SignedVc}
    → grant_of outcome ≡ ok vc
    → (issued : SignedVc × StatusListCredential) × (outcome ≡ ok issued) × (issued.0 ≡ vc)
grant_of-eq-ok (throw e) h = cc h
grant_of-eq-ok (ok issued) h = (issued, refl, ok-injective h)

-- Inversion of a call over the state of the other services.
on_rest-eq-ok :
    (store : GrantVcStore) {A : Type 0} (state : ProviderState store)
    (outcome : Result A × store.Rest) {value : A} {end : ProviderState store}
    → put_rest store state outcome ≡ (ok value, end)
    → (after : store.Rest) × (outcome ≡ (ok value, after))
on_rest-eq-ok store state (ok found, after) h = (after, cc h)
on_rest-eq-ok store state (throw e, after) h = cc h

module _ (store : GrantVcStore) (platform : ProviderPlatform) where
  sign_consent-scopes :
      (host : Host) (draws : GrantDraws) (input : IssueGrantInput) (key : DidKeyRecord)
      (scopes : List String) (entry : GrantEntry) (vc : SignedVc)
      → sign_consent store platform host draws input key scopes entry ≡ ok vc
      → ((body vc).subject.scopes ≡ some scopes) × ((body vc).subject.id ≡ input.agent_did)
  unfolding sign_consent grant_subject
  sign_consent-scopes host draws input key scopes entry vc h =
      let (issued, signed, same) = grant_of-eq-ok _ h in
      let subject = issue_grant-subject host draws _ _ signed in
      subst (λ v. ((body v).subject.scopes ≡ some scopes) × ((body v).subject.id ≡ input.agent_did))
        same
        (
          ap (λ (t : CredentialSubject). t.scopes) subject,
          ap (λ (t : CredentialSubject). t.id) subject,
        )

  get_agent_scopes-eq-ok :
      (agent : String) (state : ProviderState store) {own : List String} {end : ProviderState store}
      → get_agent_scopes store platform agent state ≡ (ok own, end)
      → (vcs : List SignedVc) × (after : store.Rest) × (store.list_active_by_subject_did agent
            "HelixAgentCredential" state.rest
          ≡ (ok vcs, after))
        × (own ≡ union_scopes (select is_own vcs) [])
  unfolding get_agent_scopes find_key_by_did
  get_agent_scopes-eq-ok agent state h =
      let (did_ok, h1) = reject_if-eq-ok (not (starts_with_did agent)) _ state _ h in
      let key = at_key agent state.keys in
      let (key_ok, h2) = reject_if-eq-ok (not (is_key_of "agent" key)) _ state _ h1 in
      let (vcs, middle, listed, h3) =
        continue-eq-ok
          (on_rest store (store.list_active_by_subject_did agent "HelixAgentCredential") state) _
          h2 in
      let (after, found) = on_rest-eq-ok store state _ listed in
      let (some_own, h4) = reject_if-eq-ok (is_empty (select is_own vcs)) _ middle _ h3 in
      (vcs, after, found, cc h4)

  -- What is granted is about the agent, and each of its scopes is the acceptance of terms or stands in an
  -- active credential that the agent holds as itself.
  record IsConsentOf (input : IssueGrantInput) (grant : SignedVc) : Type 0 where
    vcs : List SignedVc
    before : store.Rest
    after : store.Rest
    listed :
        store.list_active_by_subject_did input.agent_did "HelixAgentCredential" before
        ≡ (ok vcs, after)
    scopes : List String
    carried : (body grant).subject.scopes ≡ some scopes
    subject : (body grant).subject.id ≡ input.agent_did
    grantable : IsGrantable (union_scopes (select is_own vcs) []) input.scopes scopes

  -- A call of `issueDelegationGrant` that resolves returns a grant of that kind.
  issue_delegation_grant-IsConsentOf :
      (host : Host) (draws : GrantDraws) (input : IssueGrantInput) (state : ProviderState store)
      {result : IssueGrantResult} {end : ProviderState store}
      → issue_delegation_grant store platform host draws input state ≡ (ok result, end)
      → IsConsentOf input result.grant_vc
  unfolding issue_delegation_grant
  issue_delegation_grant-IsConsentOf host draws input state {result} h =
      let (done, s1, checked, h1) =
        continue-eq-ok (check_grant_input store platform input state) _ h in
      let (key, s2, signer, h2) =
        continue-eq-ok (find_signer store platform input.service_did s1) _ h1 in
      let (own, s3, gathered, h3) =
        continue-eq-ok (get_agent_scopes store platform input.agent_did s2) _ h2 in
      let (scopes, granted, h4) = call-eq-ok (granted_scopes own input.scopes) s3 _ h3 in
      let (entry, s4, claimed, h5) =
        continue-eq-ok (on_rest store store.claim_status_list_entry s3) _ h4 in
      let (grant, signed, h6) =
        call-eq-ok (sign_consent store platform host draws input key scopes entry) s4 _ h5 in
      let (reconciled, s5, registered, h7) =
        continue-eq-ok (on_rest store (store.register_issued_grant grant input.revoke_existing) s4)
          _ h6 in
      let (vcs, after, listed, same) = get_agent_scopes-eq-ok input.agent_did s2 gathered in
      let (carried, subject) = sign_consent-scopes host draws input key scopes entry grant signed in
      let returned : grant ≡ result.grant_vc =
        ap IssueGrantResult.grant_vc (ok-injective (ap (λ o. o.0) h7)) in
      record {
        vcs = vcs;
        before = s2.rest;
        after = after;
        listed = listed;
        scopes = scopes;
        carried = subst (λ v. (body v).subject.scopes ≡ some scopes) returned carried;
        subject = subst (λ v. (body v).subject.id ≡ input.agent_did) returned subject;
        grantable =
            subst (λ xs. IsGrantable xs input.scopes scopes) same
              (granted_scopes-eq-ok own input.scopes scopes granted);
      }
