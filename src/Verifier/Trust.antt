-- ===== src/Verifier/Trust.antt =====
-- What `verifyCredential` and `verifyRevocation` of core/vp-verifier.ts establish, and that the
-- revocation check fails closed.
use helix_core.Prelude.{
  ℕ, ◌≡◌, refl, sym, ◌∙◌, ap, String, Option, none, some, [], ◌∷◌, Bool, true, false, not, ◌&&◌,
  ◌||◌, if◌then◌else◌, Option-cases, inl, inr, ◌↔◌, arith,
}
use helix_core.Errors.{Thrown, vc_revoked}
use helix_core.Result.{
  Result, ok, throw, ◌>>=◌, >>=-eq-ok, >>-eq-ok, >>=-eq-throw, guard-eq-ok, throw_if-eq-ok,
}
use helix_core.Text.{codes}
use helix_core.Json.{Json}
use helix_core.Credential.{CredentialStatus, SignedVc, body}
use helix_core.DidDocument.{DidDocument}
use helix_core.Proof.{verify_ed25519_proof}
use helix_core.StatusList.{bit_0, get_bit}
use helix_core.StatusList.Schema.{StatusListCredential, parse_status_list}
use helix_core.Verifier.Host.{
  JsNumber, index, negative, not_integer, Host, VerifyVpOptions, error, is_revoked_error,
}
use helix_core.Verifier.Vc.{
  is_some, after, ask_status_list, status_list, check_bit, verify_revocation, verify_vc_signature,
  verify_validity_window, has_expired, is_self_signed, verify_credential,
}

module _ (host : Host) (options : VerifyVpOptions) where
  -- The status entry was fetched, is well formed, and its bit is 0.
  pub record IsUnrevoked (status : CredentialStatus) : Type 0 where
    pub raw : Json
    pub list : StatusListCredential
    pub position : ℕ
    pub fetched :
        ask_status_list host options.status_list_resolver status.status_list_credential ≡ ok raw
    pub parsed : parse_status_list raw ≡ some list
    pub numbered : host.number_of status.status_list_index ≡ index position
    pub cleared :
        get_bit host.codec (codes list.credential_subject.encoded_list) position ≡ ok bit_0

  status_list-eq-ok :
      (url : String) {raw : Json}
      → status_list host options url ≡ ok raw
      → ask_status_list host options.status_list_resolver url ≡ ok raw
  unfolding status_list
  status_list-eq-ok url h = ground arith

  check_bit-eq-ok :
      (list : StatusListCredential) (n : JsNumber)
      → check_bit host list n ≡ ok tt
      → (i : ℕ) × (n ≡ index i)
        × (get_bit host.codec (codes list.credential_subject.encoded_list) i ≡ ok bit_0)
  unfolding check_bit
  check_bit-eq-ok list not_integer h = cc
  check_bit-eq-ok list negative h = cc
  check_bit-eq-ok list (index i) h = (i, refl, ground arith)

  check_bit_revoked :
      (list : StatusListCredential) (n : JsNumber) {e : Thrown}
      → check_bit host list n ≡ throw e
      → is_revoked_error e ≡ true
  unfolding check_bit is_revoked_error
  check_bit_revoked list not_integer h = ground arith
  check_bit_revoked list negative h = ground arith
  check_bit_revoked list (index i) h = ground arith

  status_list_revoked :
      (url : String) {e : Thrown}
      → status_list host options url ≡ throw e
      → is_revoked_error e ≡ true
  unfolding status_list is_revoked_error
  status_list_revoked url h = ground arith

  -- the part of `verifyRevocation` after the test for a status
  abbrev checked : CredentialStatus → Json → Result (Unit {0})
  checked status raw = elim (parse_status_list raw) [
    | none ↦ throw (error vc_revoked ("Status list credential failed schema validation" ∷ []))
    | some list ↦ check_bit host list (host.number_of status.status_list_index)
  ]

  verify_revocation-some :
      (vc : SignedVc) (status : CredentialStatus)
      → (body vc).credential_status ≡ some status
      → verify_revocation host vc options
        ≡ (status_list host options status.status_list_credential >>= checked status)
  unfolding verify_revocation
  verify_revocation-some vc status e = ground arith

  checked-eq-ok :
      (status : CredentialStatus) (raw : Json)
      → checked status raw ≡ ok tt
      → (list : StatusListCredential) × (parse_status_list raw ≡ some list)
        × (check_bit host list (host.number_of status.status_list_index) ≡ ok tt)
  checked-eq-ok status raw h = ground arith

  verify_revocation-eq-ok :
      (vc : SignedVc) (status : CredentialStatus)
      → (body vc).credential_status ≡ some status
      → verify_revocation host vc options ≡ ok tt
      → IsUnrevoked status
  verify_revocation-eq-ok vc status e h =
      let (raw, fetched, c) = >>=-eq-ok _ _ (sym (verify_revocation-some vc status e) ∙ h) in
      let (list, parsed, b) = checked-eq-ok status raw c in
      let (i, numbered, cleared) = check_bit-eq-ok list _ b in
      record {
        raw = raw;
        list = list;
        position = i;
        fetched = status_list-eq-ok status.status_list_credential fetched;
        parsed = parsed;
        numbered = numbered;
        cleared = cleared;
      }

  IsUnrevoked-status_list :
      {status : CredentialStatus} (u : IsUnrevoked status)
      → status_list host options status.status_list_credential ≡ ok u.raw
  unfolding status_list
  IsUnrevoked-status_list u = ground (arith, u.fetched)

  IsUnrevoked-check_bit :
      {status : CredentialStatus} (u : IsUnrevoked status)
      → check_bit host u.list (host.number_of status.status_list_index) ≡ ok tt
  unfolding check_bit
  IsUnrevoked-check_bit u = ground (arith, u.numbered, u.cleared)

  -- A credential with a status passes the revocation check exactly when its list could be fetched, is
  -- well formed, and has a 0 at the credential's index.
  pub verify_revocation_iff :
      (vc : SignedVc) (status : CredentialStatus)
      → (body vc).credential_status ≡ some status
      → (verify_revocation host vc options ≡ ok tt) ↔ IsUnrevoked status
  verify_revocation_iff vc status e = (
    verify_revocation-eq-ok vc status e,
    λ u.
        verify_revocation-some vc status e
        ∙ rw (IsUnrevoked-status_list u, u.parsed, checked) (IsUnrevoked-check_bit u),
  )

  checked_revoked :
      (status : CredentialStatus) (raw : Json) {e : Thrown}
      → checked status raw ≡ throw e
      → is_revoked_error e ≡ true
  unfolding is_revoked_error
  checked_revoked status raw h = elim (Option-cases (parse_status_list raw)) [
    | inl bad ↦ ground arith
    | inr (list, parsed) ↦ check_bit_revoked list _ (rw (parsed, checked) at h)
  ]

  -- However the revocation check fails (no answer, malformed list, unreadable entry, bit set), what it
  -- throws is a `VCRevokedError`.
  pub verify_revocation_fails_closed :
      (vc : SignedVc) (e : Thrown)
      → verify_revocation host vc options ≡ throw e
      → is_revoked_error e ≡ true
  unfolding verify_revocation
  verify_revocation_fails_closed vc e h = elim (Option-cases (body vc).credential_status) [
    | inl absent ↦ ground arith
    | inr (status, present) ↦
        elim (>>=-eq-throw (status_list host options status.status_list_credential) (checked status)
          (sym (verify_revocation-some vc status present) ∙ h)) [
            | inl unfetched ↦ status_list_revoked status.status_list_credential unfetched
            | inr (raw, fetched, failed) ↦ checked_revoked status raw failed
          ]
  ]

  -- What a verified credential has: a signature that its issuer's document confirms, an open validity
  -- window, an issuer other than its subject unless self-signing is allowed, and no revocation.
  pub record IsTrusted (vc : SignedVc) : Type 0 where
    pub document : DidDocument
    pub resolved : host.resolve_did (body vc).issuer ≡ ok document
    pub signed :
        verify_ed25519_proof host.ed25519_verify (host.hash_vc vc) (body vc).proof document
        ≡ ok true
    pub started : after (host.date_ms (body vc).valid_from) host.now ≡ false
    pub current : has_expired host (body vc).valid_until ≡ false
    pub issued : (is_self_signed host vc && not options.allow_self_signed) ≡ false
    pub unrevoked :
        (status : CredentialStatus) → (body vc).credential_status ≡ some status → IsUnrevoked status

  not-eq-false : (b : Bool) → not b ≡ false → b ≡ true
  not-eq-false true h = refl
  not-eq-false false h = cc

  signature :
      (vc : SignedVc)
      → verify_vc_signature host vc ≡ ok tt
      → (document : DidDocument) × (host.resolve_did (body vc).issuer ≡ ok document)
        × (verify_ed25519_proof host.ed25519_verify (host.hash_vc vc) (body vc).proof document
            ≡ ok true)
  unfolding verify_vc_signature
  signature vc h =
      let (document, resolved, rest) = >>=-eq-ok _ _ h in
      let (valid, checked, passed) = >>=-eq-ok _ _ rest in
      let is_valid = not-eq-false valid (throw_if-eq-ok (not valid) _ passed) in
      (document, resolved, checked ∙ ap ok is_valid)

  window :
      (vc : SignedVc)
      → verify_validity_window host vc ≡ ok tt
      → (after (host.date_ms (body vc).valid_from) host.now ≡ false)
        × (has_expired host (body vc).valid_until ≡ false)
  unfolding verify_validity_window
  window vc h = let (started, rest) = guard-eq-ok _ _ _ h in (started, throw_if-eq-ok _ _ rest)

  revocation :
      (vc : SignedVc)
      → (if not (is_self_signed host vc) || is_some (body vc).credential_status
          then verify_revocation host vc options
          else ok tt)
        ≡ ok tt
      → (status : CredentialStatus) → (body vc).credential_status ≡ some status
      → IsUnrevoked status
  unfolding is_some
  revocation vc h status e = verify_revocation-eq-ok vc status e (ground (arith, h))

  -- A credential that `verifyCredential` lets through has a signature that its issuer's document
  -- confirms, an open validity window, an issuer other than its subject unless self-signing is allowed,
  -- and no revocation.
  pub verify_credential-IsTrusted :
      (vc : SignedVc) (warning : Option String)
      → verify_credential host vc options ≡ ok warning
      → IsTrusted vc
  unfolding verify_credential
  verify_credential-IsTrusted vc warning h =
      let (_, s, rest) = >>-eq-ok _ _ h in
      let (_, w, rest2) = >>-eq-ok _ _ rest in
      let (issued, rest3) = guard-eq-ok _ _ _ rest2 in
      let (_, r, _) = >>-eq-ok _ _ rest3 in
      let (document, resolved, signed) = signature vc s in
      let (started, current) = window vc w in
      record {
        document = document;
        resolved = resolved;
        signed = signed;
        started = started;
        current = current;
        issued = issued;
        unrevoked = revocation vc r;
      }
