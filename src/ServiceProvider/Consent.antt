-- ===== src/ServiceProvider/Consent.antt =====
-- The scopes of a consent grant (services/service-provider/service-provider.service.ts).
use helix_core.Prelude.{
  ◌≡◌, refl, sym, subst, String, List, [], ◌∷◌, Bool, false, ◌===◌, ===→eq, ◌⊎◌, inl, inr,
  Bool-cases, select, every, add_all, Has, Has-cons, not-Has-nil, Has-add_all, Memᴰ, arith,
}
use helix_core.Result.{ok}
use helix_core.Credential.{SignedVc, agent_scopes}
use helix_core.VcLookup.{normalize_scopes}
use helix_core.ServiceProvider.Granting.{
  accept_terms_scope, is_beyond, union_scopes, refuse_beyond, granted_scopes,
}

-- What a consent may carry: the normal form of what was asked for, each scope held or the acceptance of
-- terms, and not that acceptance alone.
pub record IsGrantable (own requested scopes : List String) : Type 0 where
  pub normal : scopes ≡ normalize_scopes requested
  pub held : (scope : String) → Has scopes scope → (scope ≡ accept_terms_scope) ⊎ Has own scope
  pub useful : every (λ scope. scope === accept_terms_scope) scopes ≡ false

-- Where a filter lets nothing through, every element fails its test.
select_none :
    (q : String → Bool) (xs : List String) (s : String) → select q xs ≡ [] → Has xs s → q s ≡ false
select_none q [] s h m = absurd (not-Has-nil s m)
select_none q (x ∷ xs) s h m = elim (Bool-cases (q x)) [
  | inl e ↦ cc (rw (e, select) at h)
  | inr e ↦ elim (Has-cons x xs s m) [
    | inl same ↦ subst (λ y. q y ≡ false) same e
    | inr later ↦ select_none q xs s (rw (e, select) at h) later
  ]
]

not_beyond :
    (own : List String) (scope : String)
    → is_beyond own scope ≡ false
    → (scope ≡ accept_terms_scope) ⊎ Has own scope
not_beyond own scope h = elim (Bool-cases (scope === accept_terms_scope)) [
  | inl e ↦ inl (===→eq scope accept_terms_scope e)
  | inr e ↦ inr (ground (arith, h, e))
]

refuse_beyond-eq-ok :
    (beyond scopes result : List String)
    → refuse_beyond beyond scopes ≡ ok result
    → (beyond ≡ [])
      × (result ≡ scopes)
      × (every (λ scope. scope === accept_terms_scope) result ≡ false)
unfolding refuse_beyond
refuse_beyond-eq-ok (scope ∷ more) scopes result h = cc h
refuse_beyond-eq-ok [] scopes result h =
    elim (Bool-cases (every (λ scope. scope === accept_terms_scope) scopes)) [
      | inl e ↦ cc (rw e at h)
      | inr e ↦
          let same : scopes ≡ result = cc (rw e at h) in
          (
            refl,
            sym same,
            subst (λ r. every (λ scope. scope === accept_terms_scope) r ≡ false) same e,
          )
    ]

-- Scopes are granted only where the agent holds them.
pub granted_scopes-eq-ok :
    (own requested scopes : List String)
    → granted_scopes own requested ≡ ok scopes
    → IsGrantable own requested scopes
unfolding granted_scopes
granted_scopes-eq-ok own requested scopes h =
    let (none_beyond, same, useful) =
      refuse_beyond-eq-ok (select (is_beyond own) (normalize_scopes requested))
        (normalize_scopes requested) scopes h in
    record {
      normal = same;
      held = λ scope m. not_beyond own scope (
          select_none (is_beyond own) (normalize_scopes requested) scope none_beyond
            (subst (λ xs. Has xs scope) same m));
      useful = useful;
    }

-- Each scope that is gathered stands in one of the credentials.
pub Has-union_scopes :
    (vcs : List SignedVc) (scopes : List String) (a : String)
    → Has (union_scopes vcs scopes) a
    → Has scopes a ⊎ ((vc : SignedVc) × Memᴰ vc vcs × Has (agent_scopes vc) a)
unfolding union_scopes
Has-union_scopes [] scopes a m = inl m
Has-union_scopes (vc ∷ vcs) scopes a m =
    elim (Has-union_scopes vcs (add_all (agent_scopes vc) scopes) a m) [
      | inl now ↦ elim (Has-add_all (agent_scopes vc) scopes a now) [
        | inl own ↦ inr (vc, Memᴰ.head refl, own)
        | inr before ↦ inl before
      ]
      | inr later ↦ inr (later.0, Memᴰ.tail later.1, later.2)
    ]
