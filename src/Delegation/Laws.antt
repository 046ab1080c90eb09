-- ===== src/Delegation/Laws.antt =====
-- What `buildDelegationVC` (core/delegation.ts) makes passes the chain checks of the verifier.
use helix_core.Prelude.{
  ℕ, ◌+◌, ◌≤◌, ◌≡◌, refl, sym, ◌∙◌, ap, subst, String, Option, none, some, List, [], ◌∷◌, ◌++◌,
  false, not, ltb, ◌==◌, ◌===◌, ===_refl, ==_refl, ==→eq, find, length, includes, Has, Has-cons,
  inl, inr, arith,
}
use helix_core.Result.{ok-injective, ok, ◌>>◌, >>=-eq-ok, >>-eq-ok, guard-eq-ok}
use helix_core.Credential.{
  CredentialSubject, SignedVc, body, of_list, to_list, delegation_chain, or_zero, agent_scopes,
}
use helix_core.Delegation.{
  DelegateOptions, Wallet, Stamps, assert_scopes, assert_all_held, delegation_body,
  build_delegation_vc,
}
use helix_core.Verifier.Chain.{assert_subset, check_link, check_links, check_chain}
use helix_core.Verifier.Links.{
  IsNarrower, IsLink, Linked, check_links-Linked, last, last_snoc, not-eq-false,
}

pub to_list-of_list : (xs : List SignedVc) → to_list (of_list xs) ≡ xs
to_list-of_list [] = refl
to_list-of_list (x ∷ xs) = ap (λ ys. x ∷ ys) (to_list-of_list xs)

assert_all_held-find :
    (parent child : List String)
    → assert_all_held parent child ≡ ok tt
    → find (λ scope. not (includes parent scope)) child ≡ none
unfolding assert_all_held
assert_all_held-find parent [] h = refl
assert_all_held-find parent (scope ∷ scopes) h =
    let (held, h1) = guard-eq-ok (not (includes parent scope)) _ _ h in
    rw (held, find) (assert_all_held-find parent scopes h1)

assert_all_held-IsNarrower :
    (parent child : List String) → assert_all_held parent child ≡ ok tt → IsNarrower child parent
unfolding assert_all_held includes
assert_all_held-IsNarrower parent [] h scope m = cc
assert_all_held-IsNarrower parent (s ∷ scopes) h scope m =
    let (held, h1) = guard-eq-ok (not (includes parent s)) _ _ h in
    elim (Has-cons s scopes scope m) [
      | inl same ↦ subst (Has parent) same (not-eq-false _ held)
      | inr later ↦ assert_all_held-IsNarrower parent scopes h1 scope later
    ]

assert_subset_of_none :
    (parent child : List String)
    → find (λ scope. not (includes parent scope)) child ≡ none
    → assert_subset parent child ≡ ok tt
unfolding assert_subset
assert_subset_of_none parent child h = rw h

check_links_snoc :
    (m i : ℕ) (parent : SignedVc) (rest : List SignedVc) (vc : SignedVc)
    → check_links m i parent rest ≡ ok tt
    → check_link m (i + length rest) (last parent rest) vc ≡ ok tt
    → check_links m i parent (rest ++ vc ∷ []) ≡ ok tt
unfolding check_links
check_links_snoc m i parent [] vc h k =
    ap (λ r. r >> ok tt) (subst (λ n. check_link m n parent vc ≡ ok tt) (omega arith) k)
check_links_snoc m i parent (child ∷ rest) vc h k =
    let (_, now, later) = >>-eq-ok (check_link m i parent child) _ h in
    rw now (
      check_links_snoc m (i + 1) child rest vc later
        (subst (λ n. check_link m n (last child rest) vc ≡ ok tt) (omega arith) k))

-- The depth of the last credential of a linked chain, and the bound that it carries.
last_depth :
    (m i : ℕ) (parent : SignedVc) (rest : List SignedVc)
    → Linked m i parent rest
    → or_zero (body parent).subject.delegation_depth + 1 ≡ i
    → or_zero (body parent).subject.max_delegation_depth ≡ m
    → (or_zero (body (last parent rest)).subject.delegation_depth + 1 ≡ i + length rest)
      × (or_zero (body (last parent rest)).subject.max_delegation_depth ≡ m)
last_depth m i parent [] l d e = (d ∙ omega arith, e)
last_depth m i parent (child ∷ rest) (l, ls) d e =
    let (d', e') =
      last_depth m (i + 1) child rest ls (ap (λ o. or_zero o + 1) l.delegation_depth)
        (ap or_zero l.max_delegation_depth) in
    (d' ∙ omega arith, e')

-- What a call that returns has checked and made.
pub record IsBuilt (options : DelegateOptions) (did : String) (stamps : Stamps) (vc : SignedVc)
    : Type 0 where
  pub held : assert_all_held (agent_scopes options.from_vc) options.scopes ≡ ok tt
  pub within :
      ltb
        (or_zero (body options.from_vc).subject.max_delegation_depth)
        (or_zero (body options.from_vc).subject.delegation_depth + 1)
      ≡ false
  pub issuer : (body vc).issuer ≡ did
  pub subject : (body vc).subject ≡ (delegation_body options did stamps).subject
  pub chain : delegation_chain vc ≡ delegation_chain options.from_vc ++ options.from_vc ∷ []

fresh_scopes :
    (options : DelegateOptions) (did : String) (stamps : Stamps) (vc : SignedVc)
    → IsBuilt options did stamps vc
    → agent_scopes vc ≡ options.scopes
fresh_scopes options did stamps vc b =
    ap (λ (s : CredentialSubject). scopes_of s.privilege_scopes) b.subject
  where
    scopes_of : Option (List String) → List String
    scopes_of none = []
    scopes_of (some scopes) = scopes

build_delegation_vc-IsBuilt :
    (options : DelegateOptions) (wallet : Wallet) (stamps : Stamps) (vc : SignedVc)
    → build_delegation_vc options wallet stamps ≡ ok vc
    → IsBuilt options wallet.did stamps vc
unfolding build_delegation_vc
build_delegation_vc-IsBuilt options wallet stamps vc h =
    let subject = (body options.from_vc).subject in
    let chain = delegation_chain options.from_vc ++ options.from_vc ∷ [] in
    let (_, h1) = guard-eq-ok (options.to === wallet.did) _ _ h in
    let (_, _, h2) = >>-eq-ok (assert_scopes subject.privilege_scopes) _ h1 in
    let (_, held, h3) =
      >>-eq-ok (assert_all_held (agent_scopes options.from_vc) options.scopes) _ h2 in
    let (within, h4) =
      guard-eq-ok
        (ltb (or_zero subject.max_delegation_depth) (or_zero subject.delegation_depth + 1)) _ _
        h3 in
    let (proof, _, h5) =
      >>=-eq-ok (wallet.create_proof (delegation_body options wallet.did stamps) chain) _ h4 in
    let e = sym (ok-injective h5) in
    record {
      held = held;
      within = within;
      issuer = ap (λ v. (body v).issuer) e;
      subject = ap (λ v. (body v).subject) e;
      chain = ap delegation_chain e ∙ to_list-of_list chain;
    }

not_ltb : (m n : ℕ) → n ≤ m → ltb m n ≡ false
not_ltb m n h = ground arith

check_link-of_IsLink :
    (m i : ℕ) (parent child : SignedVc)
    → IsLink m i parent child
    → check_link m i parent child ≡ ok tt
unfolding check_link
check_link-of_IsLink m i parent child l =
    rw
      (
        l.issuer,
        l.delegated_from,
        l.parent_vc_id,
        l.delegation_depth,
        l.max_delegation_depth,
        ===_refl (body parent).subject.id,
        ===_refl (body parent).id,
        ==_refl i,
        ==_refl m,
        not_ltb m i l.within,
      )
      l.subset

fresh-IsLink :
    (m i : ℕ) (options : DelegateOptions) (did : String) (stamps : Stamps) (vc : SignedVc)
    → IsBuilt options did stamps vc
    → did ≡ (body options.from_vc).subject.id
    → or_zero (body options.from_vc).subject.delegation_depth + 1 ≡ i
    → or_zero (body options.from_vc).subject.max_delegation_depth ≡ m
    → IsLink m i options.from_vc vc
fresh-IsLink m i options did stamps vc b own d x = record {
  issuer = b.issuer ∙ own;
  delegated_from = ap (λ s. s.delegated_from) b.subject ∙ ap some own;
  parent_vc_id = ap (λ s. s.parent_vc_id) b.subject;
  delegation_depth = ap (λ s. s.delegation_depth) b.subject ∙ ap some d;
  max_delegation_depth = ap (λ s. s.max_delegation_depth) b.subject ∙ ap some x;
  within =
      subst (λ k. k ≤ m) d
        (subst (λ k. or_zero (body options.from_vc).subject.delegation_depth + 1 ≤ k) x
          (le_of _ _ b.within));
  subset =
      subst (λ scopes. assert_subset (agent_scopes options.from_vc) scopes ≡ ok tt)
        (sym (fresh_scopes options did stamps vc b))
        (assert_subset_of_none (agent_scopes options.from_vc) options.scopes
          (assert_all_held-find (agent_scopes options.from_vc) options.scopes b.held));
}
  where
    le_of : (m n : ℕ) → ltb m n ≡ false → n ≤ m
    le_of m n h = ground arith

last_of :
    (xs : List SignedVc) (leaf root : SignedVc) (rest : List SignedVc)
    → xs ++ leaf ∷ [] ≡ root ∷ rest
    → last root rest ≡ leaf
last_of [] leaf root rest e =
    let here : leaf ≡ root = cc e in
    let none_left : [] ≡ rest = cc e in subst (λ r. last root r ≡ leaf) none_left (sym here)
last_of (x ∷ xs) leaf root rest e =
    let later : xs ++ leaf ∷ [] ≡ rest = cc e in
    subst (λ r. last root r ≡ leaf) later (last_snoc root xs leaf)

-- the tests of the root in `check_chain`, and the loop
check_chain-snoc :
    (root : SignedVc) (rest : List SignedVc) (vc : SignedVc)
    → check_chain (root ∷ rest) ≡ ok tt
    → (Linked (or_zero (body root).subject.max_delegation_depth) 1 root rest
        → or_zero (body root).subject.delegation_depth ≡ 0
        → check_link
            (or_zero (body root).subject.max_delegation_depth)
            (1 + length rest)
            (last root rest)
            vc
          ≡ ok tt)
    → check_chain (root ∷ (rest ++ vc ∷ [])) ≡ ok tt
unfolding check_chain
check_chain-snoc root rest vc h next =
    let depth = or_zero (body root).subject.delegation_depth in
    let m = or_zero (body root).subject.max_delegation_depth in
    let (a, h1) = guard-eq-ok ((body root).issuer === (body root).subject.id) _ _ h in
    let (b, h2) = guard-eq-ok (not (depth == 0)) _ _ h1 in
    rw (a, b)
      (check_links_snoc m 1 root rest vc h2
        (next (check_links-Linked m 1 root rest h2) (==→eq depth 0 (not-eq-false _ b))))

-- The holder of a credential whose chain passes the verifier's chain checks passes on some of its scopes:
-- the new credential names those scopes only, all of them held, and its chain passes the checks too.
pub build_delegation_vc-check_chain :
    (options : DelegateOptions) (wallet : Wallet) (stamps : Stamps) (vc root : SignedVc)
    (rest : List SignedVc)
    → delegation_chain options.from_vc ++ options.from_vc ∷ [] ≡ root ∷ rest
    → check_chain (root ∷ rest) ≡ ok tt
    → wallet.did ≡ (body options.from_vc).subject.id
    → build_delegation_vc options wallet stamps ≡ ok vc
    → (check_chain (delegation_chain vc ++ vc ∷ []) ≡ ok tt)
      × (agent_scopes vc ≡ options.scopes)
      × IsNarrower (agent_scopes vc) (agent_scopes options.from_vc)
build_delegation_vc-check_chain options wallet stamps vc root rest split checked own h =
    let b = build_delegation_vc-IsBuilt options wallet stamps vc h in
    let from = options.from_vc in
    let ends = last_of (delegation_chain from) from root rest split in
    let m = or_zero (body root).subject.max_delegation_depth in
    let scopes = fresh_scopes options wallet.did stamps vc b in
    (
      subst (λ c. check_chain (c ++ vc ∷ []) ≡ ok tt) (sym (b.chain ∙ split))
          (check_chain-snoc root rest vc checked (λ linked zero_depth.
            let (d, x) = last_depth m 1 root rest linked (ap (λ n. n + 1) zero_depth) refl in
            subst (λ p. check_link m (1 + length rest) p vc ≡ ok tt) (sym ends)
              (check_link-of_IsLink m (1 + length rest) from vc (
                fresh-IsLink m (1 + length rest) options wallet.did stamps vc b own
                  (subst (λ p. or_zero (body p).subject.delegation_depth + 1 ≡ 1 + length rest) ends
                    d)
                  (subst (λ p. or_zero (body p).subject.max_delegation_depth ≡ m) ends x))))),
      scopes,
      subst (λ x. IsNarrower x (agent_scopes from)) (sym scopes)
          (assert_all_held-IsNarrower (agent_scopes from) options.scopes b.held),
    )
