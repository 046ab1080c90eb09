-- ===== src/Verifier/Links.antt =====
-- What `verifyDelegationChain` of core/vp-verifier.ts establishes of a chain, and what it lets through.
use helix_core.Prelude.{
  ℕ, ◌+◌, ◌≤◌, ◌≡◌, refl, ◌∙◌, ap, String, Option, none, some, List, [], ◌∷◌, ◌++◌, Bool, true,
  false, not, ltb, ==→eq, ===→eq, Option-cases, inl, inr, arith, includes, Has, find-eq-none,
  find-eq-some, find, length, All, subst,
}
use helix_core.Result.{Result, ok, >>-eq-ok, guard-eq-ok, throw_if-eq-ok}
use helix_core.Text.{truthy}
use helix_core.Credential.{SignedVc, body, or_zero, agent_scopes}
use helix_core.Verifier.Chain.{
  denied_scope, assert_subset, is_text, is_number, check_link, check_links,
}

-- Every scope of `child` is one of `parent`.
abbrev pub IsNarrower : List String → List String → Type 0
IsNarrower child parent = (scope : String) → Has child scope → Has parent scope

empty_of_falsy : (s : String) → truthy (some s) ≡ false → s ≡ ""
empty_of_falsy String.[] h = refl
empty_of_falsy (String.◌∷◌ c s) h = cc

-- A child with no empty scope that passes the verifier's subset test holds only scopes of the parent.
pub assert_subset-IsNarrower :
    (parent child : List String)
    → includes child "" ≡ false
    → assert_subset parent child ≡ ok tt
    → IsNarrower child parent
unfolding assert_subset
assert_subset-IsNarrower parent child named h = elim (Option-cases (find missing child)) [
  | inl nothing ↦ λ scope m. held scope (find-eq-none missing child scope nothing m)
  | inr (d, found) ↦
      let falsy =
        throw_if-eq-ok (truthy (some d)) _ (subst (λ o. denied_scope o ≡ ok tt) found h) in
      let m = (find-eq-some missing child d found).0 in
      absurd (no (subst (Has child) (empty_of_falsy d falsy) m))
]
  where
    missing : String → Bool
    missing scope = not (includes parent scope)

    held : (scope : String) → missing scope ≡ false → Has parent scope
    held scope e = ground (arith, e)

    no : ¬ (Has child "")
    no m = cc

-- A parent's missing scope goes unnoticed behind an empty one: a child whose first scope is the empty
-- string passes the subset test with any further scopes, if the parent does not hold the empty string.
pub assert_subset_bypass :
    (parent extra : List String)
    → includes parent "" ≡ false
    → assert_subset parent ("" ∷ extra) ≡ ok tt
unfolding assert_subset
assert_subset_bypass parent extra h = ground (arith, h)

-- What one pass of the loop over neighbours establishes.
pub record IsLink (max_depth index : ℕ) (parent child : SignedVc) : Type 0 where
  pub issuer : (body child).issuer ≡ (body parent).subject.id
  pub delegated_from : (body child).subject.delegated_from ≡ some (body parent).subject.id
  pub parent_vc_id : (body child).subject.parent_vc_id ≡ some (body parent).id
  pub delegation_depth : (body child).subject.delegation_depth ≡ some index
  pub max_delegation_depth : (body child).subject.max_delegation_depth ≡ some max_depth
  pub within : index ≤ max_depth
  pub subset : assert_subset (agent_scopes parent) (agent_scopes child) ≡ ok tt

pub not-eq-false : (b : Bool) → not b ≡ false → b ≡ true
not-eq-false true h = refl
not-eq-false false h = cc

is_text→eq : (o : Option String) (t : String) → not (is_text o t) ≡ false → o ≡ some t
is_text→eq none t h = cc
is_text→eq (some s) t h = ap some (===→eq s t (not-eq-false _ h))

is_number→eq : (o : Option ℕ) (n : ℕ) → not (is_number o n) ≡ false → o ≡ some n
is_number→eq none n h = cc
is_number→eq (some m) n h = ap some (==→eq m n (not-eq-false _ h))

depth_within :
    (max_depth index : ℕ) (o : Option ℕ)
    → o ≡ some index
    → ltb max_depth (or_zero o) ≡ false
    → index ≤ max_depth
depth_within max_depth index none e h = cc
depth_within max_depth index (some m) e h = ground arith

check_link-IsLink :
    (max_depth index : ℕ) (parent child : SignedVc)
    → check_link max_depth index parent child ≡ ok tt
    → IsLink max_depth index parent child
unfolding check_link
check_link-IsLink max_depth index parent child h =
    let (a, h1) = guard-eq-ok _ _ _ h in
    let (b, h2) = guard-eq-ok _ _ _ h1 in
    let (c, h3) = guard-eq-ok _ _ _ h2 in
    let (d, h4) = guard-eq-ok _ _ _ h3 in
    let (e, h5) = guard-eq-ok _ _ _ h4 in
    let (f, h6) = guard-eq-ok _ _ _ h5 in
    let depth = is_number→eq _ index d in
    record {
      issuer = ===→eq _ _ (not-eq-false _ a);
      delegated_from = is_text→eq _ _ b;
      parent_vc_id = is_text→eq _ _ c;
      delegation_depth = depth;
      max_delegation_depth = is_number→eq _ max_depth e;
      within = depth_within max_depth index (body child).subject.delegation_depth depth f;
      subset = h6;
    }

-- Every neighbour in the chain below `parent` is linked.
abbrev pub Linked : ℕ → ℕ → SignedVc → List SignedVc → Type 0
Linked max_depth index parent [] = Unit
Linked max_depth index parent (child ∷ rest) =
    IsLink max_depth index parent child × Linked max_depth (index + 1) child rest

pub check_links-Linked :
    (max_depth index : ℕ) (parent : SignedVc) (rest : List SignedVc)
    → check_links max_depth index parent rest ≡ ok tt
    → Linked max_depth index parent rest
unfolding check_links
check_links-Linked max_depth index parent [] h = tt
check_links-Linked max_depth index parent (child ∷ rest) h =
    let (_, here, later) = >>-eq-ok _ _ h in
    (
      check_link-IsLink max_depth index parent child (unit_ok _ here),
      check_links-Linked max_depth (index + 1) child rest later,
    )
  where
    unit_ok : (m : Result (Unit {0})) {u : Unit {0}} → m ≡ ok u → m ≡ ok tt
    unit_ok m e = e

-- The last credential of a chain.
abbrev pub last : SignedVc → List SignedVc → SignedVc
last parent [] = parent
last parent (child ∷ rest) = last child rest

pub last_snoc :
    (parent : SignedVc) (xs : List SignedVc) (leaf : SignedVc)
    → last parent (xs ++ leaf ∷ []) ≡ leaf
last_snoc parent [] leaf = refl
last_snoc parent (x ∷ xs) leaf = last_snoc x xs leaf

-- A credential of a chain lists no empty scope.
abbrev pub IsNamed : SignedVc → Type 0
IsNamed vc = includes (agent_scopes vc) "" ≡ false

-- Down a linked chain scopes only shrink: what the last one holds, all above it hold.
pub Linked-narrow :
    (max_depth index : ℕ) (parent : SignedVc) (rest : List SignedVc) (scope : String)
    → Linked max_depth index parent rest
    → All IsNamed rest
    → Has (agent_scopes (last parent rest)) scope
    → All (λ vc. Has (agent_scopes vc) scope) (parent ∷ rest)
Linked-narrow max_depth index parent [] scope l n h = (h, tt)
Linked-narrow max_depth index parent (child ∷ rest) scope (l, ls) (n, ns) h =
    let below = Linked-narrow max_depth (index + 1) child rest scope ls ns h in
    (assert_subset-IsNarrower _ _ n l.subset scope below.0, below)

-- The last depth counts the links.
pub Linked-depth :
    (max_depth index : ℕ) (parent : SignedVc) (rest : List SignedVc) {d : ℕ}
    → (body parent).subject.delegation_depth ≡ some d
    → d + 1 ≡ index
    → d ≤ max_depth
    → Linked max_depth index parent rest
    → (or_zero (body (last parent rest)).subject.delegation_depth ≡ d + length rest)
      × (d + length rest ≤ max_depth)
Linked-depth max_depth index parent [] {d} e i w l = (rw e (omega arith), omega arith)
Linked-depth max_depth index parent (child ∷ rest) {d} e i w (l, ls) =
    let (p, q) =
      Linked-depth max_depth (index + 1) child rest l.delegation_depth refl l.within ls in
    (p ∙ omega arith, omega arith)
