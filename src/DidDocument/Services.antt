-- ===== src/DidDocument/Services.antt =====
-- The service endpoints of a document (core/crypto/did.ts): what adding and removing one do.
use Prim.Native.String.{◌++◌ as ◌<>◌}
use helix_core.Prelude.{
  ◌≤◌, ◌<◌, ◌≡◌, refl, sym, subst, ap, String, some, List, [], ◌∷◌, ◌++◌, true, false, ◌||◌, ◌==◌,
  ◌===◌, ===_refl, ===→eq, ==_refl, length, Bool-cases, inl, inr, arith,
}
use helix_core.Errors.{plain}
use helix_core.Result.{ok, throw}
use helix_core.DidDocument.{ServiceEndpoint, DidDocument}
use helix_core.DidDocument.Build.{
  some_if_any, or_no_service, has_endpoint, without, add_endpoint, remove_endpoint,
}

or_no_service-some_if_any :
    (endpoints : List ServiceEndpoint) → or_no_service (some_if_any endpoints) ≡ endpoints
or_no_service-some_if_any [] = refl
or_no_service-some_if_any (s ∷ more) = refl

-- Filtering out an id that is not there keeps the list; one that is there makes it shorter.
without_absent :
    (id : String) (endpoints : List ServiceEndpoint)
    → has_endpoint id endpoints ≡ false
    → without id endpoints ≡ endpoints
unfolding has_endpoint without
without_absent id [] h = refl
without_absent id (s ∷ more) h = elim (Bool-cases (s.id === id)) [
  | inl e ↦ cc (h, e)
  | inr e ↦ rw (e, without) (ap (λ xs. s ∷ xs) (without_absent id more (ground arith)))
]

length-without-le :
    (id : String) (endpoints : List ServiceEndpoint)
    → length (without id endpoints) ≤ length endpoints
unfolding without
length-without-le id [] = omega arith
length-without-le id (s ∷ more) = elim (Bool-cases (s.id === id)) [
  | inl e ↦ rw (e, without) (omega (arith, length-without-le id more))
  | inr e ↦ rw (e, without) (omega (arith, length-without-le id more))
]

length-without-lt :
    (id : String) (endpoints : List ServiceEndpoint)
    → has_endpoint id endpoints ≡ true
    → length (without id endpoints) < length endpoints
unfolding has_endpoint without
length-without-lt id [] h = cc h
length-without-lt id (s ∷ more) h = elim (Bool-cases (s.id === id)) [
  | inl e ↦ rw (e, without) (omega (arith, length-without-le id more))
  | inr e ↦ rw (e, without) (omega (arith, length-without-lt id more (ground arith)))
]

has_endpoint-without :
    (id : String) (endpoints : List ServiceEndpoint)
    → has_endpoint id (without id endpoints) ≡ false
unfolding has_endpoint without
has_endpoint-without id [] = refl
has_endpoint-without id (s ∷ more) = elim (Bool-cases (s.id === id)) [
  | inl e ↦ rw (e, without) (has_endpoint-without id more)
  | inr e ↦ rw (e, without) (rw (e, has_endpoint) (has_endpoint-without id more))
]

without-append_self :
    (s : ServiceEndpoint) (endpoints : List ServiceEndpoint)
    → has_endpoint s.id endpoints ≡ false
    → without s.id (endpoints ++ s ∷ []) ≡ endpoints
unfolding has_endpoint without
without-append_self s [] h = rw (===_refl s.id, without) refl
without-append_self s (t ∷ more) h = elim (Bool-cases (t.id === s.id)) [
  | inl e ↦ cc (h, e)
  | inr e ↦ rw (e, without) (ap (λ xs. t ∷ xs) (without-append_self s more (ground arith)))
]

has_endpoint-append_self :
    (s : ServiceEndpoint) (endpoints : List ServiceEndpoint)
    → has_endpoint s.id (endpoints ++ s ∷ []) ≡ true
unfolding has_endpoint
has_endpoint-append_self s [] = rw (===_refl s.id, has_endpoint) refl
has_endpoint-append_self s (t ∷ more) = elim (Bool-cases (t.id === s.id)) [
  | inl e ↦ rw (e, has_endpoint) refl
  | inr e ↦ rw (e, has_endpoint) (has_endpoint-append_self s more)
]

has_endpoint-without_ne :
    (id other : String) (endpoints : List ServiceEndpoint)
    → (id === other) ≡ false
    → has_endpoint other (without id endpoints) ≡ has_endpoint other endpoints
unfolding has_endpoint without
has_endpoint-without_ne id other [] h = refl
has_endpoint-without_ne id other (s ∷ more) h = elim (Bool-cases (s.id === id)) [
  | inl e ↦
      let apart : (s.id === other) ≡ false =
        subst (λ i. (i === other) ≡ false) (sym (===→eq s.id id e)) h in
      rw (e, without) (rw (apart, has_endpoint) (has_endpoint-without_ne id other more h))
  | inr e ↦
      rw (e, without) (ap (λ b. (s.id === other) || b) (has_endpoint-without_ne id other more h))
]

-- An endpoint whose id is not in the document can be added, and removing that id again gives the document
-- back, with its endpoints as they were; an empty list of endpoints comes back as none at all.
pub remove_endpoint-add_endpoint :
    (document : DidDocument) (endpoint : ServiceEndpoint)
    → has_endpoint endpoint.id (or_no_service document.service) ≡ false
    → (added : DidDocument) × (add_endpoint document endpoint ≡ ok added)
      × (has_endpoint endpoint.id (or_no_service added.service) ≡ true)
      × (remove_endpoint added endpoint.id
          ≡ ok (record document { service = some_if_any (or_no_service document.service) }))
unfolding add_endpoint remove_endpoint
remove_endpoint-add_endpoint document endpoint absent =
    let services = or_no_service document.service in
    let shorter =
      length-without-lt endpoint.id (services ++ endpoint ∷ [])
        (has_endpoint-append_self endpoint services) in
    let test : (length (without endpoint.id (services ++ endpoint ∷ []))
          == length (services ++ endpoint ∷ []))
        ≡ false =
      ground (arith, shorter) in
    (
      record document { service = some (services ++ endpoint ∷ []) },
      rw absent refl,
      has_endpoint-append_self endpoint services,
      rw test (rw (without-append_self endpoint services absent) refl),
    )

-- Removing an endpoint by an id that the document has succeeds: no endpoint with that id is left, and an
-- endpoint with another id is in the result when it was in the document.
pub remove_endpoint_lem :
    (document : DidDocument) (id other : String)
    → has_endpoint id (or_no_service document.service) ≡ true
    → (id === other) ≡ false
    → (after : DidDocument) × (remove_endpoint document id ≡ ok after)
      × (has_endpoint id (or_no_service after.service) ≡ false)
      × (has_endpoint other (or_no_service after.service)
          ≡ has_endpoint other (or_no_service document.service))
unfolding remove_endpoint
remove_endpoint_lem document id other present apart =
    let services = or_no_service document.service in
    let shorter = length-without-lt id services present in
    let test : (length (without id services) == length services) ≡ false =
      ground (arith, shorter) in
    let back = or_no_service-some_if_any (without id services) in
    (
      record document { service = some_if_any (without id services) },
      rw test refl,
      rw back (has_endpoint-without id services),
      rw back (has_endpoint-without_ne id other services apart),
    )

-- Removing an endpoint by an id that the document does not have is rejected.
pub remove_endpoint_absent :
    (document : DidDocument) (id : String)
    → has_endpoint id (or_no_service document.service) ≡ false
    → remove_endpoint document id
      ≡ throw (plain (◌<>◌ "Service endpoint with id " (◌<>◌ id " not found")))
unfolding remove_endpoint
remove_endpoint_absent document id absent =
    rw (without_absent id (or_no_service document.service) absent)
      (rw (==_refl (length (or_no_service document.service))) refl)
