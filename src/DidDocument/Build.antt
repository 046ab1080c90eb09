-- ===== src/DidDocument/Build.antt =====
-- core/crypto/did.ts: building a document and changing its service endpoints. The text of a list of code
-- points and the decimal text of a number are parameters; a key is the list of its bytes.
use Prim.Native.String.{◌++◌ as ◌<>◌}
use helix_core.Prelude.{
  ℕ, ◌+◌, String, Option, none, some, List, [], ◌∷◌, ◌++◌, Bool, false, ◌||◌, ◌==◌, ◌===◌, length,
  if◌then◌else◌,
}
use helix_core.Errors.{plain}
use helix_core.Result.{Result, ok, throw}
use helix_core.DidDocument.{ServiceEndpoint, DidDocument, public_key_to_multibase}

-- `endpoints.length > 0 ? endpoints : undefined`
abbrev pub some_if_any : List ServiceEndpoint → Option (List ServiceEndpoint)
some_if_any [] = none
some_if_any (endpoint ∷ more) = some (endpoint ∷ more)

-- `document.service ?? []`
abbrev pub or_no_service : Option (List ServiceEndpoint) → List ServiceEndpoint
or_no_service none = []
or_no_service (some endpoints) = endpoints

-- `existing.some((s) => s.id === id)`
unfoldable pub has_endpoint : String → List ServiceEndpoint → Bool
has_endpoint id [] = false
has_endpoint id (s ∷ more) = (s.id === id) || has_endpoint id more

-- `existing.filter((s) => s.id !== id)`
unfoldable pub without : String → List ServiceEndpoint → List ServiceEndpoint
without id [] = []
without id (s ∷ more) = if s.id === id then without id more else s ∷ without id more

-- `buildDIDDocument`
unfoldable pub build_did_document :
    (List ℕ → String) → String → List ℕ → List ServiceEndpoint → DidDocument
build_did_document text_of did public_key service_endpoints =
    let verification_method_id = ◌<>◌ did "#key-1" in
    record {
      context =
          "https://www.w3.org/ns/did/v1" ∷ "https://w3id.org/security/suites/ed25519-2020/v1" ∷ [];
      id = did;
      controller = did;
      verification_method =
          record {
            id = verification_method_id;
            type = "Ed25519VerificationKey2020";
            controller = did;
            public_key_multibase = text_of (public_key_to_multibase public_key);
          }
          ∷ [];
      authentication = verification_method_id ∷ [];
      assertion_method = verification_method_id ∷ [];
      service = some_if_any service_endpoints;
    }

-- `domains.map((domain, index) => …)`, of the domains from the given index on
unfoldable pub endpoints_from : (ℕ → String) → ℕ → List String → List ServiceEndpoint
endpoints_from index_text i [] = []
endpoints_from index_text i (domain ∷ more) =
    record {
      id = ◌<>◌ "#domain-" (index_text (i + 1));
      type = "LinkedDomains";
      service_endpoint = domain;
    }
    ∷ endpoints_from index_text (i + 1) more

-- `buildServiceEndpoints`
unfoldable pub build_service_endpoints : (ℕ → String) → List String → List ServiceEndpoint
unfolding endpoints_from
build_service_endpoints index_text domains = endpoints_from index_text 0 domains

-- `addServiceEndpoint`
unfoldable pub add_endpoint : DidDocument → ServiceEndpoint → Result DidDocument
unfolding has_endpoint
add_endpoint document endpoint =
    let existing = or_no_service document.service in
    if has_endpoint endpoint.id existing
    then throw (plain (◌<>◌ "Service endpoint with id " (◌<>◌ endpoint.id " already exists")))
    else ok (record document { service = some (existing ++ endpoint ∷ []) })

-- `removeServiceEndpoint`
unfoldable pub remove_endpoint : DidDocument → String → Result DidDocument
unfolding without
remove_endpoint document endpoint_id =
    let existing = or_no_service document.service in
    let filtered = without endpoint_id existing in
    if length filtered == length existing
    then throw (plain (◌<>◌ "Service endpoint with id " (◌<>◌ endpoint_id " not found")))
    else ok (record document { service = some_if_any filtered })
