-- ===== src/DidResolver/Web.antt =====
-- core/did-resolver.ts: `didWebToUrl` and `resolveDidWeb`.
use Prim.Native.String.{◌++◌ as ◌<>◌}
use helix_core.Prelude.{
  ℕ, String, Option, none, some, List, [], ◌∷◌, ◌++◌, map, Bool, false, not, ◌&&◌, ◌||◌, ◌===◌,
  if◌then◌else◌,
}
use helix_core.Text.{codes, equal_text, split, join_pieces, lower, is_number}
use helix_core.Errors.{Thrown, plain, validation}
use helix_core.Result.{Result, ok, throw, throw_if, ◌>>=◌, ◌>>◌}
use helix_core.DidDocument.{DidDocument}
use helix_core.Verifier.Host.{error}

-- A response of `fetch`: `ok`, `status`, and the body: its `id` where it is a text, whether its
-- `verificationMethod` is an array, and the document as a caller reads it.
pub record FetchedDocument : Type 0 where
  pub id : Option String
  pub has_methods : Bool
  pub document : DidDocument

pub record DidResponse : Type 0 where
  pub ok : Bool
  pub status : ℕ
  pub json : Result FetchedDocument

-- What the resolver takes from outside: `decodeURIComponent`, the WHATWG `URL` (its `hostname`, `none` when
-- the constructor throws, and the text after `hostname` is set), `fetch`, the environment variable
-- DID_WEB_LOOPBACK_RESOLVE_HOST, the decimal text of a number, and the optional Hedera resolver.
pub record Network : Type 0 where
  pub text_of : List ℕ → String
  pub number_text : ℕ → String
  pub decode_uri_component : List ℕ → Result (List ℕ)
  pub url_hostname : List ℕ → Option (List ℕ)
  pub with_hostname : List ℕ → List ℕ → List ℕ
  pub resolve_host : Option (List ℕ)
  pub fetch : List ℕ → Result DidResponse
  pub resolve_hedera : Option (String → Result DidDocument)

-- `isLoopbackHost`
unfoldable pub is_loopback_host : List ℕ → Bool
is_loopback_host hostname =
    let normalized = map lower hostname in
    equal_text normalized (codes "localhost")
    || equal_text normalized (codes "127.0.0.1")
    || equal_text normalized (codes "::1")

abbrev pub invalid_did_web : String → Thrown
invalid_did_web did = error validation (◌<>◌ "Invalid did:web DID: " did ∷ [])

-- `parts.slice(2)` when there are three parts or more, the first two `did` and `web`
abbrev pub web_parts : String → List (List ℕ) → Result (List (List ℕ))
web_parts did [] = throw (invalid_did_web did)
web_parts did (a ∷ []) = throw (invalid_did_web did)
web_parts did (a ∷ b ∷ []) = throw (invalid_did_web did)
web_parts did (a ∷ b ∷ c ∷ more) =
    if equal_text a (codes "did") && equal_text b (codes "web")
    then ok (c ∷ more)
    else throw (invalid_did_web did)

-- the host, with the port that follows a loopback host unescaped, and the rest of the path
unfoldable pub host_and_path : List ℕ → List (List ℕ) → List ℕ × List (List ℕ)
unfolding is_loopback_host
host_and_path host [] = (host, [])
host_and_path host (port ∷ more) =
    if is_loopback_host host && is_number port
    then (host ++ b':' ∷ port, more)
    else (host, port ∷ more)

abbrev pub did_path : List (List ℕ) → List ℕ
did_path [] = codes "/.well-known/did.json"
did_path (part ∷ more) = b'/' ∷ join_pieces (b'/' ∷ []) (part ∷ more) ++ codes "/did.json"

module _ (network : Network) where
  -- `parts.map(decodeURIComponent)`
  unfoldable pub decode_parts : List (List ℕ) → Result (List (List ℕ))
  decode_parts [] = ok []
  decode_parts (part ∷ more) = do
    decoded ← network.decode_uri_component part
    rest ← decode_parts more
    ok (decoded ∷ rest)

  -- `applyLoopbackResolveOverride`, given the variable; `new URL` of a text that is no URL throws
  unfoldable pub override_host : Option (List ℕ) → List ℕ → Result (List ℕ)
  unfolding is_loopback_host
  override_host none url = ok url
  override_host (some []) url = ok url
  override_host (some (c ∷ host)) url = elim (network.url_hostname url) [
    | none ↦ throw (plain "Invalid URL")
    | some hostname ↦
        if not (is_loopback_host hostname)
        then ok url
        else ok (network.with_hostname url (c ∷ host))
  ]

  -- `applyLoopbackResolveOverride`
  unfoldable pub apply_loopback_resolve_override : List ℕ → Result (List ℕ)
  apply_loopback_resolve_override url = override_host network.resolve_host url

  -- the URL without the override
  abbrev pub plain_url : List ℕ → List ℕ → List (List ℕ) → List ℕ
  plain_url hostname host path =
      (if is_loopback_host hostname then codes "http" else codes "https")
      ++ codes "://"
      ++ host
      ++ did_path path

  abbrev pub url_of_host : String → List ℕ × List (List ℕ) → Result (List ℕ)
  url_of_host did (host, path) = elim (network.url_hostname (codes "http://" ++ host)) [
    | none ↦ throw (invalid_did_web did)
    | some hostname ↦ apply_loopback_resolve_override (plain_url hostname host path)
  ]

  abbrev pub decoded_url : String → List (List ℕ) → Result (List ℕ)
  decoded_url did [] = throw (invalid_did_web did)
  decoded_url did ([] ∷ path) = throw (invalid_did_web did)
  decoded_url did ((c ∷ host) ∷ path) = url_of_host did (host_and_path (c ∷ host) path)

  -- `didWebToUrl`
  unfoldable pub did_web_to_url : String → Result (List ℕ)
  did_web_to_url did = do
    parts ← web_parts did (split b':' (codes did))
    decoded ← decode_parts parts
    decoded_url did decoded

  abbrev is_own_id : Option String → String → Bool
  is_own_id none did = false
  is_own_id (some id) did = id === did

  -- `resolveDidWeb`
  unfoldable pub resolve_did_web : String → Result DidDocument
  resolve_did_web did = do
    url ← did_web_to_url did
    response ← network.fetch url
    throw_if (not response.ok) (
        error validation
          (◌<>◌ "did:web resolution failed with HTTP " (network.number_text response.status) ∷ []))
    doc ← response.json
    throw_if (not (is_own_id doc.id did) || not doc.has_methods)
        (error validation (◌<>◌ "Invalid DID document for " did ∷ []))
    ok doc.document
