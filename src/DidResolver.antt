-- ===== src/DidResolver.antt =====
-- core/did-resolver.ts: resolving a DID by its method, with the resolver's own cache of documents. Text that
-- is taken apart is the list of its code points.
pub mod Key
pub mod Web
pub mod Laws
pub mod Secure
mod Tests
use helix_core.Prelude.{
  ℕ, ◌+◌, ◌*◌, String, Option, none, some, List, [], ◌∷◌, leb, at_key, put, drop_key, true, false,
}
use helix_core.Text.{codes, after_prefix}
use helix_core.Errors.{unsupported_did_method, did_method_not_available}
use helix_core.Result.{Result}
use helix_core.Action.{Action, resolve, reject, call, read, write, ◌>>=◌, ◌>>◌}
use helix_core.DidDocument.{DidDocument}
use helix_core.Verifier.Host.{error}
use helix_core.DidResolver.Key.{resolve_did_key}
use helix_core.DidResolver.Web.{Network, resolve_did_web}

-- `DID_WEB_TTL_MS` and `DID_HEDERA_TTL_MS`
abbrev pub did_web_ttl_ms : ℕ
did_web_ttl_ms = 5 * 60 * 1000

abbrev pub did_hedera_ttl_ms : ℕ
did_hedera_ttl_ms = 15 * 60 * 1000

-- an entry of `cache`
pub record CachedDocument : Type 0 where
  pub doc : DidDocument
  pub expires_at : ℕ

-- `cache`
abbrev pub DidCache : Type 0
DidCache = List (String × CachedDocument)

-- `getCached`, after the look-up
abbrev pub unexpired : ℕ → String → Option CachedDocument → Action DidCache (Option DidDocument)
unexpired now did none = resolve none
unexpired now did (some cached) = elim (leb cached.expires_at now) [
  | true ↦ do write (drop_key did); resolve none
  | false ↦ resolve (some cached.doc)
]

-- `getCached`
unfoldable pub get_cached : ℕ → String → Action DidCache (Option DidDocument)
get_cached now did = do cached ← read (at_key did); unexpired now did cached

-- `setCached`
unfoldable pub set_cached : ℕ → String → DidDocument → ℕ → Action DidCache DidDocument
set_cached now did doc ttl_ms = do
  write (put did (record { doc = doc; expires_at = now + ttl_ms }))
  resolve doc

-- `resolveDidHedera`; the resolver is there when its package is installed
unfoldable pub resolve_did_hedera :
    Option (String → Result DidDocument) → String → Action DidCache DidDocument
resolve_did_hedera none did = reject (
    error did_method_not_available
      ("did:hedera resolution requires: npm install @helixid/did-hedera" ∷ []))
resolve_did_hedera (some resolve_hedera) did = call (resolve_hedera did)

module _ (network : Network) where
  -- the tests of the method, in their order
  unfoldable pub by_method : ℕ → String → Action DidCache DidDocument
  by_method now did = elim (after_prefix (codes "did:key:") (codes did)) [
    | some fingerprint ↦ call (resolve_did_key network.text_of did)
    | none ↦ elim (after_prefix (codes "did:web:") (codes did)) [
      | some rest ↦ do
        doc ← call (resolve_did_web network did)
        set_cached now did doc did_web_ttl_ms
      | none ↦ elim (after_prefix (codes "did:hedera:") (codes did)) [
        | some rest ↦ do
          doc ← resolve_did_hedera network.resolve_hedera did
          set_cached now did doc did_hedera_ttl_ms
        | none ↦ reject (error unsupported_did_method (did ∷ []))
      ]
    ]
  ]

  abbrev or_by_method : ℕ → String → Option DidDocument → Action DidCache DidDocument
  or_by_method now did none = by_method now did
  or_by_method now did (some cached) = resolve cached

  -- `resolveDID`
  unfoldable pub resolve_did : ℕ → String → Action DidCache DidDocument
  unfolding get_cached
  resolve_did now did = do cached ← get_cached now did; or_by_method now did cached

-- `clearDIDCache`
unfoldable pub clear_did_cache : Action DidCache (Unit {0})
clear_did_cache = write (λ cache. [])

-- `evictDIDCache`
unfoldable pub evict_did_cache : String → Action DidCache (Unit {0})
evict_did_cache did = write (drop_key did)
