-- ===== src/DidResolver/Laws.antt =====
-- What resolving a DID gives (core/did-resolver.ts).
use helix_core.Prelude.{
  ℕ, ◌+◌, ◌<◌, ◌≤◌, ◌≡◌, refl, ap, ◌∙◌, String, none, some, List, [], ◌∷◌, ◌++◌, true, false, ◌===◌,
  leb, length, All, inl, inr, arith, at_key, put, at_key-put_self, at_key-drop_self, drop_key,
}
use helix_core.Text.{codes, after_z, after_prefix}
use helix_core.Result.{ok}
use helix_core.Base58
use helix_core.Base58.RoundTrip.{decode-encode}
use helix_core.DidDocument.{
  DidDocument, extract_public_key, multibase_to_public_key, public_key_to_multibase,
}
use helix_core.DidDocument.Build.{build_did_document}
use helix_core.DidDocument.Laws.{multibase_to_public_key-public_key_to_multibase}
use helix_core.DidResolver.{
  CachedDocument, DidCache, unexpired, get_cached, set_cached, resolve_did, evict_did_cache,
  did_web_ttl_ms, by_method,
}
use helix_core.DidResolver.Key.{
  slice_from, is_ed25519_key, of_fingerprint, key_document, resolve_did_key,
}
use helix_core.DidResolver.Web.{Network, resolve_did_web}

key_document_of_key :
    (text_of : List ℕ → String) (did : String) (key : List ℕ)
    → length key ≡ 32
    → key_document text_of did (0xed ∷ 0x01 ∷ key) ≡ ok (build_did_document text_of did key [])
unfolding key_document
key_document_of_key text_of did key long = rw (long, is_ed25519_key) refl

of_fingerprint-encode :
    (text_of : List ℕ → String) (did : String) (key : List ℕ)
    → All (λ byte. byte < 256) key
    → length key ≡ 32
    → of_fingerprint text_of did (some (Base58.encode (0xed ∷ 0x01 ∷ key)))
      ≡ ok (build_did_document text_of did key [])
of_fingerprint-encode text_of did key bytes long =
    rw
      (decode-encode (0xed ∷ 0x01 ∷ key) (omega arith, (omega arith, bytes))
        (inr (inl (omega arith))))
      (key_document_of_key text_of did key long)

extract_public_key-build_did_document :
    (text_of : List ℕ → String) (did : String) (key : List ℕ)
    → codes (text_of (public_key_to_multibase key)) ≡ public_key_to_multibase key
    → extract_public_key (build_did_document text_of did key [])
      ≡ multibase_to_public_key (public_key_to_multibase key)
unfolding extract_public_key build_did_document ◌===◌
extract_public_key-build_did_document text_of did key written = ap multibase_to_public_key written

-- Resolving the did:key of a 32-byte key, when the platform writes the multibase text of that key as it is,
-- gives the document that is built from the key, and the key read back from that document is the key.
pub resolve_did_key-public_key_to_multibase :
    (text_of : List ℕ → String) (did : String) (key : List ℕ)
    → All (λ byte. byte < 256) key
    → length key ≡ 32
    → codes did ≡ codes "did:key:" ++ public_key_to_multibase key
    → codes (text_of (public_key_to_multibase key)) ≡ public_key_to_multibase key
    → (resolve_did_key text_of did ≡ ok (build_did_document text_of did key []))
      × (extract_public_key (build_did_document text_of did key []) ≡ ok key)
unfolding resolve_did_key public_key_to_multibase
resolve_did_key-public_key_to_multibase text_of did key bytes long named written = (
  ap (λ s. of_fingerprint text_of did (after_z (slice_from 8 s))) named
      ∙ of_fingerprint-encode text_of did key bytes long,
  extract_public_key-build_did_document text_of did key written
      ∙ multibase_to_public_key-public_key_to_multibase key bytes,
)

get_cached_fresh :
    (now : ℕ) (did : String) (entry : CachedDocument) (cache : DidCache)
    → at_key did cache ≡ some entry
    → leb entry.expires_at now ≡ false
    → get_cached now did cache ≡ (ok (some entry.doc), cache)
unfolding get_cached
get_cached_fresh now did entry cache here fresh = rw (here, unexpired) (rw fresh refl)

get_cached_expired :
    (now : ℕ) (did : String) (entry : CachedDocument) (cache : DidCache)
    → at_key did cache ≡ some entry
    → leb entry.expires_at now ≡ true
    → get_cached now did cache ≡ (ok none, drop_key did cache)
unfolding get_cached
get_cached_expired now did entry cache here late = rw (here, unexpired) (rw late refl)

get_cached_absent :
    (now : ℕ) (did : String) (cache : DidCache)
    → at_key did cache ≡ none
    → get_cached now did cache ≡ (ok none, cache)
unfolding get_cached
get_cached_absent now did cache here = rw here refl

module _ (network : Network) where
  by_method_web :
      (now : ℕ) (did : String) (rest : List ℕ) (doc : DidDocument) (cache : DidCache)
      → after_prefix (codes "did:key:") (codes did) ≡ none
      → after_prefix (codes "did:web:") (codes did) ≡ some rest
      → resolve_did_web network did ≡ ok doc
      → by_method network now did cache
        ≡ (ok doc, put did (record { doc = doc; expires_at = now + did_web_ttl_ms }) cache)
  unfolding by_method set_cached
  by_method_web now did rest doc cache not_key web fetched =
      rw (not_key, by_method) (rw (web, by_method) (rw fetched refl))

  resolve_did_miss :
      (now : ℕ) (did : String) (cache middle : DidCache)
      → get_cached now did cache ≡ (ok none, middle)
      → resolve_did network now did cache ≡ by_method network now did middle
  unfolding resolve_did
  resolve_did_miss now did cache middle misses = rw misses refl

  resolve_did_hit :
      (now : ℕ) (did : String) (doc : DidDocument) (cache middle : DidCache)
      → get_cached now did cache ≡ (ok (some doc), middle)
      → resolve_did network now did cache ≡ (ok doc, middle)
  unfolding resolve_did
  resolve_did_hit now did doc cache middle hits = rw hits refl

-- A did:web document that is not cached and that the network has is resolved and cached. For five minutes it
-- is the answer, whatever the network says then; at any time after that, and after the DID has been evicted,
-- the network is asked again.
pub resolve_did_until_expired :
    (network other : Network) (now later expired : ℕ) (did : String) (rest : List ℕ)
    (doc : DidDocument) (cache : DidCache)
    → after_prefix (codes "did:key:") (codes did) ≡ none
    → after_prefix (codes "did:web:") (codes did) ≡ some rest
    → at_key did cache ≡ none
    → resolve_did_web network did ≡ ok doc
    → later < now + did_web_ttl_ms
    → now + did_web_ttl_ms ≤ expired
    → (after : DidCache) × (resolve_did network now did cache ≡ (ok doc, after))
      × (resolve_did other later did after ≡ (ok doc, after))
      × (resolve_did other expired did after ≡ by_method other expired did (drop_key did after))
      × (resolve_did other later did (evict_did_cache did after).1
          ≡ by_method other later did (drop_key did after))
unfolding evict_did_cache
resolve_did_until_expired network other now later expired did rest doc cache not_key web absent
      fetched soon over =
    let entry : CachedDocument = record { doc = doc; expires_at = now + did_web_ttl_ms } in
    let after : DidCache = put did entry cache in
    let here : at_key did after ≡ some entry = at_key-put_self did entry cache in
    (
      after,
      resolve_did_miss network now did cache cache (get_cached_absent now did cache absent)
          ∙ by_method_web network now did rest doc cache not_key web fetched,
      resolve_did_hit other later did doc after after
          (get_cached_fresh later did entry after here (ground (arith, soon))),
      resolve_did_miss other expired did after (drop_key did after)
          (get_cached_expired expired did entry after here (ground (arith, over))),
      resolve_did_miss other later did (drop_key did after) (drop_key did after)
          (get_cached_absent later did (drop_key did after) (at_key-drop_self did after)),
    )
