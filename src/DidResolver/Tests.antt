-- ===== src/DidResolver/Tests.antt =====
-- A did:key, and a did:web on a network that has its document.
use helix_core.Prelude.{
  ℕ, zero, suc, ◌<◌, ◌≡◌, refl, ap, String, none, some, List, [], ◌∷◌, ◌++◌, ◌===◌, true, replicate,
  All, arith, drop_key, at_key,
}
use helix_core.Text.{codes}
use helix_core.Errors.{plain}
use helix_core.Base58
use helix_core.Result.{ok, throw}
use helix_core.DidDocument.{extract_public_key, public_key_to_multibase}
use helix_core.DidDocument.Build.{build_did_document}
use helix_core.DidResolver.{CachedDocument, DidCache, resolve_did, evict_did_cache, by_method}
use helix_core.DidResolver.Key.{resolve_did_key}
use helix_core.DidResolver.Web.{
  Network, is_loopback_host, host_and_path, decode_parts, apply_loopback_resolve_override,
  override_host, did_web_to_url, resolve_did_web,
}
use helix_core.DidResolver.Laws.{resolve_did_key-public_key_to_multibase, resolve_did_until_expired}
use helix_core.DidResolver.Secure.{IsSecure, did_web_to_url-IsSecure}
use helix_core.Verifier.Fixture.{document}

-- a key of 32 bytes, and its multibase text
abbrev key : List ℕ
key =
    7 ∷ 7 ∷ 7 ∷ 7 ∷ 7 ∷ 7 ∷ 7 ∷ 7 ∷ 7 ∷ 7 ∷ 7 ∷ 7 ∷ 7 ∷ 7 ∷ 7 ∷ 7 ∷ 7 ∷ 7 ∷ 7 ∷ 7 ∷ 7 ∷ 7 ∷ 7 ∷ 7
    ∷ 7 ∷ 7 ∷ 7 ∷ 7 ∷ 7 ∷ 7 ∷ 7 ∷ 7 ∷ []

sevens_below : (n : ℕ) → All (λ byte. byte < 256) (replicate n 7)
sevens_below zero = tt
sevens_below (suc n) = (omega arith, sevens_below n)

written : codes "z6Mkevh7bMWWUda468bFjfFGtDxLXgkG8L46bsaXEwHD9Z3L" ≡ public_key_to_multibase key
unfolding public_key_to_multibase Base58.encode
written = refl

abbrev text_of : List ℕ → String
text_of text = "z6Mkevh7bMWWUda468bFjfFGtDxLXgkG8L46bsaXEwHD9Z3L"

abbrev did_key : String
did_key = "did:key:z6Mkevh7bMWWUda468bFjfFGtDxLXgkG8L46bsaXEwHD9Z3L"

resolve_did_key-public_key_to_multibase_example :
    (resolve_did_key text_of did_key ≡ ok (build_did_document text_of did_key key []))
    × (extract_public_key (build_did_document text_of did_key key []) ≡ ok key)
resolve_did_key-public_key_to_multibase_example =
    resolve_did_key-public_key_to_multibase text_of did_key key (sevens_below 32) refl
      (ap (λ text. codes "did:key:" ++ text) written) written

abbrev did_web : String
did_web = "did:web:a.b"

-- a network that has the document of every DID
abbrev network : Network
network = record {
  text_of = text_of;
  number_text = λ n. "200";
  decode_uri_component = λ part. ok part;
  url_hostname = λ url. some (codes "a.b");
  with_hostname = λ url host. url;
  resolve_host = none;
  fetch = λ url. ok (record {
    ok = true;
    status = 200;
    json =
        ok (record {
          id = some "did:web:a.b";
          has_methods = true;
          document = document "did:web:a.b";
        });
  });
  resolve_hedera = none;
}

-- and one that has none
abbrev offline : Network
offline = record network { fetch = λ url. throw (plain "offline") }

its_url : did_web_to_url network did_web ≡ ok (codes "https://a.b/.well-known/did.json")
unfolding did_web_to_url decode_parts host_and_path is_loopback_host apply_loopback_resolve_override
    override_host
its_url = refl

fetched : resolve_did_web network did_web ≡ ok (document did_web)
unfolding resolve_did_web did_web_to_url decode_parts host_and_path is_loopback_host
    apply_loopback_resolve_override override_host ◌===◌
fetched = refl

did_web_to_url-IsSecure_example :
    IsSecure network did_web (codes "https://a.b/.well-known/did.json")
did_web_to_url-IsSecure_example =
    did_web_to_url-IsSecure network did_web (codes "https://a.b/.well-known/did.json") refl its_url

empty : at_key {V = CachedDocument} did_web [] ≡ none
unfolding at_key
empty = refl

resolve_did_until_expired_example :
    (after : DidCache) × (resolve_did network 10 did_web [] ≡ (ok (document did_web), after))
    × (resolve_did offline 400 did_web after ≡ (ok (document did_web), after))
    × (resolve_did offline 999999 did_web after
        ≡ by_method offline 999999 did_web (drop_key did_web after))
    × (resolve_did offline 400 did_web (evict_did_cache did_web after).1
        ≡ by_method offline 400 did_web (drop_key did_web after))
resolve_did_until_expired_example =
    resolve_did_until_expired network offline 10 400 999999 did_web (codes "a.b") (document did_web)
      [] refl refl empty fetched (omega arith) (omega arith)
