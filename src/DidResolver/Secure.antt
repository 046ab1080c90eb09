-- ===== src/DidResolver/Secure.antt =====
-- The URL that a did:web is fetched from (core/did-resolver.ts).
use helix_core.Prelude.{
  ℕ, ◌≡◌, refl, sym, ◌∙◌, String, none, some, List, [], ◌∷◌, ◌++◌, true, Option-cases, Bool-cases,
  or_cases, arith, ◌⊎◌, inl, inr, map, subst, ◌||◌, ◌==◌,
}
use helix_core.Text.{codes, split, lower, equal_text, join_pieces}
use helix_core.Result.{ok, throw, >>=-eq-ok, ok-injective}
use helix_core.DidResolver.Web.{
  Network, is_loopback_host, host_and_path, override_host, apply_loopback_resolve_override,
  web_parts, invalid_did_web, decode_parts, did_path, plain_url, url_of_host, decoded_url,
  did_web_to_url,
}

module _ (network : Network) where
  -- The names of this machine, in any case.
  abbrev pub IsLoopback : List ℕ → Type 0
  IsLoopback hostname =
      (map lower hostname ≡ codes "localhost")
      ⊎ (map lower hostname ≡ codes "127.0.0.1")
      ⊎ (map lower hostname ≡ codes "::1")

  -- The URL of a host, whose own hostname it asks, and of the path of a did:web, which starts with a slash.
  abbrev pub IsSecureAt : List ℕ → List ℕ → List ℕ → Type 0
  IsSecureAt url host hostname =
      (tail : List ℕ) × ((url ≡ codes "https://" ++ host ++ b'/' ∷ tail)
        ⊎ ((url ≡ codes "http://" ++ host ++ b'/' ∷ tail) × IsLoopback hostname))

  -- A URL whose host is that of the decoded DID, and whose scheme is `http` only if the hostname of that host
  -- is a loopback name.
  pub record IsSecure (did : String) (url : List ℕ) : Type 0 where
    pub parts : List (List ℕ)
    pub named : web_parts did (split b':' (codes did)) ≡ ok parts
    pub first : List ℕ
    pub path : List (List ℕ)
    pub decoded : decode_parts network parts ≡ ok (first ∷ path)
    pub hostname : List ℕ
    pub asked :
        network.url_hostname (codes "http://" ++ (host_and_path first path).0) ≡ some hostname
    pub secure : IsSecureAt url (host_and_path first path).0 hostname

  equal_text-eq : (s t : List ℕ) → equal_text s t ≡ true → s ≡ t
  equal_text-eq [] [] h = refl
  equal_text-eq [] (d ∷ t) h = cc h
  equal_text-eq (c ∷ s) [] h = cc h
  equal_text-eq (c ∷ s) (d ∷ t) h = elim (Bool-cases (c == d)) [
    | inl e ↦
        let same : c ≡ d = ground (arith, e) in
        let rest : s ≡ t = equal_text-eq s t (rw e at h) in cc (same, rest)
    | inr e ↦ cc (rw e at h)
  ]

  is_loopback_host-IsLoopback :
      (hostname : List ℕ) → is_loopback_host hostname ≡ true → IsLoopback hostname
  unfolding is_loopback_host
  is_loopback_host-IsLoopback hostname h =
      elim (or_cases
        (equal_text (map lower hostname) (codes "localhost")
          || equal_text (map lower hostname) (codes "127.0.0.1"))
        (equal_text (map lower hostname) (codes "::1")) h) [
          | inr e ↦ inr (inr (equal_text-eq _ _ e))
          | inl e ↦ elim (or_cases _ _ e) [
            | inl a ↦ inl (equal_text-eq _ _ a)
            | inr b ↦ inr (inl (equal_text-eq _ _ b))
          ]
        ]

  slash : (path : List (List ℕ)) → (tail : List ℕ) × (did_path path ≡ b'/' ∷ tail)
  slash [] = (codes ".well-known/did.json", refl)
  slash (part ∷ more) = (join_pieces (b'/' ∷ []) (part ∷ more) ++ codes "/did.json", refl)

  plain_url-IsSecureAt :
      (hostname host : List ℕ) (path : List (List ℕ))
      → IsSecureAt (plain_url network hostname host path) host hostname
  plain_url-IsSecureAt hostname host path =
      let (tail, starts) = slash path in
      elim (Bool-cases (is_loopback_host hostname)) [
        | inl e ↦
            (tail, inr (rw (e, plain_url) (rw starts refl), is_loopback_host-IsLoopback hostname e))
        | inr e ↦ (tail, inl (rw (e, plain_url) (rw starts refl)))
      ]

  url_of_none :
      (did : String) (host : List ℕ) (path : List (List ℕ))
      → network.url_hostname (codes "http://" ++ host) ≡ none
      → url_of_host network did (host, path) ≡ throw (invalid_did_web did)
  url_of_none did host path h = rw (h, url_of_host) refl

  url_of_some :
      (did : String) (host hostname : List ℕ) (path : List (List ℕ))
      → network.resolve_host ≡ none
      → network.url_hostname (codes "http://" ++ host) ≡ some hostname
      → url_of_host network did (host, path) ≡ ok (plain_url network hostname host path)
  unfolding apply_loopback_resolve_override override_host
  url_of_some did host hostname path plainly h = rw (h, url_of_host) (rw plainly refl)

  url_of-IsSecureAt :
      (did : String) (host : List ℕ) (path : List (List ℕ)) (url : List ℕ)
      → network.resolve_host ≡ none
      → url_of_host network did (host, path) ≡ ok url
      → (hostname : List ℕ) × (network.url_hostname (codes "http://" ++ host) ≡ some hostname)
        × IsSecureAt url host hostname
  url_of-IsSecureAt did host path url plainly found =
      elim (Option-cases (network.url_hostname (codes "http://" ++ host))) [
        | inl h ↦ cc (found, url_of_none did host path h)
        | inr (hostname, h) ↦ (
          hostname,
          h,
          subst (λ u. IsSecureAt u host hostname)
              (ok-injective (sym (url_of_some did host hostname path plainly h) ∙ found))
              (plain_url-IsSecureAt hostname host path),
        )
      ]

  decoded_url-IsSecure :
      (did : String) (parts decoded : List (List ℕ)) (url : List ℕ)
      → network.resolve_host ≡ none
      → web_parts did (split b':' (codes did)) ≡ ok parts
      → decode_parts network parts ≡ ok decoded
      → decoded_url network did decoded ≡ ok url
      → IsSecure did url
  decoded_url-IsSecure did parts [] url plainly named read found = cc found
  decoded_url-IsSecure did parts ([] ∷ path) url plainly named read found = cc found
  decoded_url-IsSecure did parts ((c ∷ host) ∷ path) url plainly named read found =
      let here = host_and_path (c ∷ host) path in
      let (hostname, asked, secure) = url_of-IsSecureAt did here.0 here.1 url plainly found in
      record {
        parts = parts;
        named = named;
        first = c ∷ host;
        path = path;
        decoded = read;
        hostname = hostname;
        asked = asked;
        secure = secure;
      }

-- Without the override, the URL of a did:web is `https`, the host that the decoded DID names, and a path; or
-- `http` where the hostname that the URL parser reads from that host is localhost, 127.0.0.1 or ::1.
pub did_web_to_url-IsSecure :
    (network : Network) (did : String) (url : List ℕ)
    → network.resolve_host ≡ none
    → did_web_to_url network did ≡ ok url
    → IsSecure network did url
unfolding did_web_to_url
did_web_to_url-IsSecure network did url plainly found =
    let (parts, named, rest) = >>=-eq-ok (web_parts did (split b':' (codes did))) _ found in
    let (decoded, read, built) = >>=-eq-ok (decode_parts network parts) _ rest in
    decoded_url-IsSecure network did parts decoded url plainly named read built
