-- ===== src/StatusList/Url.antt =====
-- The letters that base64url (core/status-list/index.ts) swaps, and back.
use helix_core.Prelude.{
  ℕ, ◌≡◌, ◌≢◌, refl, List, [], ◌∷◌, map, Bool, true, false, not, ◌==◌, All, select, arith,
}
use helix_core.StatusList.{to_url, from_url}

from_url-to_url : (c : ℕ) → c ≢ b'-' → c ≢ b'_' → from_url (to_url c) ≡ c
unfolding from_url to_url
from_url-to_url c h k = ground arith

to_url_padding : (c : ℕ) → (to_url c == b'=') ≡ (c == b'=')
unfolding to_url
to_url_padding c = ground arith

pub map_url :
    (s : List ℕ)
    → All (λ c. (c ≢ b'-') × (c ≢ b'_')) s
    → map from_url (select (λ c. not (c == b'=')) (map to_url s)) ≡ select (λ c. not (c == b'=')) s
map_url [] h = refl
map_url (c ∷ s) h = step (c == b'=') (to_url_padding c) (map_url s h.1)
  where
    ap2 : {a b : ℕ} {xs ys : List ℕ} → a ≡ b → xs ≡ ys → a ∷ xs ≡ b ∷ ys
    ap2 e f = cc

    step :
        (t : Bool)
        → (to_url c == b'=') ≡ t
        → map from_url (select (λ c. not (c == b'=')) (map to_url s))
          ≡ select (λ c. not (c == b'=')) s
        → map from_url (elim (not (to_url c == b'=')) [
          | true ↦ to_url c ∷ select (λ c. not (c == b'=')) (map to_url s)
          | false ↦ select (λ c. not (c == b'=')) (map to_url s)
        ])
          ≡ elim (not t) [
            | true ↦ c ∷ select (λ c. not (c == b'=')) s
            | false ↦ select (λ c. not (c == b'=')) s
          ]
    step true e r = rw (e) r
    step false e r = rw (e) (ap2 (from_url-to_url c h.0.0 h.0.1) r)
