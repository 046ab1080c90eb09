-- ===== src/VcService/Fixture.antt =====
-- A service with credentials on its own list and on another's, and a state that it reaches.
use helix_core.Prelude.{
  ℕ, ◌≡◌, refl, String, none, some, List, [], ◌∷◌, true, false, at_key, put, drop_key, ◌===◌, arith,
}
use helix_core.Result.{ok}
use helix_core.Cache.{ICache, get, set}
use helix_core.Cache.Laws.{in_process}
use helix_core.Credential.{VcBody, SignedVc}
use helix_core.StatusList.{read_buffer, base64url_decode, from_url}
use helix_core.StatusList.Laws.{IsList}
use helix_core.StatusList.Tests.{letters}
use helix_core.Verifier.Fixture.{document, subject, credential, status}
use helix_core.Verifier.Host.{index}
use helix_core.VcStore.{at, VcRecord, StatusListEntryRecord, VcStore, find_status_list_by_id}
use helix_core.VcService.{
  Platform, State, default_status_list_id, points_at_default_list, get_status_list,
}
use helix_core.VcService.Coherence.{IsCoherent}
use helix_core.VcService.Reached.{Reached, here, next, asking}

abbrev pub platform : Platform
platform = record {
  issuer_did = "did:org";
  api_base_url = "https://helix";
  status_list_cache_ttl_seconds = 60;
  codec = letters;
  iso = λ t. "then";
  date_ms = λ s. some 20;
  number_of = λ s. index 3;
  index_text = λ i. "3";
  text_of = λ codes. "z12";
  sign_bytes = λ hash. ok (5 ∷ []);
  signing_public_key = ok (1 ∷ []);
  hash_vc = λ vc. [];
  ed25519_verify = λ signature hash key. ok true;
  resolve_did = λ did. ok (document did);
  register_resolved_did = λ did document kind. ok tt;
  resolve_did_core = λ did. ok (document did);
}

abbrev pub caches : ICache (List ℕ)
caches = in_process

abbrev body_of : String → String → VcBody
body_of id url =
    record (credential id "did:org" ("HelixAgentCredential" ∷ []) (subject "did:agent")) {
      credential_status = some (record status { status_list_credential = url });
    }

abbrev row_of : String → String → ℕ → VcRecord
row_of id url i = record {
  vc_id = id;
  subject_did = "did:agent";
  subject_type = "agent";
  vc_json = SignedVc.plain (body_of id url);
  privilege_scopes = some ("read" ∷ []);
  status_list_index = index i;
  expires_at = some (at 50);
  revoked_at = none;
  renewed_by_vc_id = none;
  delegated_from = none;
  delegation_depth = none;
  max_delegation_depth = none;
  parent_vc_id = none;
  vc_type = some "HelixAgentCredential";
  issuer_did = some "did:org";
  user_did = none;
  scope_key = some "read";
  created_at = 1;
  updated_at = 1;
}

abbrev pub own : VcRecord
own = row_of "vc:own" "https://helix/v1/status-list/helix-status-list-1" 3

abbrev pub other : VcRecord
other = row_of "vc:other" "https://helix/v1/status-list/helix-status-list-1" 4

abbrev pub foreign : VcRecord
foreign = row_of "vc:foreign" "https://elsewhere/status/1" 0

abbrev pub gone : VcRecord
gone = record (row_of "vc:gone" "https://elsewhere/status/1" 0) { revoked_at = some 7 }

abbrev pub list : StatusListEntryRecord
list = record {
  list_id = default_status_list_id;
  encoded_list = 192 ∷ 192 ∷ [];
  next_index = 5;
  updated_at = 1;
}

abbrev pub store : VcStore
store = record {
  vcs = ("vc:own", own) ∷ ("vc:other", other) ∷ ("vc:foreign", foreign) ∷ ("vc:gone", gone) ∷ [];
  status_lists = (default_status_list_id, list) ∷ [];
}

abbrev pub state : State caches platform
state = record { store = store; cache = []; log = [] }

pub stored_list : at_key default_status_list_id store.status_lists ≡ some list
unfolding at_key ◌===◌
stored_list = refl

pub stored_own : at_key "vc:own" store.vcs ≡ some own
unfolding at_key ◌===◌
stored_own = refl

pub stored_other : at_key "vc:other" store.vcs ≡ some other
unfolding at_key ◌===◌
stored_other = refl

pub stored_foreign : at_key "vc:foreign" store.vcs ≡ some foreign
unfolding at_key ◌===◌
stored_foreign = refl

pub stored_gone : at_key "vc:gone" store.vcs ≡ some gone
unfolding at_key ◌===◌
stored_gone = refl

pub missing : at_key "vc:none" store.vcs ≡ none
unfolding at_key ◌===◌
missing = refl

pub own_points : points_at_default_list caches platform own.vc_json ≡ true
unfolding points_at_default_list ◌===◌
own_points = refl

pub other_points : points_at_default_list caches platform other.vc_json ≡ true
unfolding points_at_default_list ◌===◌
other_points = refl

pub foreign_points : points_at_default_list caches platform foreign.vc_json ≡ false
unfolding points_at_default_list ◌===◌
foreign_points = refl

pub stored_text-IsList : IsList letters list.encoded_list (0 ∷ 0 ∷ [])
unfolding read_buffer base64url_decode from_url
stored_text-IsList = record { reads = refl; bytes = (omega arith, (omega arith, tt)) }

pub empty-IsCoherent : IsCoherent caches platform state
unfolding at_key
empty-IsCoherent key value h = cc h.1

abbrev pub asked : State caches platform
asked = (get_status_list caches platform 10 default_status_list_id state).1

pub asked-Reached : Reached caches platform state asked
asked-Reached = next here (asking 10 default_status_list_id state)

pub asked_list : at_key default_status_list_id asked.store.status_lists ≡ some list
unfolding get_status_list find_status_list_by_id get set drop_key at_key put ◌===◌
asked_list = refl

pub asked_own : at_key "vc:own" asked.store.vcs ≡ some own
unfolding get_status_list find_status_list_by_id get set drop_key at_key put ◌===◌
asked_own = refl
