-- ===== src/VcLookup.antt =====
-- core/vc-lookup.ts: the columns that a row stores beside a credential. Strings are ordered by code
-- point.
use Prim.Native.String.{compare, ◌++◌ as ◌<>◌}
use text.Mathlib.Text.{is_le}
use helix_core.Prelude.{
  String, Option, none, some, List, [], ◌∷◌, not, ◌===◌, if◌then◌else◌, find, add_all,
}
use helix_core.Credential.{SignedVc, body}

-- `VcLookupColumns`
pub record VcLookupColumns : Type 0 where
  pub vc_type : Option String
  pub issuer_did : Option String
  pub user_did : Option String
  pub scope_key : Option String

-- one step of `.sort()`
insert_scope : String → List String → List String
insert_scope s [] = s ∷ []
insert_scope s (t ∷ ts) = if is_le (compare s t) then s ∷ t ∷ ts else t ∷ insert_scope s ts

-- `.sort()`
unfoldable pub sort_scopes : List String → List String
unfolding insert_scope
sort_scopes [] = []
sort_scopes (s ∷ ss) = insert_scope s (sort_scopes ss)

-- `normalizeScopes`
unfoldable pub normalize_scopes : List String → List String
normalize_scopes scopes = sort_scopes (add_all scopes [])

-- `.join(' ')`
unfoldable pub join : List String → String
join [] = ""
join (s ∷ []) = s
join (s ∷ t ∷ ts) = ◌<>◌ s (◌<>◌ " " (join (t ∷ ts)))

-- `scopeKey`
unfoldable pub scope_key : List String → String
unfolding normalize_scopes join
scope_key scopes = join (normalize_scopes scopes)

-- `asStringArray(subject['scopes']) ?? asStringArray(subject['privilegeScopes'])`
abbrev pub either_scopes : Option (List String) → Option (List String) → Option (List String)
either_scopes none agent = agent
either_scopes (some scopes) agent = some scopes

abbrev pub key_of : Option (List String) → Option String
key_of none = none
key_of (some scopes) = some (scope_key scopes)

-- `vcLookupColumns`
unfoldable pub vc_lookup_columns : SignedVc → VcLookupColumns
vc_lookup_columns vc = record {
  vc_type = find (λ type. not (type === "VerifiableCredential")) (body vc).types;
  issuer_did = some (body vc).issuer;
  user_did = (body vc).subject.user_did;
  scope_key = key_of (either_scopes (body vc).subject.scopes (body vc).subject.privilege_scopes);
}
