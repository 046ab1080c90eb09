-- ===== src/AgentService/Enrollment.antt =====
-- services/agent/agent.service.ts: `normalizeDomain` and `generateEnrollmentToken`;
-- core/schemas/privilegeScopes.ts: `parseScopes`.
use Prim.Native.String.{◌++◌ as ◌<>◌}
use helix_core.Prelude.{
  ℕ, zero, suc, String, Option, none, some, List, [], ◌∷◌, ◌++◌, map, Bool, true, false, not, ◌&&◌,
  ◌||◌, ◌==◌, ◌===◌, leb, if◌then◌else◌, add_all,
}
use helix_core.Text.{codes, truthy, after_prefix, lower, is_digit}
use helix_core.Errors.{coded}
use helix_core.Result.{Result, ok, throw}
use helix_core.Action.{Action, resolve, call, ◌>>=◌, ◌>>◌}
use helix_core.Scopes.{is_separator, find_scope_problem}
use helix_core.Verifier.Host.{JsNumber, index, negative, not_integer}
use helix_core.AgentStore.{create_enrollment_token}
use helix_core.AgentService.{
  Services, AgentPlatform, enrollment_token_generated, CustodyState, on_agents, log_agent,
}

-- the input of `generateEnrollmentToken`: `expiry` is `none` for null, undefined and '', `requested_scopes` is
-- `none` when it is no array
pub record TokenInput : Type 0 where
  pub agent_name : String
  pub requested_scopes : Option (List String)
  pub requested_domains : Option (List String)
  pub max_delegation_depth : Option ℕ
  pub expiry : Option JsNumber

-- What one call draws from outside: the clock, the random id of the row, and the token.
pub record TokenDraws : Type 0 where
  pub now : ℕ
  pub id : String
  pub token : String

-- `item.split(SCOPE_SEPARATOR)` without the empty pieces, given the piece that has been begun
abbrev pub close_piece : List ℕ → List (List ℕ) → List (List ℕ)
close_piece [] pieces = pieces
close_piece (c ∷ piece) pieces = (c ∷ piece) ∷ pieces

abbrev pub scope_pieces : List ℕ → List ℕ → List (List ℕ)
scope_pieces piece [] = close_piece piece []
scope_pieces piece (c ∷ text) =
    let closed = scope_pieces [] text in
    let longer = scope_pieces (piece ++ c ∷ []) text in
    if is_separator c then close_piece piece closed else longer

abbrev pub all_pieces : List String → List (List ℕ)
all_pieces [] = []
all_pieces (item ∷ more) = scope_pieces [] (codes item) ++ all_pieces more

-- `parseScopes`, of an array
unfoldable pub parse_scopes : (List ℕ → String) → List String → List String
parse_scopes text_of input = add_all (map text_of (all_pieces input)) []

-- `/^[a-z][a-z0-9+.-]*:\/\//i.test(text)`
abbrev pub is_letter : ℕ → Bool
is_letter c = leb b'a' (lower c) && leb (lower c) b'z'

abbrev pub scheme_rest : List ℕ → Bool
scheme_rest [] = false
scheme_rest (c ∷ text) =
    let later = scheme_rest text in
    if c == b':'
    then (elim (after_prefix (codes "//") text) [ none ↦ false | some rest ↦ true ])
    else (is_letter c || is_digit c || c == b'+' || c == b'.' || c == b'-') && later

abbrev pub has_scheme : List ℕ → Bool
has_scheme [] = false
has_scheme (c ∷ text) = is_letter c && scheme_rest text

-- `new Date(now + days)` when the token has an expiry that is a positive whole number
abbrev pub positive_days : JsNumber → Option ℕ
positive_days (index zero) = none
positive_days (index (suc n)) = some (suc n)
positive_days negative = none
positive_days not_integer = none

-- `value ?? []`
abbrev pub or_no_texts : Option (List String) → List String
or_no_texts none = []
or_no_texts (some texts) = texts

module _ (services : Services) (platform : AgentPlatform) where
  -- `normalizeDomain`
  unfoldable pub normalize_domain : String → Option String
  normalize_domain domain =
      let trimmed = platform.trim domain in
      let candidate = if has_scheme (codes trimmed) then trimmed else ◌<>◌ "https://" trimmed in
      if not (truthy (some trimmed)) then none else elim (platform.url_of candidate) [
        | none ↦ none
        | some url ↦
            if not (url.0 === "https:") && not (url.0 === "http:")
            then none
            else if truthy (some url.1)
            then some candidate
            else none
      ]

  -- the days of `generateEnrollmentToken`, unless they are rejected
  abbrev pub check_expiry : Option JsNumber → Result (Option ℕ)
  check_expiry none = ok none
  check_expiry (some expiry) = elim (positive_days expiry) [
    | some days ↦ ok (some days)
    | none ↦ throw (coded "INVALID_EXPIRY" "expiry must be a positive whole number of days" 400)
  ]

  -- `requestedScopes` as they are stored, unless they are rejected
  abbrev pub check_requested : Option (List String) → Result (List String)
  check_requested none =
      throw
        (coded "VC_INVALID_PRIVILEGE_SCOPE" "Invalid scopes: requestedScopes must be an array" 400)
  check_requested (some requested) =
      let scopes = parse_scopes platform.text_of requested in
      elim (find_scope_problem scopes) [
        | none ↦ ok scopes
        | some problem ↦
            throw (coded "VC_INVALID_PRIVILEGE_SCOPE" (◌<>◌ "Invalid scopes: " problem) 400)
      ]

  abbrev pub expires_after : ℕ → Option ℕ → Option ℕ
  expires_after now none = none
  expires_after now (some days) = some (platform.add_days now days)

  -- `generateEnrollmentToken`
  unfoldable pub generate_enrollment_token :
      TokenDraws → TokenInput → Action (CustodyState services) (String × Option ℕ)
  generate_enrollment_token draws input = do
    days ← call (check_expiry input.expiry)
    scopes ← call (check_requested input.requested_scopes)
    let token_hash = platform.hash_token draws.token
    let expires_at = expires_after draws.now days
    on_agents services (
        create_enrollment_token draws.now draws.id input.max_delegation_depth (record {
          id = "";
          token_hash = token_hash;
          agent_name = input.agent_name;
          requested_scopes = platform.json_texts scopes;
          requested_domains = platform.json_texts (or_no_texts input.requested_domains);
          max_delegation_depth = 0;
          expires_at = expires_at;
          used_at = none;
          created_at = 0;
        }))
    log_agent services (enrollment_token_generated token_hash)
    resolve (draws.token, expires_at)

  -- the loop over `input.domains`
  unfoldable pub normalize_domains : List String → Result (List String)
  normalize_domains [] = ok []
  normalize_domains (domain ∷ more) =
      let rest = normalize_domains more in
      elim (normalize_domain domain) [
        | none ↦ throw (coded "INVALID_SERVICE_ENDPOINT_URL" "Invalid domain URL" 400)
        | some normalized ↦ elim rest [ throw e ↦ throw e | ok domains ↦ ok (normalized ∷ domains) ]
      ]
