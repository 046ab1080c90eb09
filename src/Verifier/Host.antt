-- ===== src/Verifier/Host.antt =====
-- What core/vp-verifier.ts takes from outside: the clock, JavaScript's `Date` and `Number`, zod's string
-- formats, DID resolution, hashing and signature checks, and HTTP; and the options of `verifyVP`.
use helix_core.Prelude.{ℕ, String, Option, List, Bool, true, false, ◌||◌}
use helix_core.Errors.{ErrorClass, Thrown, helix, coded, plain, undefined, vc_revoked, vc_expired}
use helix_core.Result.{Result}
use helix_core.Credential.{SignedVc, SignedVp}
use helix_core.DidDocument.{DidDocument}
use helix_core.StatusList.{Codec}
use helix_core.Json.{Json}

-- `Number(s)`, as far as `Number.isInteger` and `getBit` tell values apart.
pub data JsNumber : Type 0 where
  index : ℕ → JsNumber
  negative : JsNumber
  not_integer : JsNumber

-- A `Response` of `fetch`: `ok`, and the body, `none` when it is no JSON.
pub record Response : Type 0 where
  pub ok : Bool
  pub json : Option Json

pub record Host : Type 0 where
  -- `Date.now()`, which one call of `verifyVP` reads as one instant
  pub now : ℕ
  -- `new Date(s).getTime()`, `none` for NaN
  pub date_ms : String → Option ℕ
  pub number_of : String → JsNumber
  -- `z.string().datetime()` and `z.string().url()`
  pub is_datetime : String → Bool
  pub is_url : String → Bool
  -- `resolveDID` and `applyLoopbackResolveOverride` of core/did-resolver.ts
  pub resolve_did : String → Result DidDocument
  pub loopback_override : String → Result String
  -- `hashCanonicalPayload(withoutProof(value))`
  pub hash_vc : SignedVc → List ℕ
  pub hash_vp : SignedVp → List ℕ
  -- signature, hash, public key
  pub ed25519_verify : List ℕ → List ℕ → List ℕ → Result Bool
  pub fetch : String → Result Response
  pub codec : Codec

-- `VerifyVPOptions`
pub record VerifyVpOptions : Type 0 where
  pub expected_target_service : Option String
  pub allow_self_signed : Bool
  pub status_list_resolver : Option (String → Result Json)

-- `new SomeError(…)`
abbrev pub error : ErrorClass → List String → Thrown
error class arguments = helix (record { class = class; arguments = arguments })

-- `instanceof VCRevokedError`
is_revoked_class : ErrorClass → Bool
is_revoked_class vc_revoked = true
is_revoked_class c = false

unfoldable pub is_revoked_error : Thrown → Bool
unfolding is_revoked_class
is_revoked_error (helix e) = is_revoked_class e.class
is_revoked_error (coded c m s) = false
is_revoked_error (plain m) = false
is_revoked_error undefined = false

is_expired_class : ErrorClass → Bool
is_expired_class vc_expired = true
is_expired_class c = false

-- `instanceof VCRevokedError || instanceof VCExpiredError`
unfoldable pub is_dropped : Thrown → Bool
unfolding is_revoked_class is_expired_class
is_dropped (helix e) = is_revoked_class e.class || is_expired_class e.class
is_dropped (coded c m s) = false
is_dropped (plain m) = false
is_dropped undefined = false
