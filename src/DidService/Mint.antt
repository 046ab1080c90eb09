-- ===== src/DidService/Mint.antt =====
-- services/did/did.service.ts: `prepareDIDCreation` and what `createDID` makes of a key by each method.
use Prim.Native.String.{◌++◌ as ◌<>◌}
use helix_core.Prelude.{String, Option, none, some, List, [], ◌∷◌, ◌++◌, map, ◌===◌, if◌then◌else◌}
use helix_core.Errors.{Thrown, coded, plain}
use helix_core.Result.{Result, ok, throw, ◌>>=◌}
use helix_core.DidDocument.{
  VerificationMethod, ServiceEndpoint, DidDocument, public_key_to_multibase,
}
use helix_core.DidDocument.Build.{or_no_service, build_did_document}
use helix_core.DidStore.{CreateDidRecordParams}
use helix_core.DidService.{
  hedera, DidCreationRequest, Anchoring, DidCreationProof, DidPlatform, is_helix_error, message_or,
}

-- `withServiceEndpoints`
unfoldable pub with_service_endpoints : DidDocument → List ServiceEndpoint → DidDocument
with_service_endpoints document [] = document
with_service_endpoints document (endpoint ∷ more) = record document {
  service = some (
      or_no_service document.service
      ++ map (λ (s : ServiceEndpoint). record s { id = ◌<>◌ document.id s.id }) (endpoint ∷ more));
}

-- what the method gives: the DID, its document and its anchoring
pub record Minted : Type 0 where
  pub did : String
  pub document : DidDocument
  pub anchoring : Anchoring

-- `CreateDIDResult`
pub record CreateDidResult : Type 0 where
  pub did : String
  pub did_document : DidDocument
  pub hedera_transaction_id : String

-- `document.verificationMethod[0]!.publicKeyMultibase`
abbrev pub first_multibase : List VerificationMethod → Result String
first_multibase [] =
    throw (plain "Cannot read properties of undefined (reading 'publicKeyMultibase')")
first_multibase (method ∷ more) = ok method.public_key_multibase

abbrev pub not_anchored : String → Anchoring
not_anchored transaction_id = record {
  transaction_id = transaction_id;
  topic_id = none;
  sequence_number = none;
}

-- the row of a DID
unfoldable pub did_row :
    String → String → String → String → DidDocument → Anchoring → CreateDidRecordParams
did_row did subject_type public_key multibase document anchoring = record {
  id = did;
  subject_type = subject_type;
  controller = document.controller;
  public_key = public_key;
  public_key_multibase = some multibase;
  hedera_topic_id = anchoring.topic_id;
  hedera_sequence_number = anchoring.sequence_number;
  hedera_transaction_id = anchoring.transaction_id;
  did_document = document;
}

module _ (platform : DidPlatform) where
  -- `publicKeyToMultibase`, of the hexadecimal text of a key
  abbrev pub multibase_text : String → String
  multibase_text public_key =
      platform.text_of (public_key_to_multibase (platform.hex_bytes public_key))

  -- `deriveAgentSlug`
  unfoldable pub derive_agent_slug : String → String
  derive_agent_slug public_key =
      platform.hex_text (platform.short_hash (platform.hex_bytes public_key))

  -- `deriveDID`
  unfoldable pub derive_did : String → String
  derive_did public_key =
      ◌<>◌ "did:hedera:testnet:"
        (platform.hex_text (platform.short_hash (platform.hex_bytes public_key)))

  -- `prepareDIDCreation`
  unfoldable pub prepare_creation : String → Result DidCreationRequest
  prepare_creation public_key = elim platform.did_method [
    | hedera ↦ platform.prepare_did_creation (multibase_text public_key)
    | _ ↦ ok (record { state_json = ""; signing_payload_hex = "" })
  ]

  abbrev pub document_of : String → String → List ServiceEndpoint → DidDocument
  document_of did public_key endpoints =
      build_did_document platform.text_of did (platform.hex_bytes public_key) endpoints

  -- the branch of `createDID` that anchors to Hedera
  unfoldable pub mint_hedera :
      String → List ServiceEndpoint → Option DidCreationProof → Result Minted
  unfolding with_service_endpoints derive_did
  mint_hedera public_key endpoints (some proof) = do
    result ← platform.submit_did_creation proof.state_json proof.signature_hex
    ok (record {
      did = result.did;
      document = with_service_endpoints result.did_document endpoints;
      anchoring = record {
        transaction_id = result.transaction_id;
        topic_id = some result.topic_id;
        sequence_number = some result.sequence_number;
      };
    })
  mint_hedera public_key endpoints none = do
    let did = derive_did public_key
    let document = document_of did public_key endpoints
    anchoring ← platform.anchor_document (platform.document_text document)
    ok (record { did = did; document = document; anchoring = anchoring })

  -- the error that takes the place of what Hedera threw
  unfoldable pub anchor_error : Thrown → Thrown
  anchor_error e =
      if is_helix_error e
      then e
      else coded "HEDERA_ANCHOR_FAILED" (message_or "Hedera anchoring failed" e) 502

  unfoldable pub mint_key : String → List ServiceEndpoint → Minted
  mint_key public_key endpoints =
      let did = ◌<>◌ "did:key:" (multibase_text public_key) in
      record {
        did = did;
        document = document_of did public_key endpoints;
        anchoring = not_anchored (◌<>◌ "not-anchored:key:" did);
      }

  unfoldable pub mint_web : String → String → List ServiceEndpoint → Minted
  unfolding derive_agent_slug
  mint_web public_key subject_type endpoints =
      let segment = if subject_type === "service" then "services" else "agents" in
      let did = ◌<>◌ "did:web:" (
        ◌<>◌ platform.did_domain
          (◌<>◌ ":" (◌<>◌ segment (◌<>◌ ":" (derive_agent_slug public_key))))) in
      record {
        did = did;
        document = document_of did public_key endpoints;
        anchoring = not_anchored (◌<>◌ "not-anchored:web:" did);
      }
