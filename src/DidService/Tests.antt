-- ===== src/DidService/Tests.antt =====
-- A service over an agent's row, and a key that has none.
use Prim.Native.String.{◌++◌ as ◌<>◌}
use helix_core.Prelude.{◌≡◌, refl, String, none, some, [], ◌∷◌, true, false, ◌===◌, values, at_key}
use helix_core.Errors.{plain}
use helix_core.Result.{ok, throw}
use helix_core.Cache.{ICache}
use helix_core.Cache.Laws.{in_process}
use helix_core.DidDocument.{ServiceEndpoint, DidDocument}
use helix_core.DidDocument.Build.{
  some_if_any, or_no_service, has_endpoint, build_did_document, build_service_endpoints,
  add_endpoint, remove_endpoint,
}
use helix_core.DidDocument.Services.{remove_endpoint-add_endpoint}
use helix_core.DidStore.{DidRecord, create_did, find_did_by_public_key}
use helix_core.DidService.{DidPlatform, key, DidState}
use helix_core.DidService.Mint.{CreateDidResult, did_row, multibase_text, mint_key}
use helix_core.DidService.Create.{persist_minted, create_new_did}
use helix_core.DidService.Resolve.{deactivated_did, resolve_registered}
use helix_core.DidService.Update.{deactivate_registered}
use helix_core.DidService.Coherence.{IsConsistent}
use helix_core.DidService.Reached.{
  DidChanges, unchanged, then_changes, resolves, DidRun, stays, steps, creates, changes,
  DidRun-IsConsistent,
}
use helix_core.DidService.Laws.{result_document, registered, resolve_registered_lem}
use helix_core.DidService.Created.{create_new_did-resolve_registered}
use helix_core.DidService.Forever.{deactivate_registered_forever}
use helix_core.Verifier.Fixture.{document}

abbrev caches : ICache DidDocument
caches = in_process

-- Hedera does not answer.
abbrev platform : DidPlatform
platform = record {
  did_method = key;
  did_domain = "helix";
  cache_ttl_seconds = 300;
  text_of = λ text. "z6Mk";
  index_text = λ i. "1";
  hex_bytes = λ text. 7 ∷ [];
  hex_text = λ bytes. "07";
  short_hash = λ bytes. bytes;
  document_text = λ document. "{}";
  parse_document = λ text. throw (plain "offline");
  deactivation_text = λ did now. "{}";
  method_of = λ did. "key";
  prepare_did_creation = λ multibase. throw (plain "offline");
  submit_did_creation = λ state signature. throw (plain "offline");
  anchor_document = λ text. throw (plain "offline");
  fetch_message = λ topic number. throw (plain "offline");
}

abbrev row : DidRecord
row = record {
  id = "did:agent";
  subject_type = "agent";
  controller = "did:agent";
  public_key = "0a";
  public_key_multibase = some "z112";
  hedera_topic_id = none;
  hedera_sequence_number = none;
  hedera_transaction_id = "t";
  did_document = document "did:agent";
  deactivated_at = none;
  created_at = 1;
  updated_at = 1;
}

abbrev state : DidState caches platform
state = record { rows = ("did:agent", row) ∷ []; cache = []; resolver_cache = []; log = [] }

stored : at_key "did:agent" state.rows ≡ some row
unfolding at_key ◌===◌
stored = refl

empty-IsConsistent : IsConsistent caches platform state
unfolding at_key
empty-IsConsistent did value h = cc h.1

abbrev endpoint : ServiceEndpoint
endpoint = record { id = "#domain-2"; type = "LinkedDomains"; service_endpoint = "https://a.b" }

no_endpoint : has_endpoint endpoint.id (or_no_service (document "did:agent").service) ≡ false
unfolding has_endpoint
no_endpoint = refl

remove_endpoint-add_endpoint_example :
    (added : DidDocument) × (add_endpoint (document "did:agent") endpoint ≡ ok added)
    × (has_endpoint endpoint.id (or_no_service added.service) ≡ true)
    × (remove_endpoint added endpoint.id
        ≡ ok (record (document "did:agent") {
          service = some_if_any (or_no_service (document "did:agent").service);
        }))
remove_endpoint-add_endpoint_example =
    remove_endpoint-add_endpoint (document "did:agent") endpoint no_endpoint

resolve_registered_lem_example :
    result_document (resolve_registered caches platform 10 "did:agent" false state).0
    ≡ registered (at_key "did:agent" state.rows)
resolve_registered_lem_example =
    resolve_registered_lem caches platform 10 "did:agent" state empty-IsConsistent

-- a key is given a DID, and the DID is resolved
abbrev created : DidState caches platform
created = (create_new_did caches platform 5 "07" "agent" [] none state).1

abbrev asked : DidState caches platform
asked = (resolve_registered caches platform 6 "did:key:z6Mk" false created).1

run : DidRun caches platform state asked
run =
    steps (steps stays (creates 5 "07" "agent" [] none)) (changes (resolves 6 "did:key:z6Mk" false))

DidRun-IsConsistent_example : IsConsistent caches platform asked
DidRun-IsConsistent_example = DidRun-IsConsistent caches platform run empty-IsConsistent

abbrev deactivated : DidState caches platform
deactivated = (deactivate_registered caches platform 7 "did:agent" state).1

abbrev much_later : DidState caches platform
much_later = (resolve_registered caches platform 9 "did:agent" false deactivated).1

later_on : DidChanges caches platform deactivated much_later
later_on = then_changes unchanged (resolves 9 "did:agent" false)

deactivate_registered_forever_example :
    ((deactivate_registered caches platform 7 "did:agent" state).0 ≡ ok tt)
    × ((resolve_registered caches platform 20 "did:agent" true much_later).0
        ≡ throw deactivated_did)
deactivate_registered_forever_example =
    deactivate_registered_forever caches platform 7 20 "did:agent" true row state much_later stored
      later_on

abbrev did : String
did = ◌<>◌ "did:key:" (multibase_text platform "07")

abbrev result : CreateDidResult
result = record {
  did = did;
  did_document =
      build_did_document platform.text_of did (platform.hex_bytes "07")
        (build_service_endpoints platform.index_text []);
  hedera_transaction_id = ◌<>◌ "not-anchored:key:" did;
}

creates_it : create_new_did caches platform 5 "07" "agent" [] none state ≡ (ok result, created)
unfolding create_new_did find_did_by_public_key values ◌===◌ persist_minted create_did did_row
    mint_key build_did_document
creates_it = refl

create_new_did-resolve_registered_example :
    result_document (resolve_registered caches platform 8 result.did false created).0
    ≡ ok result.did_document
create_new_did-resolve_registered_example =
    create_new_did-resolve_registered caches platform 5 8 "07" "agent" [] none result state created
      empty-IsConsistent creates_it
