-- ===== src/DidService/Reached.antt =====
-- Sequences of calls of `DIDService` (services/did/did.service.ts).
use helix_core.Prelude.{ℕ, String, Option, List, Bool}
use helix_core.Cache.{ICache}
use helix_core.DidDocument.{ServiceEndpoint, DidDocument}
use helix_core.DidService.{DidCreationProof, DidPlatform, DidState}
use helix_core.DidService.Create.{create_new_did, register_resolved}
use helix_core.DidService.Resolve.{resolve_registered}
use helix_core.DidService.Update.{
  add_service_endpoint, remove_service_endpoint, deactivate_registered,
}
use helix_core.DidService.Coherence.{IsConsistent}
use helix_core.DidService.Steps.{create_new_did-Keeps, register_resolved-Keeps}
use helix_core.DidService.Changes.{
  resolve_registered-Keeps, add_service_endpoint-Keeps, remove_service_endpoint-Keeps,
  deactivate_registered-Keeps,
}

module _ (caches : ICache DidDocument) (platform : DidPlatform) where
  -- One call that creates no DID, from the state before it to the state that it leaves.
  pub data DidChange : DidState caches platform → DidState caches platform → Type 0 where
    registers :
        {state : DidState caches platform} (now : ℕ) (did : String) (document : DidDocument)
        (subject_type : String)
        → DidChange state (register_resolved caches platform now did document subject_type state).1
    resolves :
        {state : DidState caches platform} (now : ℕ) (did : String) (live : Bool)
        → DidChange state (resolve_registered caches platform now did live state).1
    adds_endpoint :
        {state : DidState caches platform} (now : ℕ) (did : String) (endpoint : ServiceEndpoint)
        → DidChange state (add_service_endpoint caches platform now did endpoint state).1
    removes_endpoint :
        {state : DidState caches platform} (now : ℕ) (did endpoint_id : String)
        → DidChange state (remove_service_endpoint caches platform now did endpoint_id state).1
    deactivates :
        {state : DidState caches platform} (now : ℕ) (did : String)
        → DidChange state (deactivate_registered caches platform now did state).1

  -- One call.
  pub data DidStep : DidState caches platform → DidState caches platform → Type 0 where
    creates :
        {state : DidState caches platform} (now : ℕ) (public_key subject_type : String)
        (domains : List String) (proof : Option DidCreationProof)
        → DidStep state
            (create_new_did caches platform now public_key subject_type domains proof state).1
    changes :
        {before after : DidState caches platform} → DidChange before after → DidStep before after

  -- Any number of calls, one after another.
  pub data DidRun : DidState caches platform → DidState caches platform → Type 0 where
    stays : {state : DidState caches platform} → DidRun state state
    steps :
        {before middle after : DidState caches platform}
        → DidRun before middle
        → DidStep middle after
        → DidRun before after

  -- Any number of calls that create no DID.
  pub data DidChanges : DidState caches platform → DidState caches platform → Type 0 where
    unchanged : {state : DidState caches platform} → DidChanges state state
    then_changes :
        {before middle after : DidState caches platform}
        → DidChanges before middle
        → DidChange middle after
        → DidChanges before after

  DidChange-IsConsistent :
      {before after : DidState caches platform}
      → DidChange before after
      → IsConsistent caches platform before
      → IsConsistent caches platform after
  DidChange-IsConsistent (registers now did document subject_type) h =
      register_resolved-Keeps caches platform now did document subject_type _ h
  DidChange-IsConsistent (resolves now did live) h =
      resolve_registered-Keeps caches platform now did live _ h
  DidChange-IsConsistent (adds_endpoint now did endpoint) h =
      add_service_endpoint-Keeps caches platform now did endpoint _ h
  DidChange-IsConsistent (removes_endpoint now did endpoint_id) h =
      remove_service_endpoint-Keeps caches platform now did endpoint_id _ h
  DidChange-IsConsistent (deactivates now did) h =
      deactivate_registered-Keeps caches platform now did _ h

  DidStep-IsConsistent :
      {before after : DidState caches platform}
      → DidStep before after
      → IsConsistent caches platform before
      → IsConsistent caches platform after
  DidStep-IsConsistent (creates now public_key subject_type domains proof) h =
      create_new_did-Keeps caches platform now public_key subject_type domains proof _ h
  DidStep-IsConsistent (changes change) h = DidChange-IsConsistent change h

  -- However the methods of the service are called one after another, whether they succeed or are rejected,
  -- a document that the cache may answer stays the document of the row.
  pub DidRun-IsConsistent :
      {before after : DidState caches platform}
      → DidRun before after
      → IsConsistent caches platform before
      → IsConsistent caches platform after
  DidRun-IsConsistent stays h = h
  DidRun-IsConsistent (steps run step) h = DidStep-IsConsistent step (DidRun-IsConsistent run h)
