-- ===== src/DidService/Coherence.antt =====
-- The cache of documents against the rows (services/did/did.service.ts).
use helix_core.Cache.{ICache}
use helix_core.Cache.Agreement.{Agree}
use helix_core.DidDocument.{DidDocument}
use helix_core.DidStore.{DidRecord}
use helix_core.DidService.{DidPlatform, DidState}

-- the part of a row that is cached
abbrev pub row_document : DidRecord → DidDocument
row_document row = row.did_document

-- The invariant of the service's state: a document that the cache may answer is the document of the row.
abbrev pub IsConsistent :
    (caches : ICache DidDocument) (platform : DidPlatform) → DidState caches platform → Type 0
IsConsistent caches platform state = Agree caches row_document state.rows state.cache
