-- ===== src/VcService/Coherence.antt =====
-- The cache of status lists against the rows (services/vc/vc.service.ts): a cached text is the text of its
-- list's row.
use helix_core.Prelude.{ℕ, List}
use helix_core.Cache.{ICache}
use helix_core.Cache.Agreement.{Agree}
use helix_core.VcStore.{StatusListEntryRecord}
use helix_core.VcService.{Platform, State}

-- the part of a row that is cached
abbrev pub encoded_text : StatusListEntryRecord → List ℕ
encoded_text entry = entry.encoded_list

-- The invariant of the service's state.
abbrev pub IsCoherent :
    (caches : ICache (List ℕ)) (platform : Platform) → State caches platform → Type 0
IsCoherent caches platform state = Agree caches encoded_text state.store.status_lists state.cache
