-- ===== src/Cache/Tests.antt =====
-- Two layers in one process, the second standing in for the shared one.
use helix_core.Prelude.{
  ◌≡◌, refl, String, some, none, List, [], ◌∷◌, at_key, put, drop_key, ◌===◌, inl, inr,
}
use helix_core.Cache.{ICache, get, set, delete, get_layered, set_layered, delete_layered}
use helix_core.Cache.Laws.{in_process}
use helix_core.Cache.Layers.{two_layer}
use helix_core.Cache.Refinement.{Call, sets, deletes, gets, run, run_map, Refines, get-Refines}

abbrev layered : ICache String
layered = two_layer in_process 30 300

abbrev empty : layered.Cache
empty = ([], some [])

abbrev calls : List (Call String)
calls =
    sets 1000 "did:a" "old" 60
    ∷ deletes "did:a"
    ∷ sets 2000 "did:a" "new" 60
    ∷ gets 50000 "did:a"
    ∷ []

-- The first layer has let the entry go; the second still has it.
answer_run : (layered.get 50000 "did:a" (run layered calls empty)).0 ≡ some "new"
unfolding run get_layered set_layered delete_layered get set delete at_key put drop_key ◌===◌
answer_run = refl

late_run : (layered.get 63000 "did:b" (run layered calls empty)).0 ≡ none
unfolding run get_layered set_layered delete_layered get set delete at_key put drop_key ◌===◌
late_run = refl

empty-Refines : Refines layered empty []
unfolding at_key
empty-Refines key value (inl (entry, h, same)) = cc h
empty-Refines key value (inr (entry, h, same)) = cc h

get-Refines_example : at_key "did:a" (run_map calls []) ≡ some "new"
get-Refines_example =
    get-Refines layered calls empty [] 50000 "did:a" "new" empty-Refines answer_run
