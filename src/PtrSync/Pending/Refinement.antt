-- ===== src/PtrSync/Pending/Refinement.antt =====
-- The mapping tables as what they promise: one standing for each mapping. An abstract store has no
-- rows, no order and no ids of the service, and every change acts on each mapping alone.
use hydrus_go.Base.{Bool, ◌&&◌, List, [], ◌∷◌, if◌then◌else◌}
use hydrus_go.PtrSync.{Mapping, Store}
use hydrus_go.PtrSync.Mappings.Tables.{Standing, added, removed}
use hydrus_go.PtrSync.Mappings.Effect.{if_named, names}
use hydrus_go.PtrSync.Pending.Effect.{staged, committed, requested}
use hydrus_go.PtrSync.Pending.History.{Change, update, stage, commit}
use hydrus_go.PtrSync.Pending.Definitions.{resolves}

-- What a change means: the mappings that it deletes and adds, or requests; or nothing, for an update
-- with an id that the store does not define.
pub data Intent : Type 0 where
  nothing : Intent
  replace : (Mapping → Bool) → (Mapping → Bool) → Intent
  request : (Mapping → Bool) → Intent
  accept : Intent

abbrev pub enact : Intent → Mapping → Standing → Standing
enact nothing m v = v
enact (replace deletes adds) m v = if_named (deletes m) removed (if_named (adds m) added v)
enact (request wanted) m v = if_named (wanted m) staged v
enact accept m v = committed v

abbrev pub enact_all : List Intent → Mapping → Standing → Standing
enact_all [] m v = v
enact_all (i ∷ is) m v = enact_all is m (enact i m v)

abbrev pub intent : Store → Change → Intent
intent s (update u) =
    if resolves s u.adds && resolves s u.deletes
    then replace (names s u.deletes) (names s u.adds)
    else nothing
intent s (stage tag_ids hash_ids) = request (requested tag_ids hash_ids)
intent s commit = accept
