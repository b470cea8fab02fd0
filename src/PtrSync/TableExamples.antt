-- ===== src/PtrSync/TableExamples.antt =====
-- Runs of the table statements on a concrete store.
use hydrus_go.Base.{ℕ, true, false, List, [], ◌∷◌, ◌≡◌, refl, ◌⊎◌}
use hydrus_go.Base.Strings.{Text, codes}
use hydrus_go.Base.Maps
use hydrus_go.Base.Maps.{Map}
use hydrus_go.Base.Int.{pos}
use hydrus_go.PtrSync.{Store}
use hydrus_go.PtrSync.Tables.{exists_row}
use hydrus_go.PtrSync.Mappings.{MappingsUpdate, mapping}
use hydrus_go.PtrSync.Mappings.Tables.{standing, stands}
use hydrus_go.PtrSync.Metadata.{MetadataUpdate, apply_repository_metadata}
use hydrus_go.PtrSync.Metadata.Effect.{IsApplied, IsMissing, apply_repository_metadata_lem}
use hydrus_go.PtrSync.Pending.{stage_tags, commit_pending}
use hydrus_go.PtrSync.Pending.Effect.{requested, commit_pending-stage_tags}
use hydrus_go.PtrSync.Pending.History.{
  Change, update, stage, commit, history, history-IsTidy, IsTidy,
}
use hydrus_go.Base.Strings.{ascii_casing}
use hydrus_go.PtrSync.Processing.{apply_ptr_mappings}
use hydrus_go.PtrSync.Examples.{idle_store, busy_store, cfg, token}

-- Tag 3 is added to file 40 and taken from it again by the same update.
abbrev add_and_delete : MappingsUpdate
add_and_delete = record {
  adds = record { service_tag_id = pos 90; service_hash_ids = pos 1 ∷ [] } ∷ [];
  deletes = record { service_tag_id = pos 90; service_hash_ids = pos 1 ∷ [] } ∷ [];
}

abbrev updated_store : Store
updated_store = record idle_store { pending_mappings = [] }

named : requested (3 ∷ []) (40 ∷ []) (mapping 3 40) ≡ true
unfolding exists_row
named = refl

commit_pending-stage_tags_example :
    (stands
        (mapping 3 40)
        (commit_pending (stage_tags (3 ∷ []) (40 ∷ []) (0, idle_store)).1).1.current_mappings
      ≡ true)
    × (stands
          (mapping 3 40)
          (commit_pending (stage_tags (3 ∷ []) (40 ∷ []) (0, idle_store)).1).1.pending_mappings
        ≡ false)
commit_pending-stage_tags_example =
    commit_pending-stage_tags (mapping 3 40) (3 ∷ []) (40 ∷ []) idle_store named

abbrev week : List Change
week = stage (3 ∷ []) (40 ∷ []) ∷ commit ∷ update add_and_delete ∷ []

tidy : IsTidy (standing (mapping 3 40) idle_store)
unfolding exists_row
tidy = (refl, refl)

history-IsTidy_example : IsTidy (standing (mapping 3 40) (history week idle_store))
history-IsTidy_example = history-IsTidy (mapping 3 40) week idle_store tidy

abbrev known_ids : Map ℕ
known_ids = Maps.insert (codes "ab") 2 (Maps.insert (codes "cd") 5 Maps.empty)

abbrev slice : List MetadataUpdate
slice =
    record { update_index = pos 1; update_hashes = codes "ab" ∷ [] }
    ∷ record { update_index = pos 2; update_hashes = codes "cd" ∷ [] }
    ∷ []

apply_repository_metadata_example :
    IsApplied known_ids slice true idle_store
      (apply_repository_metadata known_ids slice true idle_store)
    ⊎ IsMissing known_ids slice (apply_repository_metadata known_ids slice true idle_store)
apply_repository_metadata_example = apply_repository_metadata_lem known_ids slice true idle_store

abbrev update_hash : Text
update_hash = codes "00112233445566778899aabbccddeeff00112233445566778899aabbccddeeff"

abbrev processed_store : Store
processed_store =
    (apply_ptr_mappings 5400 ascii_casing cfg token update_hash add_and_delete busy_store).1
