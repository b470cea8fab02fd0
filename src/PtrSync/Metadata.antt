-- ===== src/PtrSync/Metadata.antt =====
-- ptrsync.go: the slice of update metadata that a run fetched, written into the tables of the
-- repository (`applyPTRRepositoryMetadata`, `prunePTRProcessedUpdates`, `ptrUpdateHashesHex`). An
-- update hash is the hex form of its bytes.
pub mod Slice
pub mod Effect
use hydrus_go.Base.{
  ℕ, Bool, true, false, not, ◌||◌, Option, none, some, List, [], ◌∷◌, ◌++◌, ◌==◌, if◌then◌else◌,
  map,
}
use hydrus_go.Base.Strings.{Text, text_eq}
use hydrus_go.Base.Results.{Result, ok, err, ◌>>=◌}
use hydrus_go.Base.Maps.{Map}
use hydrus_go.Base.Int.{ℤ}
use hydrus_go.PtrSync.{SyncError, update_hash_missing, UpdateRow, ProcessedRow, Store}
use hydrus_go.PtrSync.Tables.{exists_row, delete_where, insert_or_ignore}
use hydrus_go.PtrSync.Report.{next_update_index}

-- `MetadataUpdate`, as far as the tables keep it
pub record MetadataUpdate : Type 0 where
  pub update_index : ℤ
  pub update_hashes : List Text

-- `ptrUpdateHashesHex`: every hash once, where it comes first.
unfoldable pub add_hashes : List Text → List Text → List Text
add_hashes [] seen = seen
add_hashes (hash ∷ hashes) seen = add_hashes hashes (insert_or_ignore text_eq hash seen)

unfoldable pub collect_hashes : List MetadataUpdate → List Text → List Text
collect_hashes [] seen = seen
collect_hashes (update ∷ updates) seen =
    collect_hashes updates (add_hashes update.update_hashes seen)

unfoldable pub update_hashes_hex : List MetadataUpdate → List Text
update_hashes_hex updates = collect_hashes updates []

abbrev pub required_id : Text → Option ℕ → Result SyncError ℕ
required_id hash none = err (update_hash_missing hash)
required_id hash (some id) = ok id

-- `updateRows`: the index of an update with the id of each of its hashes.
unfoldable pub rows_of_update : Map ℕ → ℤ → List Text → Result SyncError (List UpdateRow)
rows_of_update hash_ids index [] = ok []
rows_of_update hash_ids index (hash ∷ hashes) = required_id hash (hash_ids hash) >>= λ id.
    rows_of_update hash_ids index hashes >>= λ rows.
    ok (record { update_index = index; hash_id = id } ∷ rows)

unfoldable pub update_rows : Map ℕ → List MetadataUpdate → Result SyncError (List UpdateRow)
update_rows hash_ids [] = ok []
update_rows hash_ids (update ∷ updates) =
    rows_of_update hash_ids update.update_index update.update_hashes >>= λ first.
    update_rows hash_ids updates >>= λ rest. ok (first ++ rest)

-- The primary key and the unique index of the updates table come down to the hash.
abbrev pub same_hash : UpdateRow → UpdateRow → Bool
same_hash a b = a.hash_id == b.hash_id

abbrev pub same_id : ℕ → ℕ → Bool
same_id a b = a == b

abbrev pub row_has : ℕ → UpdateRow → Bool
row_has id row = row.hash_id == id

abbrev pub processed_has : ℕ → ProcessedRow → Bool
processed_has id row = row.hash_id == id

-- The rows of hashes that the repository no longer names.
abbrev pub is_stale : List UpdateRow → ProcessedRow → Bool
is_stale keep row = not (exists_row (row_has row.hash_id) keep)

unfoldable pub prune_processed : List UpdateRow → List ProcessedRow → List ProcessedRow
prune_processed [] processed = []
prune_processed (row ∷ keep) processed = delete_where (is_stale (row ∷ keep)) processed

abbrev pub cleared : Bool → List UpdateRow → Store → Store
cleared replace rows s =
    if replace
    then record s {
      repository_updates = [];
      unregistered = [];
      processed = prune_processed rows s.processed;
    }
    else s

unfoldable pub insert_updates : List UpdateRow → List UpdateRow → List UpdateRow
insert_updates [] table = table
insert_updates (row ∷ rows) table = insert_updates rows (insert_or_ignore same_hash row table)

unfoldable pub insert_unregistered : List UpdateRow → List ℕ → List ℕ
insert_unregistered [] table = table
insert_unregistered (row ∷ rows) table =
    insert_unregistered rows (insert_or_ignore same_id row.hash_id table)

abbrev pub inserted_rows : List UpdateRow → Store → Store
inserted_rows rows s = record s {
  repository_updates = insert_updates rows s.repository_updates;
  unregistered = insert_unregistered rows s.unregistered;
}

unfoldable pub apply_repository_metadata :
    Map ℕ → List MetadataUpdate → Bool → Store → Result SyncError (ℤ × Store)
apply_repository_metadata hash_ids updates replace s = update_rows hash_ids updates >>= λ rows.
    let after = inserted_rows rows (cleared replace rows s) in
    ok (next_update_index after.repository_updates, after)
