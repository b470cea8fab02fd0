-- ===== src/PtrSync/Processing/Effect.antt =====
-- What a content update that was applied under the lease leaves in the store.
use hydrus_go.Base.{ℕ, ◌≡◌, Bool, ◌&&◌, some, ◌==◌}
use hydrus_go.PtrSync.{
  SyncRow, ProcessedRow, Store, content_type_definitions, content_type_mappings,
}
use hydrus_go.PtrSync.Tables.{count_where}
use hydrus_go.PtrSync.Lease.{is_processed}
use hydrus_go.PtrSync.Processing.{is_update}

-- The counters of the row agree with the table of the updates.
abbrev pub IsCounted : Store → Type 0
IsCounted s =
    (row : SyncRow) × (s.sync_state ≡ some row)
    × (row.processed_definition_count
        ≡ count_where (is_processed content_type_definitions) s.processed)
    × (row.processed_content_count ≡ count_where (is_processed content_type_mappings) s.processed)

abbrev pub is_waiting : ℕ → ℕ → ProcessedRow → Bool
is_waiting hash_id content_type row = is_update hash_id content_type row && (row.processed == 0)
