-- ===== src/PtrSync/Processing.antt =====
-- ptrsync.go: a content update that is applied under the lease (`ApplyPTRMappings`).
pub mod Effect
use hydrus_go.Base.{
  ℕ, Bool, true, false, not, ◌&&◌, Option, none, some, List, [], ◌∷◌, ◌==◌, if◌then◌else◌,
}
use hydrus_go.Base.Strings.{Text, Casing, to_lower, trim_space, byte_len}
use hydrus_go.Base.Results.{Result, ok, err, ◌>>=◌}
use hydrus_go.ClientFiles.{all_hex}
use hydrus_go.PtrSync.{
  SyncError, invalid_update_hash, update_hash_unknown, ProcessedRow, Store, Config,
  content_type_mappings,
}
use hydrus_go.PtrSync.Tables.{update_where}
use hydrus_go.PtrSync.Lease.{ensure_run_active, recompute_processed_counts}
use hydrus_go.PtrSync.Services.{lookup_service}
use hydrus_go.PtrSync.Bundle.{when_enabled}
use hydrus_go.PtrSync.Mappings.{MappingsUpdate, apply_mappings}

-- `normalizePreparedHash`
unfoldable pub normalize_prepared_hash : Casing → Text → Result SyncError Text
normalize_prepared_hash u hash_hex =
    let normalized = to_lower u (trim_space hash_hex) in
    if (byte_len normalized == 64) && all_hex normalized
    then ok normalized
    else err (invalid_update_hash hash_hex)

abbrev pub known_hash : Text → Option ℕ → Result SyncError ℕ
known_hash hash none = err (update_hash_unknown hash)
known_hash hash (some id) = ok id

-- `lookupRequiredHashIDByHex`
unfoldable pub required_hash_id : Casing → Text → Store → Result SyncError ℕ
required_hash_id u hash_hex s =
    normalize_prepared_hash u hash_hex >>= λ hash. known_hash hash_hex (s.hashes hash)

abbrev pub is_update : ℕ → ℕ → ProcessedRow → Bool
is_update hash_id content_type row = (row.hash_id == hash_id) && (row.content_type == content_type)

-- `markPTRUpdateProcessed`
abbrev pub mark_processed : ℕ → ℕ → Store → Store
mark_processed hash_id content_type s = record s {
  processed =
      update_where (is_update hash_id content_type) (λ row. record row { processed = 1 })
        s.processed;
}

-- `applyPTRMappingsUpdateTx`
unfoldable pub apply_mappings_update :
    Casing → Text → MappingsUpdate → Store → Result SyncError Store
apply_mappings_update u hash_hex update s = required_hash_id u hash_hex s >>= λ hash_id.
    apply_mappings update s >>= λ t. ok (mark_processed hash_id content_type_mappings t)

-- `ApplyPTRMappings`
unfoldable pub apply_ptr_mappings_body :
    ℕ → Casing → Text → Text → MappingsUpdate → Store → Result SyncError (Unit {0} × Store)
apply_ptr_mappings_body now u token hash_hex update s = lookup_service s >>= λ service.
    ensure_run_active service.service_id token s >>= λ _.
    apply_mappings_update u hash_hex update s >>= recompute_processed_counts token now

unfoldable pub apply_ptr_mappings :
    ℕ → Casing → Config → Text → Text → MappingsUpdate → Store → Result SyncError (Unit {0}) × Store
apply_ptr_mappings now u cfg token hash_hex update =
    when_enabled cfg (apply_ptr_mappings_body now u token hash_hex update)
