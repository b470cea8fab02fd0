-- ===== src/PtrSync/Pending.antt =====
-- ptrsync.go: the mappings that a user stages for the repository, and their commit after an upload
-- (`stagePTRPendingMappingsTx` from the ids of the tags on, `commitPTRPendingMappingsSuccessTx`).
pub mod Effect
pub mod History
pub mod Definitions
pub mod Refinement
use hydrus_go.Base.{ℕ, ◌+◌, Bool, true, false, not, List, [], ◌∷◌, ◌==◌, if◌then◌else◌, length}
use hydrus_go.Base.Strings.{Text, Casing, to_lower, trim_space, text_eq, is_empty}
use hydrus_go.Base.Results.{Result, ok, err, ◌>>=◌}
use hydrus_go.PtrSync.{
  SyncError, sync_disabled, unsupported_service_key, service_key_unavailable, ServiceRow, Mapping,
  Store, Config, daemon_service_key, with_immediate_tx,
}
use hydrus_go.PtrSync.Tables.{exists_row, delete_where, insert_or_ignore}
use hydrus_go.PtrSync.Services.{Env, prepare_foundation}
use hydrus_go.PtrSync.Mappings.{mapping_eq, mapping}

-- The statements for one staged mapping, with the number of mappings added so far.
abbrev pub forget_removal : Mapping → Store → Store
forget_removal m s = record s {
  deleted_mappings = delete_where (mapping_eq m) s.deleted_mappings;
  petitioned_mappings = delete_where (mapping_eq m) s.petitioned_mappings;
}

-- RowsAffected of an INSERT OR IGNORE
abbrev pub rows_affected : Mapping → List Mapping → ℕ
rows_affected m rows = if exists_row (mapping_eq m) rows then 0 else 1

abbrev pub stage_mapping : Mapping → ℕ × Store → ℕ × Store
stage_mapping m p =
    if exists_row (mapping_eq m) p.1.current_mappings then (p.0, forget_removal m p.1) else (
      p.0 + rows_affected m p.1.pending_mappings,
      record (forget_removal m p.1) {
        pending_mappings = insert_or_ignore mapping_eq m p.1.pending_mappings;
      },
    )

unfoldable pub stage_hashes : ℕ → List ℕ → ℕ × Store → ℕ × Store
stage_hashes tag_id [] p = p
stage_hashes tag_id (hash_id ∷ hash_ids) p =
    stage_hashes tag_id hash_ids (stage_mapping (mapping tag_id hash_id) p)

unfoldable pub stage_tags : List ℕ → List ℕ → ℕ × Store → ℕ × Store
stage_tags [] hash_ids p = p
stage_tags (tag_id ∷ tag_ids) hash_ids p =
    stage_tags tag_ids hash_ids (stage_hashes tag_id hash_ids p)

-- INSERT OR IGNORE INTO current SELECT ... FROM pending
unfoldable pub insert_all : List Mapping → List Mapping → List Mapping
insert_all [] table = table
insert_all (m ∷ rows) table = insert_all rows (insert_or_ignore mapping_eq m table)

abbrev pub is_pending : Store → Mapping → Bool
is_pending s m = exists_row (mapping_eq m) s.pending_mappings

unfoldable pub commit_pending : Store → ℕ × Store
commit_pending s = if length s.pending_mappings == 0 then (0, s) else (
  length s.pending_mappings,
  record s {
    deleted_mappings = delete_where (is_pending s) s.deleted_mappings;
    petitioned_mappings = delete_where (is_pending s) s.petitioned_mappings;
    current_mappings = insert_all s.pending_mappings s.current_mappings;
    pending_mappings = [];
  },
)

-- `normalizePTRTargetServiceKey`
unfoldable pub target_service_key : Casing → Text → Result SyncError Text
target_service_key u key =
    let normalized = to_lower u (trim_space key) in
    if is_empty normalized
    then ok daemon_service_key
    else if text_eq normalized daemon_service_key
    then ok normalized
    else err (unsupported_service_key key)

-- `CommitPTRPendingMappingsSuccess`, with the number of committed mappings as its result
abbrev pub committed_for : Text → ServiceRow × Store → Result SyncError (ℕ × Store)
committed_for target p =
    if text_eq p.0.service_key target
    then ok (commit_pending p.1)
    else err (service_key_unavailable target)

abbrev pub commit_to : Env → Config → Result SyncError Text → Store → Result SyncError ℕ × Store
commit_to env cfg (err e) s = (err e, s)
commit_to env cfg (ok target) s =
    with_immediate_tx (λ t. prepare_foundation env cfg false t >>= committed_for target) s

unfoldable pub commit_pending_success :
    Casing → Env → Config → Text → Store → Result SyncError ℕ × Store
commit_pending_success u env cfg service_key s =
    if cfg.enabled
    then commit_to env cfg (target_service_key u service_key) s
    else (err sync_disabled, s)
