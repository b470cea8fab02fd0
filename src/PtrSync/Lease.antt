-- ===== src/PtrSync/Lease.antt =====
-- ptrsync.go: the statements on main.ptr_sync_state that take, test and give back the lease of a
-- sync run. Each of them reads the clock once, as `now` in milliseconds.
use hydrus_go.Base.{
  ℕ, ◌+◌, Bool, true, false, ◌&&◌, Option, none, some, ◌==◌, if◌then◌else◌, length, List, [], ◌∷◌,
}
use hydrus_go.Base.Strings.{Text, codes, text_eq, is_empty, trim_space}
use hydrus_go.Base.Results.{Result, ok, err}
use hydrus_go.Base.Int.{ℤ, pos, negsuc, ltb_ℤ}
use hydrus_go.PtrSync.{
  Phase, idle, syncing, throttling, phase_eq, SyncError, sync_already_running, run_not_active,
  SyncRow, Store, ProcessedRow, shared_read_only, content_type_definitions, content_type_mappings,
}
use hydrus_go.PtrSync.Tables.{count_where}

-- `singleton = ? AND is_running = 1 AND run_token = ?`: NULL equals nothing.
abbrev pub token_is : Text → Option Text → Bool
token_is token none = false
token_is token (some held) = text_eq held token

abbrev pub holds_lease : Text → SyncRow → Bool
holds_lease token row = (row.is_running == 1) && token_is token row.run_token

-- An UPDATE of the row whose lease the token holds; no row affected means that the run is over.
abbrev pub update_active : Text → (SyncRow → SyncRow) → Store → Result SyncError (Unit {0} × Store)
update_active token set s = elim s.sync_state [
  | none ↦ err run_not_active
  | some row ↦
      if holds_lease token row
      then ok (tt, record s { sync_state = some (set row) })
      else err run_not_active
]

abbrev pub running_row : ℕ → Text → ℕ → SyncRow → SyncRow
running_row service_id token now row = record row {
  service_id = service_id;
  account_mode = shared_read_only;
  phase = syncing;
  is_running = 1;
  run_token = some token;
  current_run_downloaded_bytes = pos 0;
  current_run_download_ms = pos 0;
  retry_at_ms = pos 0;
  last_error = none;
  updated_at_ms = now;
}

-- `setPTRSyncRunning`, after the token was generated.
unfoldable pub set_running : ℕ → Text → ℕ → Store → Result SyncError (Text × Store)
set_running service_id token now s = elim s.sync_state [
  | none ↦ err sync_already_running
  | some row ↦
      if row.is_running == 0
      then ok (token, record s { sync_state = some (running_row service_id token now row) })
      else err sync_already_running
]

-- `ensurePTRSyncRunActive`, which also compares the service.
unfoldable pub ensure_run_active : ℕ → Text → Store → Result SyncError (Unit {0})
ensure_run_active service_id token s = elim s.sync_state [
  | none ↦ err run_not_active
  | some row ↦
      if (row.service_id == service_id) && holds_lease token row then ok tt else err run_not_active
]

-- The error text that is stored: NULL for a blank one.
abbrev pub stored_error : Text → Option Text
stored_error last_error =
    if is_empty (trim_space last_error) then none else some (trim_space last_error)

abbrev pub updated_mapping_count : Option ℕ → ℤ → ℤ
updated_mapping_count none before = before
updated_mapping_count (some count) before = pos count

abbrev pub idle_row : ℕ → ℤ → Text → Option ℕ → ℕ → SyncRow → SyncRow
idle_row service_id next_update_index last_error mapping_count now row = record row {
  service_id = service_id;
  account_mode = shared_read_only;
  phase = idle;
  is_running = 0;
  run_token = none;
  metadata_slice = next_update_index;
  retry_at_ms = pos 0;
  retry_attempt = pos 0;
  last_error = stored_error last_error;
  last_sync_mapping_count = updated_mapping_count mapping_count row.last_sync_mapping_count;
  updated_at_ms = now;
}

unfoldable pub set_idle :
    ℕ → Text → ℤ → Text → Option ℕ → ℕ → Store → Result SyncError (Unit {0} × Store)
set_idle service_id token next_update_index last_error mapping_count now =
    update_active token (idle_row service_id next_update_index last_error mapping_count now)

abbrev pub failure_text : Text → Text
failure_text last_error =
    if is_empty (trim_space last_error) then codes "PTR sync failed" else trim_space last_error

abbrev pub failed_row : ℕ → Text → ℕ → SyncRow → SyncRow
failed_row service_id last_error now row = record row {
  service_id = service_id;
  account_mode = shared_read_only;
  phase = idle;
  is_running = 0;
  run_token = none;
  retry_at_ms = pos 0;
  retry_attempt = pos 0;
  last_error = some (failure_text last_error);
  updated_at_ms = now;
}

unfoldable pub set_failed : ℕ → Text → Text → ℕ → Store → Result SyncError (Unit {0} × Store)
set_failed service_id token last_error now =
    update_active token (failed_row service_id last_error now)

abbrev pub counted_attempt : ℤ → ℤ
counted_attempt retry_attempt = if ltb_ℤ retry_attempt (pos 1) then pos 1 else retry_attempt

abbrev pub throttled_row : ℕ → ℤ → ℤ → ℕ → SyncRow → SyncRow
throttled_row service_id retry_at_ms retry_attempt now row = record row {
  service_id = service_id;
  account_mode = shared_read_only;
  phase = throttling;
  is_running = 0;
  run_token = none;
  retry_at_ms = retry_at_ms;
  retry_attempt = counted_attempt retry_attempt;
  last_error = none;
  updated_at_ms = now;
}

unfoldable pub set_throttled : ℕ → Text → ℤ → ℤ → ℕ → Store → Result SyncError (Unit {0} × Store)
set_throttled service_id token retry_at_ms retry_attempt now =
    update_active token (throttled_row service_id retry_at_ms retry_attempt now)

-- `recomputePTRProcessedCounts`
abbrev pub is_processed : ℕ → ProcessedRow → Bool
is_processed content_type row = (row.content_type == content_type) && (row.processed == 1)

abbrev pub recounted : ℕ → Store → SyncRow → SyncRow
recounted now s row = record row {
  processed_definition_count = count_where (is_processed content_type_definitions) s.processed;
  processed_content_count = count_where (is_processed content_type_mappings) s.processed;
  updated_at_ms = now;
}

unfoldable pub recompute_processed_counts : Text → ℕ → Store → Result SyncError (Unit {0} × Store)
recompute_processed_counts token now s = update_active token (recounted now s) s

-- `queryPTRDownloadedUpdateCount` and `queryPTRDownloadedUpdateBytes`
unfoldable pub downloaded_bytes : List ProcessedRow → ℕ
downloaded_bytes [] = 0
downloaded_bytes (row ∷ rows) = row.size_bytes + downloaded_bytes rows

-- `updatePTRSyncDownloadedUpdateCount`
unfoldable pub update_downloaded_count :
    Text → ℕ → ℕ → ℕ → Store → Result SyncError (Unit {0} × Store)
update_downloaded_count token count bytes now = update_active token (λ row. record row {
  downloaded_update_count = count;
  downloaded_update_bytes = bytes;
  updated_at_ms = now;
})

-- `upsertPTRSyncState`: the row of a first start, the states that a restart keeps, and the row that
-- it resets any other to.
abbrev pub seed_row : ℕ → ℕ → Store → SyncRow
seed_row service_id now s = record {
  service_id = service_id;
  account_mode = shared_read_only;
  phase = idle;
  is_running = 0;
  run_token = none;
  metadata_slice = pos 0;
  downloaded_update_count = length s.processed;
  downloaded_update_bytes = downloaded_bytes s.processed;
  current_run_downloaded_bytes = pos 0;
  current_run_download_ms = pos 0;
  processed_definition_count = 0;
  processed_content_count = 0;
  last_sync_mapping_count = negsuc 0;
  retry_at_ms = pos 0;
  retry_attempt = pos 0;
  last_error = none;
  updated_at_ms = now;
}

abbrev pub is_none : Option Text → Bool
is_none none = true
is_none (some t) = false

abbrev pub waits_in : Phase → ℕ → SyncRow → Bool
waits_in phase service_id row =
    (row.service_id == service_id)
    && text_eq row.account_mode shared_read_only
    && phase_eq row.phase phase
    && (row.is_running == 0)
    && is_none row.run_token

abbrev pub reset_row : ℕ → ℕ → SyncRow → SyncRow
reset_row service_id now row = record row {
  service_id = service_id;
  account_mode = shared_read_only;
  phase = idle;
  is_running = 0;
  run_token = none;
  retry_at_ms = pos 0;
  retry_attempt = pos 0;
  last_error = none;
  updated_at_ms = now;
}

abbrev pub normalized_row : ℕ → ℕ → SyncRow → SyncRow
normalized_row service_id now row =
    if waits_in throttling service_id row
    then row
    else if waits_in idle service_id row && is_none row.last_error
    then row
    else reset_row service_id now row

unfoldable pub upsert_sync_state : Bool → ℕ → ℕ → Store → Store
upsert_sync_state normalize service_id now s = elim s.sync_state [
  | none ↦ record s { sync_state = some (seed_row service_id now s) }
  | some row ↦
      if normalize then record s { sync_state = some (normalized_row service_id now row) } else s
]
