-- ===== src/PtrSync/Report.antt =====
-- ptrsync.go: the status that the daemon shows (`lookupPTRSyncStatus`, `defaultPTRSyncStatus`) and
-- the counts that it is made of.
use hydrus_go.Base.{
  ℕ, zero, suc, ◌-◌, ◌*◌, ◌/◌, ◌%◌, ◌^◌, Bool, true, false, not, ◌&&◌, ◌||◌, Option, none, some,
  List, [], ◌∷◌, ◌==◌, ltb, if◌then◌else◌, length,
}
use hydrus_go.Base.Strings.{Text}
use hydrus_go.Base.Int.{ℤ, pos, negsuc, ltb_ℤ, leb_ℤ}
use hydrus_go.PtrSync.{
  disabled, idle, phase_eq, SyncRow, ServiceRow, ProcessedRow, UpdateRow, Store, Status, Config,
  shared_read_only,
}
use hydrus_go.PtrSync.Tables.{count_where}
use hydrus_go.PtrSync.Lease.{is_none}

-- A product on int64, which wraps around.
abbrev pub wrap_int64 : ℕ → ℤ
wrap_int64 n = let m = n % 2 ^ 64 in if ltb m (2 ^ 63) then pos m else negsuc (2 ^ 64 - 1 - m)

-- Go's division rounds towards zero.
abbrev pub quotient : ℤ → ℕ → ℤ
quotient (pos n) d = pos (n / d)
quotient (negsuc n) d = negate (suc n / d)
  where
    negate : ℕ → ℤ
    negate zero = pos 0
    negate (suc q) = negsuc q

unfoldable pub bytes_per_second : ℤ → ℤ → ℤ
bytes_per_second (pos bytes) (pos (suc ms)) = quotient (wrap_int64 (bytes * 1000)) (suc ms)
bytes_per_second _ _ = pos 0

-- `queryPTRNextUpdateIndex`: COALESCE(MAX(update_index) + 1, 0)
abbrev pub successor : ℤ → ℤ
successor (pos n) = pos (suc n)
successor (negsuc zero) = pos 0
successor (negsuc (suc n)) = negsuc n

unfoldable pub next_update_index : List UpdateRow → ℤ
next_update_index [] = pos 0
next_update_index (row ∷ []) = successor row.update_index
next_update_index (row ∷ rows) =
    let rest = next_update_index rows in
    if leb_ℤ rest (successor row.update_index) then successor row.update_index else rest

-- `queryPTRPendingProcessCount`
abbrev pub is_unprocessed : ProcessedRow → Bool
is_unprocessed row = row.processed == 0

unfoldable pub pending_process_count : Store → ℕ
pending_process_count s = count_where is_unprocessed s.processed

-- `queryPTRNextUpdateDueByServiceID`: 0 without a row.
abbrev pub or_zero : Option ℤ → ℤ
or_zero none = pos 0
or_zero (some due) = due

abbrev pub has_progress : SyncRow → Bool
has_progress row =
    ltb_ℤ (pos 0) row.metadata_slice
    || ltb 0 row.downloaded_update_count
    || ltb 0 row.processed_definition_count
    || ltb 0 row.processed_content_count

unfoldable pub is_complete : SyncRow → ℕ → ℕ → Bool
is_complete row pending_download pending_process =
    phase_eq row.phase idle
    && (row.is_running == 0)
    && is_none row.last_error
    && (pending_download == 0)
    && (pending_process == 0)
    && has_progress row

abbrev pub text_or_empty : Option Text → Text
text_or_empty none = []
text_or_empty (some t) = t

unfoldable pub row_status : Config → ServiceRow → ℕ → Store → SyncRow → Status
unfolding is_complete bytes_per_second pending_process_count
row_status cfg service now s row =
    let pending_download = length s.unregistered in
    let pending_process = pending_process_count s in
    let due = or_zero (s.next_update_due service.service_id) in
    let complete = is_complete row pending_download pending_process in
    record {
      enabled = cfg.enabled;
      configured = true;
      service_name = service.name;
      service_key = service.service_key;
      host = cfg.host;
      port = cfg.port;
      account_mode = row.account_mode;
      phase = row.phase;
      is_running = not (row.is_running == 0);
      is_complete = complete;
      is_up_to_date = complete && ltb_ℤ (pos 0) due && ltb_ℤ (pos (now / 1000)) due;
      metadata_slice = row.metadata_slice;
      downloaded_update_count = row.downloaded_update_count;
      downloaded_update_bytes = row.downloaded_update_bytes;
      current_run_downloaded_bytes = row.current_run_downloaded_bytes;
      current_run_download_ms = row.current_run_download_ms;
      current_run_bytes_per_second =
          bytes_per_second row.current_run_downloaded_bytes row.current_run_download_ms;
      current_run_network_fetched_bytes = pos 0;
      current_run_network_fetch_ms = pos 0;
      current_run_network_bytes_per_second = pos 0;
      processed_definition_count = row.processed_definition_count;
      processed_content_count = row.processed_content_count;
      pending_download_count = pending_download;
      pending_process_count = pending_process;
      next_update_due = due;
      last_sync_mapping_count =
          if leb_ℤ (pos 0) row.last_sync_mapping_count
          then some row.last_sync_mapping_count
          else none;
      retry_at_ms = row.retry_at_ms;
      retry_attempt = row.retry_attempt;
      last_error = text_or_empty row.last_error;
      unavailable_reason = [];
      updated_at_ms = row.updated_at_ms;
    }

unfoldable pub default_status : Config → Status
default_status cfg = record {
  enabled = cfg.enabled;
  configured = false;
  service_name = cfg.service_name;
  service_key = [];
  host = cfg.host;
  port = cfg.port;
  account_mode = shared_read_only;
  phase = if cfg.enabled then idle else disabled;
  is_running = false;
  is_complete = false;
  is_up_to_date = false;
  metadata_slice = pos 0;
  downloaded_update_count = 0;
  downloaded_update_bytes = 0;
  current_run_downloaded_bytes = pos 0;
  current_run_download_ms = pos 0;
  current_run_bytes_per_second = pos 0;
  current_run_network_fetched_bytes = pos 0;
  current_run_network_fetch_ms = pos 0;
  current_run_network_bytes_per_second = pos 0;
  processed_definition_count = 0;
  processed_content_count = 0;
  pending_download_count = 0;
  pending_process_count = 0;
  next_update_due = pos 0;
  last_sync_mapping_count = none;
  retry_at_ms = pos 0;
  retry_attempt = pos 0;
  last_error = [];
  unavailable_reason = [];
  updated_at_ms = 0;
}

-- `lookupPTRSyncStatus`, with `now` in milliseconds. The service row carries the id that the code
-- looks up by its key.
unfoldable pub lookup_status : Config → ServiceRow → ℕ → Store → Status
unfolding default_status row_status
lookup_status cfg service now s = elim s.sync_state [
  | none ↦ record (default_status cfg) {
    service_name = service.name;
    service_key = service.service_key;
  }
  | some row ↦ row_status cfg service now s row
]
