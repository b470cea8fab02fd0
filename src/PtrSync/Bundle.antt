-- ===== src/PtrSync/Bundle.antt =====
-- ptrsync.go: the calls of the write bundle that begin, report on and end a sync run, each one
-- immediate transaction.
use hydrus_go.Base.{ℕ, Bool, true, false, Option, none, some, [], if◌then◌else◌, length}
use hydrus_go.Base.Strings.{Text}
use hydrus_go.Base.Results.{Result, ok, err, ◌>>=◌}
use hydrus_go.Base.Int.{ℤ}
use hydrus_go.PtrSync.{
  SyncError, sync_disabled, token_not_generated, ServiceRow, SyncRow, Store, Status, Config,
  with_immediate_tx,
}
use hydrus_go.PtrSync.Lease.{
  set_running, ensure_run_active, set_idle, set_failed, set_throttled, update_active,
  downloaded_bytes,
}
use hydrus_go.PtrSync.Report.{lookup_status, next_update_index}
use hydrus_go.PtrSync.Services.{Env, prepare_foundation, lookup_service}

-- `if !cfg.Enabled { return ..., ErrSyncDisabled }` before the transaction.
abbrev pub when_enabled :
    {A : Type 0}
    → Config
    → (Store → Result SyncError (A × Store))
    → Store
    → Result SyncError A × Store
when_enabled cfg body s = if cfg.enabled then with_immediate_tx body s else (err sync_disabled, s)

-- The status that a call returns along with the store it commits.
abbrev pub with_status :
    Config → ℕ → ServiceRow → Unit {0} × Store → Result SyncError (Status × Store)
with_status cfg now service p = ok (lookup_status cfg service now p.1, p.1)

abbrev pub generated_token : Option Text → Result SyncError Text
generated_token none = err token_not_generated
generated_token (some token) = ok token

-- `PTRSyncLease`
pub record Lease : Type 0 where
  pub run_token : Text
  pub status : Status

abbrev pub lease_of : Config → ℕ → ServiceRow → Text × Store → Lease × Store
lease_of cfg now service p =
    (record { run_token = p.0; status = lookup_status cfg service now p.1 }, p.1)

-- `BeginPTRSync`; the token is none if the random source fails.
unfoldable pub begin_body : Env → Config → Option Text → Store → Result SyncError (Lease × Store)
begin_body env cfg generated s = prepare_foundation env cfg false s >>= λ p.
    generated_token generated >>= λ token.
    set_running p.0.service_id token env.now p.1 >>= λ q. ok (lease_of cfg env.now p.0 q)

unfoldable pub begin_sync : Env → Config → Option Text → Store → Result SyncError Lease × Store
begin_sync env cfg generated = when_enabled cfg (begin_body env cfg generated)

-- `RecoverPTRSyncFoundation`, which does not ask whether the sync is enabled.
unfoldable pub recover_body : Env → Config → Store → Result SyncError (Status × Store)
recover_body env cfg s =
    prepare_foundation env cfg true s >>= λ p. with_status cfg env.now p.0 (tt, p.1)

unfoldable pub recover_foundation : Env → Config → Store → Result SyncError Status × Store
recover_foundation env cfg = with_immediate_tx (recover_body env cfg)

abbrev pub counted_mappings : Bool → Store → Option ℕ
counted_mappings update_mapping_count s =
    if update_mapping_count then some (length s.current_mappings) else none

-- `finishPTRSyncIdle`
unfoldable pub finish_idle_body :
    ℕ → Config → Text → Text → Bool → Store → Result SyncError (Status × Store)
finish_idle_body now cfg token last_error update_mapping_count s = lookup_service s >>= λ service.
    set_idle service.service_id token (next_update_index s.repository_updates) last_error
      (counted_mappings update_mapping_count s) now s
    >>= with_status cfg now service

unfoldable pub finish_idle :
    ℕ → Config → Text → Text → Bool → Store → Result SyncError Status × Store
finish_idle now cfg token last_error update_mapping_count =
    when_enabled cfg (finish_idle_body now cfg token last_error update_mapping_count)

-- `CompletePTRSyncSuccess`
unfoldable pub complete_success : ℕ → Config → Text → Store → Result SyncError Status × Store
complete_success now cfg token = finish_idle now cfg token [] true

-- `CancelPTRSync`
unfoldable pub cancel_sync : ℕ → Config → Text → Store → Result SyncError Status × Store
cancel_sync now cfg token = finish_idle now cfg token [] false

-- `SetPTRSyncThrottled`
unfoldable pub throttle_body : ℕ → Config → Text → ℤ → ℤ → Store → Result SyncError (Status × Store)
throttle_body now cfg token retry_at_ms retry_attempt s = lookup_service s >>= λ service.
    set_throttled service.service_id token retry_at_ms retry_attempt now s
    >>= with_status cfg now service

unfoldable pub throttle_sync : ℕ → Config → Text → ℤ → ℤ → Store → Result SyncError Status × Store
throttle_sync now cfg token retry_at_ms retry_attempt =
    when_enabled cfg (throttle_body now cfg token retry_at_ms retry_attempt)

-- `FinishPTRSyncFailure`
unfoldable pub failure_body : ℕ → Config → Text → Text → Store → Result SyncError (Status × Store)
failure_body now cfg token last_error s = lookup_service s >>= λ service.
    set_failed service.service_id token last_error now s >>= with_status cfg now service

unfoldable pub finish_failure : ℕ → Config → Text → Text → Store → Result SyncError Status × Store
finish_failure now cfg token last_error = when_enabled cfg (failure_body now cfg token last_error)

-- `UpdatePTRSyncDownloadMetrics`
abbrev pub measured : ℕ → ℤ → ℤ → Store → SyncRow → SyncRow
measured now bytes ms s row = record row {
  downloaded_update_count = length s.processed;
  downloaded_update_bytes = downloaded_bytes s.processed;
  current_run_downloaded_bytes = bytes;
  current_run_download_ms = ms;
  updated_at_ms = now;
}

unfoldable pub metrics_body : ℕ → Config → Text → ℤ → ℤ → Store → Result SyncError (Status × Store)
metrics_body now cfg token bytes ms s = lookup_service s >>= λ service.
    ensure_run_active service.service_id token s >>= λ _.
    update_active token (measured now bytes ms s) s >>= with_status cfg now service

unfoldable pub update_metrics : ℕ → Config → Text → ℤ → ℤ → Store → Result SyncError Status × Store
update_metrics now cfg token bytes ms = when_enabled cfg (metrics_body now cfg token bytes ms)
