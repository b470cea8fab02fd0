-- ===== src/PtrSync/Manager.antt =====
-- internal/ptrsync/manager.go: the manager of the background runs (`Trigger`, `beginSync`,
-- `enablePTRSyncFromManualTrigger`, `Status`, the wake-ups and the end of the goroutine of a run).
-- Each function is what happens while `runMu` is held.
pub mod Beginning
pub mod Clearing
pub mod Steps
pub mod Triggering
pub mod Resuming
use hydrus_go.Base.{
  ℕ, ◌*◌, Bool, true, false, not, ◌&&◌, ◌||◌, Option, none, some, List, [], ◌∷◌, if◌then◌else◌,
}
use hydrus_go.Base.Strings.{Text, codes, text_eq, is_empty}
use hydrus_go.Base.Results.{Result, ok, err}
use hydrus_go.Base.Int.{ℤ, pos, ltb_ℤ, leb_ℤ}
use hydrus_go.PtrSync.{
  unavailable, retrying, phase_eq, SyncError, sync_already_running, service_name_collision,
  ServiceRow, Store, Status, Config, daemon_service_key,
}
use hydrus_go.PtrSync.Report.{default_status, lookup_status, or_zero, bytes_per_second}
use hydrus_go.PtrSync.Services.{Env, service_by_key}
use hydrus_go.PtrSync.Bundle.{Lease, begin_sync, recover_foundation}
use hydrus_go.PtrSync.Retry.{should_continue_sync, should_schedule_wakeup}
use hydrus_go.PtrSync.Runs.{Outcome, RunIssue, Report, attempt_of, conclude}

pub record ActiveRun : Type 0 where
  pub status : Status
  pub run_token : Text
  pub network_fetched_bytes : ℤ
  pub network_fetch_ms : ℤ
  pub network_bytes_per_second : ℤ

-- `wakeup_at` is the time of the wake-up that is scheduled, `store` the database behind both bundles.
pub record Manager : Type 0 where
  pub cfg : Config
  pub unavailable_reason : Text
  pub readable : Bool
  pub writable : Bool
  pub active_run : Option ActiveRun
  pub wakeup_at : Option ℤ
  pub store : Store

-- What the world gives a call: what the store reads, the random token, the error of NewClient, the
-- error of writing the opt-in marker, and the texts of the store's errors.
pub record Outside : Type 0 where
  pub env : Env
  pub generated : Option Text
  pub client_error : Option Text
  pub marker_error : Option Text
  pub describe : SyncError → Text

pub data TriggerError : Type 0 where
  unavailable_error : Text → TriggerError
  disabled_error : TriggerError
  client_failed : Text → TriggerError
  marker_failed : Text → TriggerError
  store_failed : SyncError → TriggerError

-- A status and an error; the status is none for Status{}.
pub record Answer : Type 0 where
  pub status : Option Status
  pub error : Option TriggerError

abbrev pub answer : Option Status → Option TriggerError → Answer
answer status error = record { status = status; error = error }

-- `GetPTRSyncStatus`
abbrev pub status_of : Config → ℕ → Store → Option ServiceRow → Status
status_of cfg now s none = default_status cfg
status_of cfg now s (some service) = lookup_status cfg service now s

unfoldable pub get_status : Config → ℕ → Store → Status
get_status cfg now s =
    if cfg.enabled
    then status_of cfg now s (service_by_key daemon_service_key s.services)
    else default_status cfg

-- `GetPTRNextUpdateDue`
abbrev pub due_of : Store → Option ServiceRow → ℤ
due_of s none = pos 0
due_of s (some service) = or_zero (s.next_update_due service.service_id)

unfoldable pub get_next_update_due : Config → Store → ℤ
get_next_update_due cfg s =
    if cfg.enabled then due_of s (service_by_key daemon_service_key s.services) else pos 0

-- `disabledStatus`, and with the phase and the reason of a sync that cannot run
abbrev pub unavailable_status : Config → Text → Status
unavailable_status cfg reason = record (default_status cfg) {
  phase = unavailable;
  unavailable_reason = reason;
}

abbrev pub bundles_missing : Text
bundles_missing = codes "PTR sync requires readable and writable Hydrus DB bundles"

-- What `beginSync` returns: a run, a status without a run, or an error.
pub data Begin : Type 0 where
  started : Lease → Begin
  postponed : Status → Begin
  refused : Status → TriggerError → Begin

abbrev pub begun : Config → ℕ → Result SyncError Lease × Store → Begin × Store
begun cfg now (err e, s) = (refused (get_status cfg now s) (store_failed e), s)
begun cfg now (ok lease, s) = (started lease, s)

abbrev pub with_client : Outside → Config → Store → Option Text → Begin × Store
with_client o cfg s (some text) = (refused (get_status cfg o.env.now s) (client_failed text), s)
with_client o cfg s none = begun cfg o.env.now (begin_sync o.env cfg o.generated s)

-- `status.Phase == PhaseRetrying && status.RetryAtMS > now`
abbrev pub is_too_early : ℕ → Status → Bool
is_too_early now status = phase_eq status.phase retrying && ltb_ℤ (pos now) status.retry_at_ms

-- `beginSync`
unfoldable pub begin_run : Outside → Manager → Begin × Store
begin_run o m =
    if not m.cfg.enabled
    then (refused (default_status m.cfg) disabled_error, m.store)
    else if not (is_empty m.unavailable_reason)
    then (
      refused (unavailable_status m.cfg m.unavailable_reason)
          (unavailable_error m.unavailable_reason),
      m.store,
    )
    else if not m.readable || not m.writable
    then (
      refused (unavailable_status m.cfg bundles_missing) (unavailable_error bundles_missing),
      m.store,
    )
    else if is_too_early o.env.now (get_status m.cfg o.env.now m.store)
    then (postponed (get_status m.cfg o.env.now m.store), m.store)
    else with_client o m.cfg m.store o.client_error

abbrev pub enabled_config : Config → Config
enabled_config cfg = record cfg { enabled = true }

-- An answer instead of going on, and the manager by then.
abbrev pub Halt : Type 0
Halt = Option Answer × Manager

abbrev pub marked : Manager → Option Text → Halt
marked m (some text) = (some (answer none (some (marker_failed text))), m)
marked m none = (none, record m { cfg = enabled_config m.cfg; unavailable_reason = [] })

abbrev pub collision_answer : Outside → Config → SyncError → Answer
collision_answer o cfg service_name_collision =
    answer (some (unavailable_status (enabled_config cfg) (o.describe service_name_collision)))
      (some (unavailable_error (o.describe service_name_collision)))
collision_answer o cfg e = answer none (some (store_failed e))

abbrev pub collision_reason : Outside → Text → SyncError → Text
collision_reason o reason service_name_collision = o.describe service_name_collision
collision_reason o reason e = reason

abbrev pub collided : Outside → Manager → SyncError → Halt
collided o m e = (
  some (collision_answer o m.cfg e),
  record m { unavailable_reason = collision_reason o m.unavailable_reason e },
)

abbrev pub recovered : Outside → Manager → Result SyncError Status × Store → Halt
recovered o m (err e, s) = collided o (record m { store = s }) e
recovered o m (ok status, s) = marked (record m { store = s }) o.marker_error

-- `enablePTRSyncFromManualTrigger`
unfoldable pub enable_sync : Outside → Manager → Halt
enable_sync o m =
    if not m.readable || not m.writable
    then (
      some (
          answer (some (unavailable_status m.cfg bundles_missing))
            (some (unavailable_error bundles_missing))),
      m,
    )
    else recovered o m (recover_foundation o.env (enabled_config m.cfg) m.store)

abbrev pub new_run : Lease → ActiveRun
new_run lease = record {
  status = lease.status;
  run_token = lease.run_token;
  network_fetched_bytes = pos 0;
  network_fetch_ms = pos 0;
  network_bytes_per_second = pos 0;
}

-- A sync that is running already is no error.
abbrev pub told_error : TriggerError → Option TriggerError
told_error (store_failed sync_already_running) = none
told_error e = some e

abbrev pub answered : Manager → Begin × Store → Answer × Manager
answered m (started lease, s) = (
  answer (some lease.status) none,
  record m { store = s; active_run = some (new_run lease); wakeup_at = none },
)
answered m (postponed status, s) = (answer (some status) none, record m { store = s })
answered m (refused status e, s) = (answer (some status) (told_error e), record m { store = s })

abbrev pub and_begin : Outside → Halt → Answer × Manager
and_begin o (some a, m) = (a, m)
and_begin o (none, m) = answered m (begin_run o m)

abbrev pub trigger_from : Outside → Manager → Option ActiveRun → Answer × Manager
trigger_from o m (some run) = (answer (some run.status) none, m)
trigger_from o m none =
    if m.cfg.enabled then answered m (begin_run o m) else and_begin o (enable_sync o m)

-- `Trigger`
unfoldable pub trigger : Outside → Manager → Answer × Manager
trigger o m = trigger_from o m m.active_run

-- `schedulePTRWakeup`: a later call replaces the wake-up that is scheduled.
abbrev pub schedule : ℤ → Manager → Manager
schedule at_ms m = if leb_ℤ at_ms (pos 0) then m else record m { wakeup_at = some at_ms }

abbrev pub schedule_asked : Option ℤ → Manager → Manager
schedule_asked none m = m
schedule_asked (some at_ms) m = schedule at_ms m

abbrev pub milliseconds : ℤ → ℤ
milliseconds (pos n) = pos (n * 1000)
milliseconds z = z

-- `updateActiveRunNetworkMetrics`
abbrev pub measure : ℤ → ℤ → ActiveRun → ActiveRun
measure bytes ms run = record run {
  network_fetched_bytes = bytes;
  network_fetch_ms = ms;
  network_bytes_per_second = bytes_per_second bytes ms;
}

abbrev pub measured_run : Text → ℤ → ℤ → ActiveRun → ActiveRun
measured_run token bytes ms run = if text_eq run.run_token token then measure bytes ms run else run

abbrev pub measured_active : Text → ℤ → ℤ → Option ActiveRun → Option ActiveRun
measured_active token bytes ms none = none
measured_active token bytes ms (some run) = some (measured_run token bytes ms run)

unfoldable pub update_active_run_network_metrics : Text → ℤ → ℤ → Manager → Manager
update_active_run_network_metrics token bytes ms m = record m {
  active_run = measured_active token bytes ms m.active_run;
}

-- How the body of a run went: the clock at its end and in the deferred function, the last status that
-- it had, and its outcome.
pub record Course : Type 0 where
  pub now : ℕ
  pub later : ℕ
  pub last : Option Status
  pub outcome : Outcome

abbrev pub concluded : Report × Store → Manager → Report × Manager
concluded (result, s) m = (result, schedule_asked result.wakeup (record m { store = s }))

-- The end of `runStartedSync` in the goroutine of a run, from the end of its body on.
unfoldable pub conclude_run : (SyncError → Text) → Course → ActiveRun → Manager → Report × Manager
conclude_run describe c run m =
    concluded
      (conclude describe c.now c.later m.cfg run.run_token run.status.retry_attempt c.last c.outcome
        m.store)
      m

abbrev pub phase_is_retrying : Option Status → Bool
phase_is_retrying none = false
phase_is_retrying (some status) = phase_eq status.phase retrying

abbrev pub slice_of : Option Status → ℤ
slice_of none = pos 0
slice_of (some status) = status.metadata_slice

-- The end of the goroutine of a run that returned no error and does not wait for a retry: whether it
-- triggers the next run at once, and the manager.
abbrev pub continued : ℕ → ℤ → ℤ → ℤ → Manager → Bool × Manager
continued now due previous_slice current_slice m =
    if should_continue_sync due previous_slice current_slice now
    then (true, m)
    else if should_schedule_wakeup due now
    then (false, schedule (milliseconds due) m)
    else (false, m)

abbrev pub finished : ℕ → ℤ → List RunIssue → Option Status → Manager → Bool × Manager
finished now previous_slice (issue ∷ issues) status m = (false, m)
finished now previous_slice [] status m =
    if phase_is_retrying status
    then (false, m)
    else continued now (get_next_update_due m.cfg m.store) previous_slice (slice_of status) m

-- The goroutine of a run, from the return of `runStartedSync` on.
unfoldable pub clear_run : ℕ → ActiveRun → Report → Manager → Bool × Manager
clear_run now run result m =
    finished now run.status.metadata_slice result.issues result.status
      (record m { active_run = none })

abbrev pub with_network : Option ActiveRun → Status → Status
with_network none status = status
with_network (some run) status =
    if status.is_running
    then record status {
      current_run_network_fetched_bytes = run.network_fetched_bytes;
      current_run_network_fetch_ms = run.network_fetch_ms;
      current_run_network_bytes_per_second = run.network_bytes_per_second;
    }
    else status

abbrev pub needs_readable_bundle : Text
needs_readable_bundle = codes "PTR sync requires a readable Hydrus DB bundle"

-- `Status`
unfoldable pub manager_status : ℕ → Manager → Status
manager_status now m =
    if not m.cfg.enabled
    then default_status m.cfg
    else if not (is_empty m.unavailable_reason)
    then unavailable_status m.cfg m.unavailable_reason
    else if not m.readable
    then unavailable_status m.cfg needs_readable_bundle
    else with_network m.active_run (get_status m.cfg now m.store)
