-- ===== src/PtrSync/Interruptions.antt =====
-- How a run is broken off: by a busy server, by an error, or by a restart of the daemon.
use hydrus_go.Base.{ℕ, ◌≡◌, refl, true, false, some, ap, subst, sym, arith, ◌∙◌}
use hydrus_go.Base.Strings.{Text}
use hydrus_go.Base.Results.{ok}
use hydrus_go.Base.Int.{ℤ, pos, ◌≤ℤ◌}
use hydrus_go.PtrSync.{
  idle, throttling, daemon_service_key, SyncRow, ServiceRow, Store, Status, Config,
}
use hydrus_go.PtrSync.Lease.{counted_attempt, upsert_sync_state, waits_in}
use hydrus_go.PtrSync.Report.{lookup_status, row_status, is_complete}
use hydrus_go.PtrSync.Services.{Env, service_by_key}
use hydrus_go.PtrSync.Bundle.{recover_body, recover_foundation, throttle_body, throttle_sync}
use hydrus_go.PtrSync.Outcomes.{throttle_body-eq-ok, recover_body-eq-ok}
use hydrus_go.PtrSync.Exclusive.{Held}
use hydrus_go.PtrSync.Coherence.{upsert_sync_state-IsWaiting}
use hydrus_go.PtrSync.Endings.{free-Held, commit-eq-ok, when_enabled-eq-ok}
use hydrus_go.PtrSync.Outcomes.{failure_body-eq-ok}
use hydrus_go.PtrSync.Bundle.{failure_body, finish_failure}
use hydrus_go.PtrSync.Lease.{failure_text}

-- `SetPTRSyncThrottled` succeeds only for the token of the run; it frees the lease and reports the
-- time and the number of the next attempt, which is at least 1.
pub throttle_sync_lem :
    (now : ℕ) (cfg : Config) (token : Text) (at_ms attempt : ℤ) (s : Store) (status : Status)
    (t : Text)
    → (throttle_sync now cfg token at_ms attempt s).0 ≡ ok status
    → Held token s
      × (¬ Held t (throttle_sync now cfg token at_ms attempt s).1)
      × (status.phase ≡ throttling)
      × (status.is_complete ≡ false)
      × (status.retry_at_ms ≡ at_ms)
      × (status.retry_attempt ≡ counted_attempt attempt)
      × (pos 1 ≤ℤ status.retry_attempt)
unfolding throttle_sync lookup_status row_status is_complete
throttle_sync_lem now cfg token at_ms attempt s status t h =
    let (service, found, (row, e, held, made, told)) =
      throttle_body-eq-ok now cfg token s at_ms attempt
        (when_enabled-eq-ok cfg (throttle_body now cfg token at_ms attempt) s h) in
    let reported = told ∙ ap (lookup_status cfg service now) made in
    (
      (row, e, held),
      free-Held (throttle_sync now cfg token at_ms attempt s).1 _ (ap (λ u. u.sync_state) made) refl
          t,
      ap (λ r. r.phase) reported,
      ap (λ r. r.is_complete) reported,
      ap (λ r. r.retry_at_ms) reported,
      ap (λ r. r.retry_attempt) reported,
      subst (λ a. pos 1 ≤ℤ a) (sym (ap (λ r. r.retry_attempt) reported)) (at_least_one attempt),
    )
  where
    at_least_one : (a : ℤ) → pos 1 ≤ℤ counted_attempt a
    at_least_one a = ground arith

-- `FinishPTRSyncFailure` succeeds only for the token of the run; it frees the lease and reports an
-- idle sync that is not complete, with the trimmed error, or with a fixed text for a blank one.
pub finish_failure_lem :
    (now : ℕ) (cfg : Config) (token last_error : Text) (s : Store) (status : Status) (t : Text)
    → (finish_failure now cfg token last_error s).0 ≡ ok status
    → Held token s
      × (¬ Held t (finish_failure now cfg token last_error s).1)
      × (status.phase ≡ idle)
      × (status.is_complete ≡ false)
      × (status.last_error ≡ failure_text last_error)
      × (status.retry_attempt ≡ pos 0)
unfolding finish_failure lookup_status row_status is_complete
finish_failure_lem now cfg token last_error s status t h =
    let (service, found, (row, e, held, made, told)) =
      failure_body-eq-ok now cfg token s last_error
        (when_enabled-eq-ok cfg (failure_body now cfg token last_error) s h) in
    let reported = told ∙ ap (lookup_status cfg service now) made in
    (
      (row, e, held),
      free-Held (finish_failure now cfg token last_error s).1 _ (ap (λ u. u.sync_state) made) refl
          t,
      ap (λ r. r.phase) reported,
      ap (λ r. r.is_complete) reported,
      ap (λ r. r.last_error) reported,
      ap (λ r. r.retry_attempt) reported,
    )

upsert_sync_state-throttled :
    (id now : ℕ) (s : Store) (row : SyncRow)
    → s.sync_state ≡ some row
    → waits_in throttling id row ≡ true
    → (upsert_sync_state true id now s).sync_state ≡ some row
unfolding upsert_sync_state
upsert_sync_state-throttled id now s row e waits = rw (e, waits) refl

-- `RecoverPTRSyncFoundation`, where it succeeds, leaves no token with a lease and reports a sync that
-- is not running.
pub recover_foundation_frees :
    (env : Env) (cfg : Config) (s : Store) (status : Status) (token : Text)
    → (recover_foundation env cfg s).0 ≡ ok status
    → (¬ Held token (recover_foundation env cfg s).1) × (status.is_running ≡ false)
unfolding recover_foundation lookup_status row_status
recover_foundation_frees env cfg s status token h =
    let (service, t, same, made, id, told) =
      recover_body-eq-ok env cfg s (commit-eq-ok s (recover_body env cfg s) h) in
    let (row, e, (free, _, _)) = upsert_sync_state-IsWaiting service.service_id env.now t in
    let stored = ap (λ u. u.sync_state) made ∙ e in
    (
      free-Held (recover_foundation env cfg s).1 row stored free token,
      told_free (recover_foundation env cfg s).1 row service told stored free,
    )
  where
    told_free :
        (after : Store) (row : SyncRow) (service : ServiceRow)
        → status ≡ lookup_status cfg service env.now after
        → after.sync_state ≡ some row
        → row.is_running ≡ 0
        → status.is_running ≡ false
    told_free after row service told e free = ap (λ r. r.is_running) told ∙ rw (e, free) refl

-- `RecoverPTRSyncFoundation`, where it succeeds, keeps a row that waits for a retry of the daemon
-- service that is there.
pub recover_foundation_kept :
    (env : Env) (cfg : Config) (s : Store) (status : Status) (there : ServiceRow) (row : SyncRow)
    → (recover_foundation env cfg s).0 ≡ ok status
    → service_by_key daemon_service_key s.services ≡ some there
    → s.sync_state ≡ some row
    → waits_in throttling there.service_id row ≡ true
    → (recover_foundation env cfg s).1.sync_state ≡ some row
unfolding recover_foundation
recover_foundation_kept env cfg s status there row h known e waits =
    let (service, t, same, made, id, told) =
      recover_body-eq-ok env cfg s (commit-eq-ok s (recover_body env cfg s) h) in
    ap (λ u. u.sync_state) made
    ∙ upsert_sync_state-throttled service.service_id env.now t row (same ∙ e)
        (subst (λ i. waits_in throttling i row ≡ true) (sym (id there known)) waits)
