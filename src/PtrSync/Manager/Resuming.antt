-- ===== src/PtrSync/Manager/Resuming.antt =====
-- internal/ptrsync/manager.go: how a run that meets a busy server is taken up again.
use hydrus_go.Base.{
  ℕ, ◌+◌, ◌≡◌, refl, true, false, none, some, [], ap, subst, sym, ◌∙◌, if◌then◌else◌, arith,
}
use hydrus_go.Base.Strings.{Text}
use hydrus_go.Base.Results.{Result, ok}
use hydrus_go.Base.Int.{ℤ, pos, ltb_ℤ, leb_ℤ, ◌≤ℤ◌}
use hydrus_go.PtrSync.{
  SyncError, SyncRow, ServiceRow, Store, Status, daemon_service_key, retrying, phase_eq,
}
use hydrus_go.PtrSync.Lease.{throttled_row}
use hydrus_go.PtrSync.Report.{successor}
use hydrus_go.PtrSync.Services.{found_service, lookup_service, service_by_key}
use hydrus_go.PtrSync.Bundle.{throttle_sync, throttle_body}
use hydrus_go.PtrSync.Interruptions.{throttle_sync_lem}
use hydrus_go.PtrSync.Exclusive.{Held}
use hydrus_go.PtrSync.Outcomes.{throttle_body-eq-ok}
use hydrus_go.PtrSync.Endings.{when_enabled-eq-ok}
use hydrus_go.PtrSync.Retry.{
  is_retryable, busy_pause, retry_delay, max_int64, max_busy_retry_attempts, waiting,
  finish_throttled,
}
use hydrus_go.PtrSync.Retry.Budget.{throttle_sync_total, finish_as-ok}
use hydrus_go.PtrSync.Runs.{
  Failure, fetch_failed, Report, report, attempt_of, conclude, after_finish,
}
use hydrus_go.PtrSync.Manager.{
  ActiveRun, Manager, Outside, answer, answered, with_client, get_status, is_too_early, trigger,
  postponed, Course, conclude_run, clear_run, schedule_asked, concluded, continued,
  get_next_update_due,
}
use hydrus_go.PtrSync.Manager.Triggering.{
  trigger-ready, begin_run-ready, answered-if, is_too_early-waiting,
}

-- A manager after both ends of a run.
abbrev pub after_run : (SyncError → Text) → Course → ℕ → ActiveRun → Manager → Manager
after_run describe c now run m =
    let ended = conclude_run describe c run m in (clear_run now run ended.0 ended.1).1

module _ (describe : SyncError → Text) (c : Course) (failure : Failure) (run : ActiveRun)
    (m : Manager) (service : ServiceRow) (on : m.cfg.enabled ≡ true)
    (found : lookup_service m.store ≡ ok service) (lease : Held run.run_token m.store)
    (failed : c.outcome ≡ fetch_failed failure) (retryable : is_retryable failure.kind ≡ true)
    (within : ltb_ℤ max_busy_retry_attempts
        (successor (max_int64 run.status.retry_attempt (attempt_of c.last)))
      ≡ false)
    (now : ℕ) (o : Outside) (readable : m.readable ≡ true) (writable : m.writable ≡ true)
    (available : m.unavailable_reason ≡ []) where
  retry_at : ℤ
  retry_at = pos (c.now + retry_delay failure.kind)

  attempt : ℤ
  attempt = successor (max_int64 run.status.retry_attempt (attempt_of c.last))

  throttled : Result SyncError Status × Store
  throttled = throttle_sync c.now m.cfg run.run_token retry_at attempt m.store

  -- The run has left a row that waits.
  waited :
      (status : Status) × (row : SyncRow) × (throttled.0 ≡ ok status)
      × (throttled.1.services ≡ m.store.services)
      × (throttled.1.sync_state ≡ some row)
      × (row.phase ≡ retrying)
      × (row.retry_at_ms ≡ retry_at)
  unfolding throttled throttle_sync
  waited =
      let (status, h) =
        throttle_sync_total c.now m.cfg run.run_token m.store service on found lease retry_at
          attempt in
      let (service', _, (row, _, _, made, _)) =
        throttle_body-eq-ok c.now m.cfg run.run_token m.store retry_at attempt (
          when_enabled-eq-ok m.cfg (throttle_body c.now m.cfg run.run_token retry_at attempt)
            m.store h) in
      (
        status,
        throttled_row service'.service_id retry_at attempt c.now row,
        h,
        ap (λ u. u.services) made,
        ap (λ u. u.sync_state) made,
        refl,
        refl,
      )

  waiting_status :
      (status : Status)
      → throttled.0 ≡ ok status
      → (status.phase ≡ retrying) × (status.retry_at_ms ≡ retry_at)
  unfolding throttled
  waiting_status status h =
      let (_, _, phase, _, at, _, _) =
        throttle_sync_lem c.now m.cfg run.run_token retry_at attempt m.store status [] h in
      (phase, at)

  finishes :
      (status : Status)
      → throttled.0 ≡ ok status
      → finish_throttled c.now m.cfg run.run_token run.status.retry_attempt
          (attempt_of c.last)
          failure.kind
          m.store
        ≡ (waiting status, throttled.1)
  unfolding finish_throttled throttled attempt retry_at
  finishes status h = rw (retryable, within) (finish_as-ok waiting throttled h)

  -- The manager after the run.
  resting : Manager
  resting = record m { store = throttled.1; wakeup_at = some retry_at; active_run = none }

  after_pause : pos (c.now + busy_pause) ≤ℤ retry_at
  unfolding retry_at
  after_pause = ground arith

  scheduled :
      (at : ℤ) (n : Manager)
      → at ≡ retry_at
      → schedule_asked (some at) n ≡ record n { wakeup_at = some retry_at }
  scheduled at n same = rw (same, positive retry_at after_pause) refl
    where
      positive : (at : ℤ) → pos (c.now + busy_pause) ≤ℤ at → leb_ℤ at (pos 0) ≡ false
      positive at h = ground arith

  told : Status → Report
  told status = record (report (some status) []) { wakeup = some status.retry_at_ms }

  run_concluded :
      (status : Status)
      → throttled.0 ≡ ok status
      → status.retry_at_ms ≡ retry_at
      → conclude_run describe c run m
        ≡ (told status, record m { store = throttled.1; wakeup_at = some retry_at })
  unfolding conclude_run conclude told
  run_concluded status h at =
      ap
        (λ outcome.
          concluded
            (conclude describe c.now c.later m.cfg run.run_token run.status.retry_attempt c.last
              outcome m.store)
            m)
        failed
      ∙ ap
          (λ f.
            concluded
              (after_finish describe c.now c.later m.cfg run.run_token
                (max_int64 run.status.retry_attempt (attempt_of c.last)) c.last failure f)
              m)
          (finishes status h)
      ∙ ap (λ n. (told status, n))
          (scheduled status.retry_at_ms (record m { store = throttled.1 }) at)

  clears :
      (status : Status) (n : Manager)
      → status.phase ≡ retrying
      → (clear_run now run (told status) n).1 ≡ record n { active_run = none }
  unfolding clear_run told
  clears status n phase =
      ap
        (λ p.
          (if phase_eq p retrying
            then (false, record n { active_run = none })
            else continued now (get_next_update_due n.cfg n.store) run.status.metadata_slice
                status.metadata_slice (record n { active_run = none })).1)
        phase

  after_run-resting : after_run describe c now run m ≡ resting
  unfolding resting
  after_run-resting =
      let (status, row, h, _, _, _, _) = waited in
      let (phase, at) = waiting_status status h in
      ap (λ e. (clear_run now run e.0 e.1).1) (run_concluded status h at)
      ∙ clears status (record m { store = throttled.1; wakeup_at = some retry_at }) phase

  trigger-resting : trigger o resting ≡ (
      if ltb_ℤ (pos o.env.now) retry_at
      then (answer (some (get_status m.cfg o.env.now throttled.1)) none, resting)
      else answered resting (with_client o m.cfg throttled.1 o.client_error))
  unfolding resting lookup_service
  trigger-resting =
      let (status, row, h, services, stored, phase, at) = waited in
      trigger-ready o resting refl on
      ∙ ap (answered resting) (begin_run-ready o resting on available readable writable)
      ∙ answered-if resting (is_too_early o.env.now (get_status m.cfg o.env.now throttled.1)) _ _
      ∙ ap
          (λ b.
            if b
            then answered resting (postponed (get_status m.cfg o.env.now throttled.1), throttled.1)
            else answered resting (with_client o m.cfg throttled.1 o.client_error))
          (is_too_early-waiting o.env.now m.cfg throttled.1 service row on
              (ap (λ l. found_service (service_by_key daemon_service_key l)) services ∙ found)
              stored phase
            ∙ ap (ltb_ℤ (pos o.env.now)) at)

  -- A run of the daemon service in an enabled sync that holds the lease, meets a busy server or a
  -- transient error of a fetch, and has an attempt left, leaves no active run and a wake-up that is at
  -- least the pause away. If the bundles are open and the sync is not marked unavailable, a trigger
  -- before that time leaves the manager as it is and answers with the status, and a trigger from that
  -- time on goes on to begin a run.
  pub trigger-after_run :
      (at : ℤ) × (pos (c.now + busy_pause) ≤ℤ at)
      × ((after_run describe c now run m).wakeup_at ≡ some at)
      × ((after_run describe c now run m).active_run ≡ none)
      × (trigger o (after_run describe c now run m) ≡ (
          if ltb_ℤ (pos o.env.now) at
          then (
            answer (some (get_status m.cfg o.env.now (after_run describe c now run m).store)) none,
            after_run describe c now run m,
          )
          else answered
              (after_run describe c now run m)
              (with_client o m.cfg (after_run describe c now run m).store o.client_error)))
  unfolding resting
  trigger-after_run =
      subst
        (λ n.
          (at : ℤ) × (pos (c.now + busy_pause) ≤ℤ at)
          × (n.wakeup_at ≡ some at)
          × (n.active_run ≡ none)
          × (trigger o n ≡ (
              if ltb_ℤ (pos o.env.now) at
              then (answer (some (get_status m.cfg o.env.now n.store)) none, n)
              else answered n (with_client o m.cfg n.store o.client_error))))
        (sym after_run-resting) (retry_at, after_pause, refl, refl, trigger-resting)
