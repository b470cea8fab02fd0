-- ===== src/PtrSync/Runs/GivingUp.antt =====
-- What a run reports that gives up a busy server.
use hydrus_go.Base.{ℕ, ◌≡◌, refl, true, false, Option, some, [], ◌∷◌, ap, ◌∙◌, arith}
use hydrus_go.Base.Strings.{Text}
use hydrus_go.Base.Results.{ok, err}
use hydrus_go.Base.Int.{ℤ, ltb_ℤ}
use hydrus_go.PtrSync.{idle, SyncError, run_not_active, SyncRow, ServiceRow, Store, Status, Config}
use hydrus_go.PtrSync.Lease.{holds_lease, failed_row, set_failed}
use hydrus_go.PtrSync.Report.{successor}
use hydrus_go.PtrSync.Services.{lookup_service}
use hydrus_go.PtrSync.Bundle.{failure_body, finish_failure}
use hydrus_go.PtrSync.Outcomes.{failure_body-eq-ok}
use hydrus_go.PtrSync.Endings.{when_enabled-eq-ok}
use hydrus_go.PtrSync.Interruptions.{finish_failure_lem}
use hydrus_go.PtrSync.Exclusive.{Held}
use hydrus_go.PtrSync.Retry.{
  is_retryable, max_int64, max_busy_retry_attempts, given_up, server_issue, finish_throttled,
}
use hydrus_go.PtrSync.Retry.Budget.{finish_failure_total, finish_as-ok}
use hydrus_go.PtrSync.Runs.{
  Failure, fetch_failed, report, run_failed, unsaved, attempt_of, conclude, failure_report,
}

-- A run that is over cannot be ended again.
finish_failure-over :
    (now : ℕ) (cfg : Config) (token text : Text) (s : Store) (service : ServiceRow) (row : SyncRow)
    → cfg.enabled ≡ true
    → lookup_service s ≡ ok service
    → s.sync_state ≡ some row
    → row.is_running ≡ 0
    → finish_failure now cfg token text s ≡ (err run_not_active, s)
unfolding finish_failure failure_body set_failed
finish_failure-over now cfg token text s service row on found e over =
    rw (on, found, e, stopped row over) refl
  where
    stopped : (r : SyncRow) → r.is_running ≡ 0 → holds_lease token r ≡ false
    stopped r h = ground arith

-- A run that has made ten attempts and finds the server busy again frees the lease with the reason of
-- the server, and then, since it returns an error, tries to end the run once more: it reports an
-- idle status, the reason, and that the failure could not be persisted.
pub conclude-gives_up :
    (describe : SyncError → Text) (now later : ℕ) (cfg : Config) (token : Text) (lease_attempt : ℤ)
    (last : Option Status) (failure : Failure) (s : Store) (service : ServiceRow)
    → cfg.enabled ≡ true
    → lookup_service s ≡ ok service
    → Held token s
    → is_retryable failure.kind ≡ true
    → ltb_ℤ max_busy_retry_attempts (successor (max_int64 lease_attempt (attempt_of last))) ≡ true
    → (status : Status) × (status.phase ≡ idle)
      × ((conclude describe now later cfg token lease_attempt last (fetch_failed failure) s).0
          ≡ report (some status) (
              run_failed (server_issue (max_int64 lease_attempt (attempt_of last)))
              ∷ unsaved run_not_active
              ∷ []))
unfolding conclude finish_throttled lookup_service finish_failure
conclude-gives_up describe now later cfg token lease_attempt last failure s service on found lease
      retryable over =
    let retries = max_int64 lease_attempt (attempt_of last) in
    let reason = server_issue retries in
    let (status, done) = finish_failure_total now cfg token s service on found lease reason in
    let (_, _, phase, _, _, _) = finish_failure_lem now cfg token reason s status token done in
    let (service', found', (row, e, held, made, told)) =
      failure_body-eq-ok now cfg token s reason
        (when_enabled-eq-ok {a = status} cfg (failure_body now cfg token reason) s done) in
    let after = (finish_failure now cfg token reason s).1 in
    (
      status,
      phase,
      rw (retryable, over, finish_as-ok given_up (finish_failure now cfg token reason s) done)
          (ap (λ r. (failure_report (some status) reason r).0)
            (finish_failure-over later cfg token reason after service
              (failed_row service'.service_id reason now row) on
              (ap (λ (u : Store). lookup_service u) made ∙ found) (ap (λ u. u.sync_state) made)
              refl)),
    )
