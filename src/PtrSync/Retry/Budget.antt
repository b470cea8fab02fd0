-- ===== src/PtrSync/Retry/Budget.antt =====
-- A busy server is asked again at most ten times in a row, never sooner than the pause, and the lease
-- is given back either way.
use hydrus_go.Base.{ℕ, ◌+◌, ◌≡◌, refl, true, false, sym, subst, arith, if_elim}
use hydrus_go.Base.Strings.{Text}
use hydrus_go.Base.Results.{Result, ok, err}
use hydrus_go.Base.Int.{ℤ, pos, ltb_ℤ, ◌≤ℤ◌}
use hydrus_go.PtrSync.{idle, SyncError, ServiceRow, Store, Status, Config}
use hydrus_go.PtrSync.Lease.{set_throttled, set_failed, counted_attempt}
use hydrus_go.PtrSync.Report.{successor}
use hydrus_go.PtrSync.Services.{lookup_service}
use hydrus_go.PtrSync.Bundle.{throttle_body, throttle_sync, failure_body, finish_failure}
use hydrus_go.PtrSync.Exclusive.{Held}
use hydrus_go.PtrSync.Interruptions.{throttle_sync_lem, finish_failure_lem}
use hydrus_go.PtrSync.Retry.{
  RunError, is_retryable, max_int64, busy_pause, max_busy_retry_attempts, Finish, not_handled,
  given_up, waiting, not_persisted, finish_as, finish_throttled, retry_delay, server_issue,
}

module _ (now : ℕ) (cfg : Config) (token : Text) (s : Store) (service : ServiceRow)
    (on : cfg.enabled ≡ true) (found : lookup_service s ≡ ok service) (lease : Held token s) where
  pub throttle_sync_total :
      (at_ms attempt : ℤ)
      → (status : Status) × ((throttle_sync now cfg token at_ms attempt s).0 ≡ ok status)
  unfolding throttle_sync throttle_body set_throttled
  throttle_sync_total at_ms attempt =
      let (row, e, held) = lease in rw (on, found, e, held) (_, refl)

  pub finish_failure_total :
      (last_error : Text)
      → (status : Status) × ((finish_failure now cfg token last_error s).0 ≡ ok status)
  unfolding finish_failure failure_body set_failed
  finish_failure_total last_error = let (row, e, held) = lease in rw (on, found, e, held) (_, refl)

-- The run ended, and either the server is asked again later or the sync has given up.
abbrev pub Ended : ℕ → ℤ → Finish → Type 0
Ended now retries (waiting status) =
    (status.retry_attempt ≡ counted_attempt (successor retries))
    × (pos 1 ≤ℤ status.retry_attempt)
    × (status.retry_attempt ≤ℤ max_busy_retry_attempts)
    × (pos (now + busy_pause) ≤ℤ status.retry_at_ms)
Ended now retries (given_up status) =
    (max_busy_retry_attempts ≤ℤ retries) × (status.phase ≡ idle) × (status.retry_attempt ≡ pos 0)
Ended now retries not_handled = ⊥
Ended now retries (not_persisted e) = ⊥

pub finish_as-ok :
    (done : Status → Finish) (r : Result SyncError Status × Store) {status : Status}
    → r.0 ≡ ok status
    → finish_as done r ≡ (done status, r.1)
finish_as-ok done (err e, s) h = cc
finish_as-ok done (ok a, s) h = cc

-- A run of the daemon service that holds the lease of an enabled sync and meets a busy server or a
-- transient error ends without one: at most ten attempts in a row wait, each for at least the pause,
-- and the eleventh gives up.
pub finish_throttled_lem :
    (now : ℕ) (cfg : Config) (token : Text) (lease_attempt status_attempt : ℤ)
    (run_error : RunError) (s : Store) (service : ServiceRow) (t : Text)
    → cfg.enabled ≡ true
    → lookup_service s ≡ ok service
    → Held token s
    → is_retryable run_error ≡ true
    → Ended now
        (max_int64 lease_attempt status_attempt)
        (finish_throttled now cfg token lease_attempt status_attempt run_error s).0
      × (¬ Held t (finish_throttled now cfg token lease_attempt status_attempt run_error s).1)
unfolding finish_throttled
finish_throttled_lem now cfg token lease_attempt status_attempt run_error s service t on found lease
      retryable =
    rw retryable (
      if_elim (λ (r : Finish × Store). Ended now retries r.0 × (¬ Held t r.1))
        (ltb_ℤ max_busy_retry_attempts (successor retries)) _ _ exhausted again)
  where
    retries : ℤ
    retries = max_int64 lease_attempt status_attempt

    at_ms : ℤ
    at_ms = pos (now + retry_delay run_error)

    later : pos (now + busy_pause) ≤ℤ at_ms
    later = ground arith

    spent :
        (r : ℤ) → ltb_ℤ max_busy_retry_attempts (successor r) ≡ true → max_busy_retry_attempts ≤ℤ r
    spent r h = ground arith

    within :
        (r : ℤ)
        → ltb_ℤ max_busy_retry_attempts (successor r) ≡ false
        → counted_attempt (successor r) ≤ℤ max_busy_retry_attempts
    within r h = ground arith

    exhausted :
        ltb_ℤ max_busy_retry_attempts (successor retries) ≡ true
        → Ended now retries
            (finish_as given_up (finish_failure now cfg token (server_issue retries) s)).0
          × (¬ Held t
              (finish_as given_up (finish_failure now cfg token (server_issue retries) s)).1)
    exhausted over =
        let (status, h) =
          finish_failure_total now cfg token s service on found lease (server_issue retries) in
        let (_, freed, phase, _, _, attempt) =
          finish_failure_lem now cfg token (server_issue retries) s status t h in
        subst (λ (r : Finish × Store). Ended now retries r.0 × (¬ Held t r.1))
          (sym (finish_as-ok given_up (finish_failure now cfg token (server_issue retries) s) h))
          ((spent retries over, phase, attempt), freed)

    again :
        ltb_ℤ max_busy_retry_attempts (successor retries) ≡ false
        → Ended now retries
            (finish_as waiting (throttle_sync now cfg token at_ms (successor retries) s)).0
          × (¬ Held t
              (finish_as waiting (throttle_sync now cfg token at_ms (successor retries) s)).1)
    again under =
        let (status, h) =
          throttle_sync_total now cfg token s service on found lease at_ms (successor retries) in
        let (_, freed, _, _, at, attempt, positive) =
          throttle_sync_lem now cfg token at_ms (successor retries) s status t h in
        subst (λ (r : Finish × Store). Ended now retries r.0 × (¬ Held t r.1))
          (sym (finish_as-ok waiting (throttle_sync now cfg token at_ms (successor retries) s) h))
          (
            (
              attempt,
              positive,
              subst (λ a. a ≤ℤ max_busy_retry_attempts) (sym attempt) (within retries under),
              subst (λ a. pos (now + busy_pause) ≤ℤ a) (sym at) later,
            ),
            freed,
          )
