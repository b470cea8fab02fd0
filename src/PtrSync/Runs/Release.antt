-- ===== src/PtrSync/Runs/Release.antt =====
-- However a run ends, it gives its lease back.
use hydrus_go.Base.{
  ℕ, ◌≡◌, refl, Bool, true, false, Option, none, some, [], inl, inr, Bool-cases, ap, subst, sym,
}
use hydrus_go.Base.Strings.{Text}
use hydrus_go.Base.Results.{Result, ok, err}
use hydrus_go.Base.Int.{ℤ}
use hydrus_go.PtrSync.{SyncError, ServiceRow, Store, Status, Config}
use hydrus_go.PtrSync.Lease.{set_idle}
use hydrus_go.PtrSync.Services.{lookup_service}
use hydrus_go.PtrSync.Bundle.{
  finish_idle_body, finish_idle, complete_success, cancel_sync, failure_body, finish_failure,
}
use hydrus_go.PtrSync.Transactions.{when_enabled-keeps}
use hydrus_go.PtrSync.Outcomes.{finish_idle_body-eq-ok, failure_body-eq-ok}
use hydrus_go.PtrSync.Endings.{free-Held, when_enabled-eq-ok}
use hydrus_go.PtrSync.Interruptions.{finish_failure_lem}
use hydrus_go.PtrSync.Exclusive.{Held}
use hydrus_go.PtrSync.Retry.{
  is_retryable, max_int64, Finish, not_handled, given_up, waiting, not_persisted, server_issue,
  finish_throttled,
}
use hydrus_go.PtrSync.Retry.Budget.{finish_failure_total, finish_throttled_lem}
use hydrus_go.PtrSync.Runs.{
  Failure, Outcome, worked, fetch_failed, step_failed, attempt_of, failure_report, cancel_report,
  settle, after_success, after_finish, conclude,
}

-- A call that ends a run leaves no lease, and one that fails leaves the store.
module _ (now : ℕ) (cfg : Config) (token t : Text) (s : Store) where
  finish_idle-frees :
      (last_error : Text) (count : Bool) {status : Status}
      → (finish_idle now cfg token last_error count s).0 ≡ ok status
      → ¬ Held t (finish_idle now cfg token last_error count s).1
  unfolding finish_idle
  finish_idle-frees last_error count h =
      let (service, found, (row, e, held, made, told)) =
        finish_idle_body-eq-ok now cfg token s last_error count
          (when_enabled-eq-ok cfg (finish_idle_body now cfg token last_error count) s h) in
      free-Held (finish_idle now cfg token last_error count s).1 _ (ap (λ u. u.sync_state) made)
        refl t

  finish_idle-kept :
      (last_error : Text) (count : Bool)
      → (¬ Held t s)
      → ¬ Held t (finish_idle now cfg token last_error count s).1
  unfolding finish_idle
  finish_idle-kept last_error count free =
      when_enabled-keeps cfg (finish_idle_body now cfg token last_error count) s (λ u. ¬ Held t u)
        free
        (λ status after done.
          let (service, found, (row, e, held, made, told)) =
            finish_idle_body-eq-ok now cfg token s last_error count done in
          free-Held after _ (ap (λ u. u.sync_state) made) refl t)

  finish_failure-kept :
      (last_error : Text) → (¬ Held t s) → ¬ Held t (finish_failure now cfg token last_error s).1
  unfolding finish_failure
  finish_failure-kept last_error free =
      when_enabled-keeps cfg (failure_body now cfg token last_error) s (λ u. ¬ Held t u) free
        (λ status after done.
          let (service, found, (row, e, held, made, told)) =
            failure_body-eq-ok now cfg token s last_error done in
          free-Held after _ (ap (λ u. u.sync_state) made) refl t)

  failure_report-store :
      (last : Option Status) (text : Text) (r : Result SyncError Status × Store)
      → (failure_report last text r).1 ≡ r.1
  failure_report-store last text (err e, u) = refl
  failure_report-store last text (ok status, u) = refl

  cancel_report-store :
      (last : Option Status) (text : Text) (r : Result SyncError Status × Store)
      → (cancel_report last text r).1 ≡ r.1
  cancel_report-store last text (err e, u) = refl
  cancel_report-store last text (ok status, u) = refl

  settle-kept :
      (last : Option Status) (cancelled : Bool) (text : Text)
      → (¬ Held t s)
      → ¬ Held t (settle now cfg token last cancelled text s).1
  unfolding cancel_sync
  settle-kept last true text free =
      subst (λ u. ¬ Held t u) (sym (cancel_report-store last text (cancel_sync now cfg token s)))
        (finish_idle-kept [] false free)
  settle-kept last false text free =
      subst (λ u. ¬ Held t u)
        (sym (failure_report-store last text (finish_failure now cfg token text s)))
        (finish_failure-kept text free)

module _ (cfg : Config) (token t : Text) (s : Store) (service : ServiceRow)
    (on : cfg.enabled ≡ true) (found : lookup_service s ≡ ok service) (lease : Held token s) where
  finish_idle_total :
      (now : ℕ) (last_error : Text) (count : Bool)
      → (status : Status) × ((finish_idle now cfg token last_error count s).0 ≡ ok status)
  unfolding finish_idle finish_idle_body set_idle
  finish_idle_total now last_error count =
      let (row, e, held) = lease in rw (on, found, e, held) (_, refl)

  settle-frees :
      (now : ℕ) (last : Option Status) (cancelled : Bool) (text : Text)
      → ¬ Held t (settle now cfg token last cancelled text s).1
  unfolding cancel_sync
  settle-frees now last true text =
      let (status, h) = finish_idle_total now [] false in
      subst (λ u. ¬ Held t u)
        (sym (cancel_report-store now cfg token t s last text (cancel_sync now cfg token s)))
        (finish_idle-frees now cfg token t s [] false h)
  settle-frees now last false text =
      let (status, h) = finish_failure_total now cfg token s service on found lease text in
      subst (λ u. ¬ Held t u)
        (sym
          (failure_report-store now cfg token t s last text (finish_failure now cfg token text s)))
        (finish_failure_lem now cfg token text s status t h).1

  after_success-frees :
      (describe : SyncError → Text) (now later : ℕ) (r : Result SyncError Status × Store)
      → ((status : Status) × (r.0 ≡ ok status))
      → (¬ Held t r.1)
      → ¬ Held t (after_success describe now later cfg token r).1
  after_success-frees describe now later (err e, u) (status, h) free = cc
  after_success-frees describe now later (ok status, u) h free = free

  after_finish-frees :
      (describe : SyncError → Text) (now later : ℕ) (retries : ℤ) (last : Option Status)
      (failure : Failure) (r : Finish × Store)
      → (¬ Held t r.1)
      → ¬ Held t (after_finish describe now later cfg token retries last failure r).1
  after_finish-frees describe now later retries last failure (not_handled, u) free =
      settle-kept later cfg token t u last failure.cancelled failure.text free
  after_finish-frees describe now later retries last failure (waiting status, u) free = free
  after_finish-frees describe now later retries last failure (given_up status, u) free =
      settle-kept later cfg token t u (some status) false (server_issue retries) free
  after_finish-frees describe now later retries last failure (not_persisted e, u) free =
      settle-kept later cfg token t u none false (describe e) free

-- However a run of the daemon service in an enabled sync ends that holds the lease to its end, whether
-- it has done its work, waits for a busy server, gives up, was cancelled or failed, no token holds
-- the lease afterwards.
pub conclude-frees :
    (describe : SyncError → Text) (now later : ℕ) (cfg : Config) (token : Text) (lease_attempt : ℤ)
    (last : Option Status) (outcome : Outcome) (s : Store) (service : ServiceRow) (t : Text)
    → cfg.enabled ≡ true
    → lookup_service s ≡ ok service
    → Held token s
    → ¬ Held t (conclude describe now later cfg token lease_attempt last outcome s).1
unfolding conclude complete_success finish_throttled
conclude-frees describe now later cfg token lease_attempt last worked s service t on found lease =
    let (status, h) = finish_idle_total cfg token t s service on found lease now [] true in
    after_success-frees cfg token t s service on found lease describe now later
      (complete_success now cfg token s) (status, h) (finish_idle-frees now cfg token t s [] true h)
conclude-frees describe now later cfg token lease_attempt last (step_failed cancelled text) s
      service t on found lease =
    settle-frees cfg token t s service on found lease later last cancelled text
conclude-frees describe now later cfg token lease_attempt last (fetch_failed failure) s service t on
      found lease =
    elim (Bool-cases (is_retryable failure.kind)) [
      | inl retryable ↦
          after_finish-frees cfg token t s service on found lease describe now later
            (max_int64 lease_attempt (attempt_of last)) last failure
            (finish_throttled now cfg token lease_attempt (attempt_of last) failure.kind s)
            (finish_throttled_lem now cfg token lease_attempt (attempt_of last) failure.kind s
              service t on found lease retryable).1
      | inr final ↦ rw final (
          settle-frees cfg token t s service on found lease later last failure.cancelled
            failure.text)
    ]
