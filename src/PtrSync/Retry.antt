-- ===== src/PtrSync/Retry.antt =====
-- internal/ptrsync/manager.go: what a sync run does about a busy server
-- (`finishPTRSyncThrottled`), and when the next run is due.
pub mod Budget
use hydrus_go.Base.{
  ℕ, ◌+◌, ◌*◌, ◌/◌, Bool, true, false, not, ◌&&◌, Option, none, some, List, [], ◌∷◌, ◌++◌,
  if◌then◌else◌, ltb,
}
use hydrus_go.Base.Strings.{Text, codes}
use hydrus_go.Base.Results.{Result, ok, err}
use hydrus_go.Base.Int.{ℤ, pos, ltb_ℤ, leb_ℤ, show_ℤ}
use hydrus_go.PtrSync.{SyncError, Store, Status, Config}
use hydrus_go.PtrSync.Report.{successor}
use hydrus_go.PtrSync.Bundle.{throttle_sync, finish_failure}

-- The errors of a run as `ptrBusyRetryAfter` and `ptrTransientTransport` tell them apart; the delay
-- that a busy server asked for is in milliseconds.
pub data RunError : Type 0 where
  busy : ℕ → RunError
  transient : RunError
  other : RunError

abbrev pub busy_delay : RunError → ℕ
busy_delay (busy delay) = delay
busy_delay transient = 0
busy_delay other = 0

abbrev pub is_retryable : RunError → Bool
is_retryable (busy delay) = true
is_retryable transient = true
is_retryable other = false

abbrev pub max_int64 : ℤ → ℤ → ℤ
max_int64 a b = if ltb_ℤ b a then a else b

abbrev pub busy_pause : ℕ
busy_pause = 600000

abbrev pub max_busy_retry_attempts : ℤ
max_busy_retry_attempts = pos 10

-- The three results of `finishPTRSyncThrottled`, and the error of a write that failed. Giving up also
-- returns the reason as an error, and waiting schedules a wake-up at the retry time of the status.
pub data Finish : Type 0 where
  not_handled : Finish
  given_up : Status → Finish
  waiting : Status → Finish
  not_persisted : SyncError → Finish

abbrev pub server_issue : ℤ → Text
server_issue retries =
    codes "PTR server issue: remote stayed busy after "
    ++ show_ℤ retries
    ++ codes " retries; please try again later"

abbrev pub finish_as : (Status → Finish) → Result SyncError Status × Store → Finish × Store
finish_as done (err e, s) = (not_persisted e, s)
finish_as done (ok status, s) = (done status, s)

abbrev pub retry_delay : RunError → ℕ
retry_delay run_error =
    if ltb busy_pause (busy_delay run_error) then busy_delay run_error else busy_pause

unfoldable pub finish_throttled : ℕ → Config → Text → ℤ → ℤ → RunError → Store → Finish × Store
finish_throttled now cfg token lease_attempt status_attempt run_error s =
    if not (is_retryable run_error)
    then (not_handled, s)
    else let retries = max_int64 lease_attempt status_attempt in
      let attempt = successor retries in
      if ltb_ℤ max_busy_retry_attempts attempt
      then finish_as given_up (finish_failure now cfg token (server_issue retries) s)
      else finish_as waiting
          (throttle_sync now cfg token (pos (now + retry_delay run_error)) attempt s)

-- `shouldContinuePTRSync` and `shouldSchedulePTRNextUpdateWakeup`, with the clock in milliseconds.
abbrev pub is_after : ℤ → ℕ → Bool
is_after seconds now = ltb_ℤ (pos now) (times_1000 seconds)
  where
    times_1000 : ℤ → ℤ
    times_1000 (pos n) = pos (1000 * n)
    times_1000 z = pos 0

unfoldable pub should_continue_sync : ℤ → ℤ → ℤ → ℕ → Bool
should_continue_sync next_update_due previous_slice current_slice now =
    if leb_ℤ next_update_due (pos 0)
    then false
    else if is_after next_update_due now
    then false
    else ltb_ℤ previous_slice current_slice

unfoldable pub should_schedule_wakeup : ℤ → ℕ → Bool
should_schedule_wakeup next_update_due now =
    if leb_ℤ next_update_due (pos 0) then false else is_after next_update_due now
