-- ===== src/PtrSync/Runs.antt =====
-- internal/ptrsync/manager.go: how a run ends (`runStartedSync` from a success or an error on, with
-- its deferred function).
pub mod Release
pub mod Waiting
pub mod GivingUp
use hydrus_go.Base.{ℕ, Bool, true, false, Option, none, some, List, [], ◌∷◌, ◌++◌, if◌then◌else◌}
use hydrus_go.Base.Strings.{Text}
use hydrus_go.Base.Results.{Result, ok, err}
use hydrus_go.Base.Int.{ℤ, pos}
use hydrus_go.PtrSync.{SyncError, Store, Status, Config}
use hydrus_go.PtrSync.Bundle.{complete_success, cancel_sync, finish_failure}
use hydrus_go.PtrSync.Retry.{
  RunError, max_int64, Finish, not_handled, given_up, waiting, not_persisted, server_issue,
  finish_throttled,
}

-- An error of the run: its kind, whether it is context.Canceled, and its text.
pub record Failure : Type 0 where
  pub kind : RunError
  pub cancelled : Bool
  pub text : Text

-- What the body of the run came to: all its work, an error of a fetch, or an error of another step.
pub data Outcome : Type 0 where
  worked : Outcome
  fetch_failed : Failure → Outcome
  step_failed : Bool → Text → Outcome

-- The errors that the run returns joined.
pub data RunIssue : Type 0 where
  run_failed : Text → RunIssue
  unsaved : SyncError → RunIssue

-- `status` is none for Status{}; `wakeup` is the time of the wake-up that the run has asked for.
pub record Report : Type 0 where
  pub status : Option Status
  pub issues : List RunIssue
  pub wakeup : Option ℤ

abbrev pub report : Option Status → List RunIssue → Report
report status issues = record { status = status; issues = issues; wakeup = none }

abbrev pub attempt_of : Option Status → ℤ
attempt_of none = pos 0
attempt_of (some status) = status.retry_attempt

abbrev pub failure_report : Option Status → Text → Result SyncError Status × Store → Report × Store
failure_report last text (err e, s) = (report last (run_failed text ∷ unsaved e ∷ []), s)
failure_report last text (ok status, s) = (report (some status) (run_failed text ∷ []), s)

abbrev pub cancel_report : Option Status → Text → Result SyncError Status × Store → Report × Store
cancel_report last text (err e, s) = (report last (run_failed text ∷ unsaved e ∷ []), s)
cancel_report last text (ok status, s) = (report (some status) [], s)

-- The deferred function, where no terminal state was persisted. `later` is its clock.
abbrev pub settle : ℕ → Config → Text → Option Status → Bool → Text → Store → Report × Store
settle later cfg token last cancelled text s =
    if cancelled
    then cancel_report last text (cancel_sync later cfg token s)
    else failure_report last text (finish_failure later cfg token text s)

-- `describe` is the text of an error of the store.
module _ (describe : SyncError → Text) (now later : ℕ) (cfg : Config) (token : Text) where
  abbrev pub after_success : Result SyncError Status × Store → Report × Store
  after_success (err e, s) = settle later cfg token none false (describe e) s
  after_success (ok status, s) = (report (some status) [], s)

  abbrev pub after_finish : ℤ → Option Status → Failure → Finish × Store → Report × Store
  after_finish retries last failure (not_handled, s) =
      settle later cfg token last failure.cancelled failure.text s
  after_finish retries last failure (waiting status, s) =
      (record (report (some status) []) { wakeup = some status.retry_at_ms }, s)
  after_finish retries last failure (given_up status, s) =
      settle later cfg token (some status) false (server_issue retries) s
  after_finish retries last failure (not_persisted e, s) =
      settle later cfg token none false (describe e) s

  unfoldable pub conclude : ℤ → Option Status → Outcome → Store → Report × Store
  conclude lease_attempt last worked s = after_success (complete_success now cfg token s)
  conclude lease_attempt last (fetch_failed failure) s =
      after_finish (max_int64 lease_attempt (attempt_of last)) last failure
        (finish_throttled now cfg token lease_attempt (attempt_of last) failure.kind s)
  conclude lease_attempt last (step_failed cancelled text) s =
      settle later cfg token last cancelled text s
