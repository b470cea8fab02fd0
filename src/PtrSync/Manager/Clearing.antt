-- ===== src/PtrSync/Manager/Clearing.antt =====
-- internal/ptrsync/manager.go: which end of a run clears it.
use hydrus_go.Base.{ℕ, ◌≡◌, refl, Bool, false, Option, none, some, List, [], ◌∷◌, if_elim}
use hydrus_go.Base.Strings.{Text}
use hydrus_go.Base.Int.{ℤ, pos, leb_ℤ}
use hydrus_go.PtrSync.{SyncError, Store, Status}
use hydrus_go.PtrSync.Retry.{should_continue_sync, should_schedule_wakeup}
use hydrus_go.PtrSync.Runs.{Report, RunIssue, conclude}
use hydrus_go.PtrSync.Manager.{
  ActiveRun, Manager, Course, conclude_run, clear_run, concluded, schedule, schedule_asked,
  milliseconds, finished, phase_is_retrying, slice_of, get_next_update_due,
}

pub conclude_run-active :
    (describe : SyncError → Text) (c : Course) (run : ActiveRun) (m : Manager)
    → (conclude_run describe c run m).1.active_run ≡ m.active_run
unfolding conclude_run
conclude_run-active describe c run m = kept (
    conclude describe c.now c.later m.cfg run.run_token run.status.retry_attempt c.last c.outcome
      m.store)
  where
    asked : (at : Option ℤ) (m : Manager) → (schedule_asked at m).active_run ≡ m.active_run
    asked none m = refl
    asked (some at_ms) m =
        if_elim (λ (n : Manager). n.active_run ≡ m.active_run) (leb_ℤ at_ms (pos 0)) _ _ (λ _. refl)
          (λ _. refl)

    kept : (r : Report × Store) → (concluded r m).1.active_run ≡ m.active_run
    kept (result, s) = asked result.wakeup (record m { store = s })

pub clear_run-active :
    (now : ℕ) (run : ActiveRun) (result : Report) (m : Manager)
    → (clear_run now run result m).1.active_run ≡ none
unfolding clear_run
clear_run-active now run result m = by_issues result.issues result.status
  where
    Cleared : Bool × Manager → Type 0
    Cleared r = r.1.active_run ≡ none

    clear : Manager
    clear = record m { active_run = none }

    due : ℤ
    due = get_next_update_due m.cfg m.store

    scheduled : Cleared (false, schedule (milliseconds due) clear)
    scheduled =
        if_elim (λ (n : Manager). n.active_run ≡ none) (leb_ℤ (milliseconds due) (pos 0)) _ _
          (λ _. refl) (λ _. refl)

    by_issues :
        (issues : List RunIssue) (status : Option Status)
        → Cleared (finished now run.status.metadata_slice issues status clear)
    by_issues (issue ∷ issues) status = refl
    by_issues [] status =
        if_elim Cleared (phase_is_retrying status) _ _ (λ _. refl)
          (λ _.
            if_elim Cleared
              (should_continue_sync due run.status.metadata_slice (slice_of status) now) _ _
              (λ _. refl)
              (λ _.
                if_elim Cleared (should_schedule_wakeup due now) _ _ (λ _. scheduled) (λ _. refl)))
