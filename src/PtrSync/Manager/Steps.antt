-- ===== src/PtrSync/Manager/Steps.antt =====
-- internal/ptrsync/manager.go: the runs of one manager, interleaved with the calls of everybody else.
-- A run holds the lease for as long as its body works.
use hydrus_go.Base.{ℕ, ◌≡◌, refl, false, Option, none, some, subst, sym, ◌∙◌, if_elim}
use hydrus_go.Base.Strings.{Text, text_eq}
use hydrus_go.Base.Int.{ℤ}
use hydrus_go.PtrSync.{SyncError}
use hydrus_go.PtrSync.Calls.{Call, perform, ends}
use hydrus_go.PtrSync.Exclusive.{Held}
use hydrus_go.PtrSync.Tenure.{perform-Held}
use hydrus_go.PtrSync.Runs.{Report}
use hydrus_go.PtrSync.Manager.{
  ActiveRun, Manager, Outside, trigger, update_active_run_network_metrics, measured_active,
  measured_run, Course, conclude_run, clear_run,
}
use hydrus_go.PtrSync.Manager.Beginning.{Working, triggered-IsSound}
use hydrus_go.PtrSync.Manager.Clearing.{conclude_run-active, clear_run-active}

-- A manager and what the body of its run has returned, if it has.
pub record System : Type 0 where
  pub manager : Manager
  pub returned : Option Report

abbrev system : Manager → Option Report → System
system m returned = record { manager = m; returned = returned }

abbrev pub Spares : Call → Option ActiveRun → Type 0
Spares call none = Unit
Spares call (some run) = ends run.run_token call ≡ false

-- A trigger, by a user, a wake-up or the end of another run; a call on the database that does not
-- end the run; the metrics of a fetch; the end of the body of the run; and the end of its goroutine.
pub data Step : System → System → Type 0 where
  triggered : (o : Outside) (y : System) → Step y (system (trigger o y.manager).1 y.returned)
  called :
      (call : Call) (y : System)
      → Spares call y.manager.active_run
      → Step y (system (record y.manager { store = (perform call y.manager.store).1 }) y.returned)
  measured :
      (token : Text) (bytes ms : ℤ) (y : System)
      → Step y (system (update_active_run_network_metrics token bytes ms y.manager) y.returned)
  ended :
      (describe : SyncError → Text) (c : Course) (run : ActiveRun) (m : Manager)
      → m.active_run ≡ some run
      → Step
          (system m none)
          (system (conclude_run describe c run m).1 (some (conclude_run describe c run m).0))
  cleared :
      (now : ℕ) (run : ActiveRun) (result : Report) (m : Manager)
      → m.active_run ≡ some run
      → Step (system m (some result)) (system (clear_run now run result m).1 none)

pub data Steps : System → System → Type 0 where
  start : (y : System) → Steps y y
  later : (x y z : System) → Steps x y → Step y z → Steps x z

-- A run whose body works has an enabled sync and holds the lease, and nothing has returned without
-- an active run.
unfoldable pub IsSound : System → Type 0
IsSound y = Working y.manager.active_run y.returned y.manager

called-IsSound :
    (call : Call) (y : System)
    → Spares call y.manager.active_run
    → IsSound y
    → IsSound (system (record y.manager { store = (perform call y.manager.store).1 }) y.returned)
unfolding IsSound
called-IsSound call y spared sound = kept y.manager.active_run y.returned spared sound
  where
    kept :
        (a : Option ActiveRun) (r : Option Report)
        → Spares call a
        → Working a r y.manager
        → Working a r (record y.manager { store = (perform call y.manager.store).1 })
    kept none none spared sound = tt
    kept none (some result) spared sound = absurd sound
    kept (some run) none spared (on, lease) =
        (on, perform-Held run.run_token call y.manager.store lease spared)
    kept (some run) (some result) spared sound = tt

measured-IsSound :
    (token : Text) (bytes ms : ℤ) (y : System)
    → IsSound y
    → IsSound (system (update_active_run_network_metrics token bytes ms y.manager) y.returned)
unfolding IsSound update_active_run_network_metrics
measured-IsSound token bytes ms y sound = kept y.manager.active_run y.returned sound
  where
    measured_run-token :
        (run : ActiveRun) → (measured_run token bytes ms run).run_token ≡ run.run_token
    measured_run-token run =
        if_elim (λ (r : ActiveRun). r.run_token ≡ run.run_token) (text_eq run.run_token token) _ _
          (λ _. refl) (λ _. refl)

    kept :
        (a : Option ActiveRun) (r : Option Report)
        → Working a r y.manager
        → Working
            (measured_active token bytes ms a)
            r
            (update_active_run_network_metrics token bytes ms y.manager)
    kept none none sound = tt
    kept none (some result) sound = absurd sound
    kept (some run) none (on, lease) =
        (on, subst (λ t. Held t y.manager.store) (sym (measured_run-token run)) lease)
    kept (some run) (some result) sound = tt

Step-IsSound : {x y : System} → Step x y → IsSound x → IsSound y
unfolding IsSound
Step-IsSound (triggered o y) sound = triggered-IsSound o y.manager y.returned sound
Step-IsSound (called call y spared) sound = called-IsSound call y spared sound
Step-IsSound (measured token bytes ms y) sound = measured-IsSound token bytes ms y sound
Step-IsSound (ended describe c run m active) sound =
    subst
      (λ a. Working a (some (conclude_run describe c run m).0) (conclude_run describe c run m).1)
      (sym (conclude_run-active describe c run m ∙ active)) tt
Step-IsSound (cleared now run result m active) sound =
    subst (λ a. Working a none (clear_run now run result m).1)
      (sym (clear_run-active now run result m)) tt

-- Whatever the user, the wake-ups, other runs and other callers do, a run of the manager has an
-- enabled sync and holds the lease for as long as its body works, and its goroutine clears the run
-- that it has started; from any such system on, provided that no other call ends a run with its token
-- and no recovery comes during it.
pub Steps-IsSound : {x y : System} → Steps x y → IsSound x → IsSound y
Steps-IsSound (start y) sound = sound
Steps-IsSound (later x y z steps step) sound = Step-IsSound step (Steps-IsSound steps sound)
