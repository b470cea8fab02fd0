-- ===== src/PtrSync/RunExamples.antt =====
-- Runs of the manager on concrete stores.
use hydrus_go.Base.{◌≤◌, ◌+◌, true, false, none, some, [], ◌∷◌, ◌≡◌, refl, if◌then◌else◌}
use hydrus_go.Base.Strings.{Text, codes}
use hydrus_go.Base.Int.{ℤ, pos, ltb_ℤ, ◌≤ℤ◌}
use hydrus_go.PtrSync.{idle, SyncError, run_not_active, Status}
use hydrus_go.PtrSync.Report.{lookup_status}
use hydrus_go.PtrSync.Exclusive.{Held}
use hydrus_go.PtrSync.Retry.{busy, busy_pause, server_issue}
use hydrus_go.PtrSync.Runs.{Failure, fetch_failed, report, run_failed, unsaved, conclude}
use hydrus_go.PtrSync.Runs.Release.{conclude-frees}
use hydrus_go.PtrSync.Runs.Waiting.{Round, waits_in_a_row, waits_in_a_row-le}
use hydrus_go.PtrSync.Runs.GivingUp.{conclude-gives_up}
use hydrus_go.PtrSync.Manager.{
  ActiveRun, Manager, Outside, answer, answered, with_client, get_status, trigger, Course,
}
use hydrus_go.PtrSync.Manager.Steps.{System, Steps, start, later, triggered, IsSound, Steps-IsSound}
use hydrus_go.PtrSync.Manager.Resuming.{after_run, trigger-after_run}
use hydrus_go.PtrSync.Examples.{
  cfg, env, token, tag_service, idle_store, busy_store, held, found_busy,
}

abbrev describe : SyncError → Text
describe e = codes "sync error"

abbrev busy_failure : Failure
busy_failure = record { kind = busy 900000; cancelled = false; text = codes "busy" }

conclude-frees_example :
    ¬ Held token
      (conclude describe 5300 5301 cfg token (pos 2) none (fetch_failed busy_failure) busy_store).1
conclude-frees_example =
    conclude-frees describe 5300 5301 cfg token (pos 2) none (fetch_failed busy_failure) busy_store
      tag_service token refl found_busy held

conclude-gives_up_example :
    (status : Status) × (status.phase ≡ idle)
    × ((conclude describe 5300 5301 cfg token
          (pos 10)
          none
          (fetch_failed busy_failure)
          busy_store).0
        ≡ report (some status) (run_failed (server_issue (pos 10)) ∷ unsaved run_not_active ∷ []))
conclude-gives_up_example =
    conclude-gives_up describe 5300 5301 cfg token (pos 10) none busy_failure busy_store tag_service
      refl found_busy held refl refl

abbrev round : Round
round = record { env = env; generated = some token; last = none; kind = busy 900000; now = 5300 }

waits_in_a_row-le_example : waits_in_a_row cfg (round ∷ round ∷ []) idle_store ≤ 10
waits_in_a_row-le_example = waits_in_a_row-le cfg (round ∷ round ∷ []) idle_store

abbrev outside : Outside
outside = record {
  env = env;
  generated = some token;
  client_error = none;
  marker_error = none;
  describe = describe;
}

abbrev manager : Manager
manager = record {
  cfg = cfg;
  unavailable_reason = [];
  readable = true;
  writable = true;
  active_run = none;
  wakeup_at = none;
  store = idle_store;
}

abbrev before : System
before = record { manager = manager; returned = none }

abbrev triggered_once : System
triggered_once = record { manager = (trigger outside manager).1; returned = none }

abbrev triggered_twice : System
triggered_twice = record { manager = (trigger outside triggered_once.manager).1; returned = none }

two_triggers : Steps before triggered_twice
two_triggers =
    later before triggered_once triggered_twice
      (later before before triggered_once (start before) (triggered outside before))
      (triggered outside triggered_once)

before-IsSound : IsSound before
unfolding IsSound
before-IsSound = tt

Steps-IsSound_example : IsSound triggered_twice
Steps-IsSound_example = Steps-IsSound two_triggers before-IsSound

abbrev active : ActiveRun
active = record {
  status = lookup_status cfg tag_service 5000 busy_store;
  run_token = token;
  network_fetched_bytes = pos 0;
  network_fetch_ms = pos 0;
  network_bytes_per_second = pos 0;
}

abbrev busy_manager : Manager
busy_manager = record manager { active_run = some active; store = busy_store }

abbrev course : Course
course = record { now = 5300; later = 5301; last = none; outcome = fetch_failed busy_failure }

abbrev resting_manager : Manager
resting_manager = after_run describe course 5302 active busy_manager

trigger-after_run_example :
    (at : ℤ) × (pos (5300 + busy_pause) ≤ℤ at)
    × (resting_manager.wakeup_at ≡ some at)
    × (resting_manager.active_run ≡ none)
    × (trigger outside resting_manager ≡ (
        if ltb_ℤ (pos 5000) at
        then (answer (some (get_status cfg 5000 resting_manager.store)) none, resting_manager)
        else answered resting_manager (with_client outside cfg resting_manager.store none)))
unfolding lookup_status
trigger-after_run_example =
    trigger-after_run describe course busy_failure active busy_manager tag_service refl found_busy
      held refl refl refl 5302 outside refl refl refl
