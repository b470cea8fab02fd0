-- ===== src/ImportQueue/System.antt =====
-- `processImportQueue` beside the buttons: the steps of the window, in the order in which they take
-- `queueMu`. Between two steps of the goroutine any button may be pressed.
pub mod Flight
pub mod Buttons
pub mod Goroutine
pub mod Consistency
use hydrus_go.Base.{ℕ, Bool, true, false, Option, none, some, List, [], ◌∷◌, ◌++◌, if◌then◌else◌}
use hydrus_go.Base.Strings.{Text, codes}
use hydrus_go.Base.Int.{ℤ, pos, show_ℤ}
use hydrus_go.ImportQueue.{Status, imported, duplicate, failed}
use hydrus_go.ImportQueue.Processor.{
  Queue, append_entries, start_processor, begin_next, finish_entry, requeue_entry, clear_queue,
  retry_selected, retry_failed_entries, remove_selected, clear_finished_entries, select_entry,
  unselect_entry, render_queue,
}

-- What `UploadFile` returned: the id and whether the file was imported already, or an error.
pub data Upload : Type 0 where
  uploaded : ℤ → Bool → Upload
  upload_error : Text → Upload

-- Where the goroutine stands: not running, at the top of its loop, waiting for the upload of the
-- entry at an index, or about to clear `importQueueRunning` after a pause.
pub data Worker : Type 0 where
  off ready stopping : Worker
  busy : ℕ → Text → Worker

pub record System : Type 0 where
  pub queue : Queue
  pub worker : Worker

pub data Event : Type 0 where
  append : List Text → Text → Event
  start : Bool → Event
  press_retry press_retry_failed press_remove press_clear_finished press_clear render : Event
  select unselect : ℤ → Event
  -- The goroutine goes on; the argument is `isCurrentOperation`.
  proceed : Bool → Event
  -- The upload that the goroutine waits for returns.
  returns : Bool → Upload → Event

abbrev pub outcome_status : Upload → Status
outcome_status (uploaded id true) = duplicate
outcome_status (uploaded id false) = imported
outcome_status (upload_error message) = failed

abbrev pub outcome_id : Upload → ℤ
outcome_id (uploaded id already) = id
outcome_id (upload_error message) = pos 0

abbrev pub outcome_detail : Upload → Text
outcome_detail (uploaded id true) = codes "Already present as file_id " ++ show_ℤ id ++ codes "."
outcome_detail (uploaded id false) = codes "Imported as file_id " ++ show_ℤ id ++ codes "."
outcome_detail (upload_error message) = message

abbrev started : Queue × Bool → Worker → System
started (q, true) w = record { queue = q; worker = ready }
started (q, false) w = record { queue = q; worker = w }

abbrev begun : Option (ℕ × Text) × Queue → System
begun (none, q) = record { queue = q; worker = off }
begun (some (index, path), q) = record { queue = q; worker = busy index path }

abbrev stopped : Queue → System
stopped q = record { queue = record q { running = false }; worker = off }

unfoldable pub proceed_worker : Worker → Bool → Queue → System
proceed_worker off current q = record { queue = q; worker = off }
proceed_worker ready current q = if current then begun (begin_next q) else stopped q
proceed_worker stopping current q = stopped q
proceed_worker (busy index path) current q = record { queue = q; worker = busy index path }

unfoldable pub return_upload : Worker → Bool → Upload → Queue → System
return_upload (busy index path) true result q = record {
  queue = finish_entry index (outcome_status result) (outcome_id result) (outcome_detail result) q;
  worker = ready;
}
return_upload (busy index path) false result q = record {
  queue = requeue_entry index (codes "Waiting to resume after connection change.") q;
  worker = stopping;
}
return_upload w current result q = record { queue = q; worker = w }

unfoldable pub step : Event → System → System
step (append paths source) s = record s { queue = (append_entries paths source s.queue).0 }
step (start connected) s = started (start_processor connected s.queue) s.worker
step press_retry s = record s { queue = retry_selected s.queue }
step press_retry_failed s = record s { queue = retry_failed_entries s.queue }
step press_remove s = record s { queue = remove_selected s.queue }
step press_clear_finished s = record s { queue = clear_finished_entries s.queue }
step press_clear s = record s { queue = clear_queue s.queue }
step render s = record s { queue = render_queue s.queue }
step (select id) s = record s { queue = select_entry id s.queue }
step (unselect id) s = record s { queue = unselect_entry id s.queue }
step (proceed current) s = proceed_worker s.worker current s.queue
step (returns current result) s = return_upload s.worker current result s.queue

unfoldable pub run : List Event → System → System
run [] s = s
run (e ∷ events) s = run events (step e s)
