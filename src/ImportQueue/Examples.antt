-- ===== src/ImportQueue/Examples.antt =====
-- The import queue with two files.
use hydrus_go.Base.{◌+◌, true, false, some, List, [], ◌∷◌, ◌≡◌, refl, length, get_elem?}
use hydrus_go.Base.Strings.{codes, trim_space, text_eq}
use hydrus_go.Base.Int.{pos, negsuc}
use hydrus_go.Base.Paths.{clean}
use hydrus_go.ImportQueue.{Entry, uploading, imported, failed, retry_failed, clear_finished}
use hydrus_go.ImportQueue.Processor.{
  Queue, modify, append_entries, append_loop, append_path, index_paths, start_processor,
  has_pending, begin_next, first_pending, retry_failed_entries, remove_selected,
}
use hydrus_go.ImportQueue.System.{
  System, Event, append, start, press_remove, press_retry_failed, proceed, off, busy, step, run,
  proceed_worker,
}
use hydrus_go.ImportQueue.System.Flight.{IsConsistent}
use hydrus_go.ImportQueue.System.Consistency.{run-IsConsistent, run-InFlight}
use hydrus_go.ImportQueue.Entries.{unfinished, clear_finished_lem}

abbrev empty_queue : Queue
empty_queue = record { entries = []; running = false; selected = negsuc 0 }

abbrev window : System
window = record { queue = empty_queue; worker = off }

abbrev presses : List Event
presses =
    append (codes "/a" ∷ codes "/b/" ∷ codes "/b" ∷ []) (codes "file picker")
    ∷ start true
    ∷ proceed true
    ∷ press_remove
    ∷ press_retry_failed
    ∷ []

abbrev entry_a : Entry
entry_a = record {
  path = codes "/a";
  source = codes "drop";
  status = failed;
  detail = [];
  file_id = pos 0;
}

abbrev entry_b : Entry
entry_b = record entry_a { path = codes "/b"; status = imported }

window-IsConsistent : IsConsistent window
window-IsConsistent = record { flag = refl; holds = tt }

uploads_a : (run presses window).worker ≡ busy 0 (codes "/a")
unfolding run step append_entries append_loop append_path index_paths clean trim_space text_eq
    start_processor has_pending proceed_worker begin_next first_pending modify remove_selected
    retry_failed_entries retry_failed
uploads_a = refl

run-InFlight_example :
    ((run presses window).queue.running ≡ true)
    × ((e : Entry) × (get_elem? (run presses window).queue.entries 0 ≡ some e)
        × (e.path ≡ codes "/a")
        × (e.status ≡ uploading))
run-InFlight_example = run-InFlight presses window 0 (codes "/a") window-IsConsistent uploads_a

run-IsConsistent_example : IsConsistent (run presses window)
run-IsConsistent_example = run-IsConsistent presses window window-IsConsistent

clear_finished_lem_example :
    ((clear_finished (entry_a ∷ entry_b ∷ [])).0 ≡ unfinished (entry_a ∷ entry_b ∷ []))
    × (length (clear_finished (entry_a ∷ entry_b ∷ [])).0
          + (clear_finished (entry_a ∷ entry_b ∷ [])).1
        ≡ 2)
clear_finished_lem_example = clear_finished_lem (entry_a ∷ entry_b ∷ [])
