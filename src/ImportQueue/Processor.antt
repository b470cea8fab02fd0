-- ===== src/ImportQueue/Processor.antt =====
-- internal/desktop/fyneapp/app.go and import_queue_widget.go: the queue of a window, the goroutine
-- that uploads its entries one after another, and the buttons that change it meanwhile.
use hydrus_go.Base.{
  ℕ, zero, suc, ◌+◌, Bool, true, false, Option, none, some, List, [], ◌∷◌, ◌++◌, ◌||◌, ◌&&◌, not,
  ◌==◌, if◌then◌else◌, length, get_elem?,
}
use hydrus_go.Base.Strings.{Text, codes, trim_space, text_eq, is_empty}
use hydrus_go.Base.Maps
use hydrus_go.Base.Maps.{Map}
use hydrus_go.Base.Paths
use hydrus_go.Base.Int.{ℤ, pos, negsuc, eqb_ℤ}
use hydrus_go.ImportQueue.{
  Status, pending, uploading, Entry, is_failed, is_pending, retry, retry_failed, clear_finished,
  remove, normalize_selection, selected_index,
}

-- `importQueue`, `importQueueRunning` and `selectedQueueIndex`, which `queueMu` guards.
pub record Queue : Type 0 where
  pub entries : List Entry
  pub running : Bool
  pub selected : ℤ

-- Replaces the entry at an index; past the end nothing happens.
unfoldable pub modify : (Entry → Entry) → ℕ → List Entry → List Entry
modify f index [] = []
modify f zero (entry ∷ entries) = f entry ∷ entries
modify f (suc index) (entry ∷ entries) = entry ∷ modify f index entries

-- The map `existing`: the last index of every path.
unfoldable pub index_paths : ℕ → List Entry → Map ℕ → Map ℕ
index_paths index [] existing = existing
index_paths index (entry ∷ entries) existing =
    index_paths (suc index) entries (Maps.insert entry.path index existing)

pub record Append : Type 0 where
  pub queue : List Entry
  pub existing : Map ℕ
  pub added : ℕ
  pub duplicates : ℕ

abbrev pub fresh_entry : Text → Text → Entry
fresh_entry path source = record {
  path = path;
  source = source;
  status = pending;
  detail = codes "Waiting to upload through hydrusd.";
  file_id = pos 0;
}

abbrev pub retried_entry : Text → Entry → Entry
retried_entry source entry = record entry {
  status = pending;
  source = source;
  detail = codes "Retrying after a previous failure.";
  file_id = pos 0;
}

-- A path that is queued already: a failed entry is queued again, any other counts as a duplicate.
abbrev pub append_known : Text → ℕ → Option Entry → Append → Append
append_known source index none s = record s { duplicates = s.duplicates + 1 }
append_known source index (some entry) s =
    if is_failed entry.status
    then record s { queue = modify (retried_entry source) index s.queue; added = s.added + 1 }
    else record s { duplicates = s.duplicates + 1 }

abbrev pub append_at : Text → Text → Option ℕ → Append → Append
append_at path source (some index) s = append_known source index (get_elem? s.queue index) s
append_at path source none s = record s {
  queue = s.queue ++ fresh_entry path source ∷ [];
  existing = Maps.insert path (length s.queue) s.existing;
  added = s.added + 1;
}

abbrev pub normal_path : Text → Text
normal_path path = Paths.clean (trim_space path)

unfoldable pub append_path : Text → Text → Append → Append
append_path path source s =
    let normalized = normal_path path in
    if text_eq normalized (codes ".") || is_empty normalized
    then s
    else append_at normalized source (s.existing normalized) s

unfoldable pub append_loop : List Text → Text → Append → Append
append_loop [] source s = s
append_loop (path ∷ paths) source s = append_loop paths source (append_path path source s)

abbrev pub start_append : List Entry → Append
start_append entries = record {
  queue = entries;
  existing = index_paths 0 entries Maps.empty;
  added = 0;
  duplicates = 0;
}

-- `appendImportQueueEntries`: the queue afterwards, and how many paths were added or were there.
unfoldable pub append_entries : List Text → Text → Queue → Queue × ℕ × ℕ
append_entries paths source q =
    let s = append_loop paths source (start_append q.entries) in
    (record q { entries = s.queue }, s.added, s.duplicates)

unfoldable pub has_pending : List Entry → Bool
has_pending [] = false
has_pending (entry ∷ entries) = is_pending entry.status || has_pending entries

-- `startImportQueueProcessor`: whether the goroutine is started.
unfoldable pub start_processor : Bool → Queue → Queue × Bool
start_processor connected q =
    if connected && (not q.running && has_pending q.entries)
    then (record q { running = true }, true)
    else (q, false)

abbrev pub streaming : Entry → Entry
streaming entry = record entry { status = uploading; detail = codes "Streaming to hydrusd..." }

abbrev pub later : Option (ℕ × Text) → Option (ℕ × Text)
later none = none
later (some (index, path)) = some (suc index, path)

-- The first pending entry.
unfoldable pub first_pending : List Entry → Option (ℕ × Text)
first_pending [] = none
first_pending (entry ∷ entries) =
    if is_pending entry.status then some (0, entry.path) else later (first_pending entries)

abbrev pub begin_at : Option (ℕ × Text) → Queue → Option (ℕ × Text) × Queue
begin_at none q = (none, record q { running = false })
begin_at (some (index, path)) q =
    (some (index, path), record q { entries = modify streaming index q.entries })

-- `beginNextImportQueueEntry`
unfoldable pub begin_next : Queue → Option (ℕ × Text) × Queue
begin_next q = begin_at (first_pending q.entries) q

abbrev pub finished_entry : Status → ℤ → Text → Entry → Entry
finished_entry status file_id detail entry = record entry {
  status = status;
  file_id = file_id;
  detail = trim_space detail;
}

-- `finishImportQueueEntry`
unfoldable pub finish_entry : ℕ → Status → ℤ → Text → Queue → Queue
finish_entry index status file_id detail q = record q {
  entries = modify (finished_entry status file_id detail) index q.entries;
}

-- `requeueImportQueueEntry`
unfoldable pub requeue_entry : ℕ → Text → Queue → Queue
requeue_entry index detail q = record q {
  entries = modify (finished_entry pending (pos 0) detail) index q.entries;
}

abbrev pub drop_entries : List Entry → Queue → Queue
drop_entries [] q = q
drop_entries (entry ∷ entries) q = record q { entries = []; selected = negsuc 0 }

-- `clearImportQueue`
unfoldable pub clear_queue : Queue → Queue
clear_queue q = if q.running then q else drop_entries q.entries q

abbrev pub retry_at : ℤ → Queue → Queue
retry_at (negsuc n) q = q
retry_at (pos index) q = record q {
  entries =
      modify (λ entry. (retry entry (codes "Retrying selected queue item.")).0) index q.entries;
}

-- The part of `retrySelectedQueueEntry` under the lock.
unfoldable pub retry_selected : Queue → Queue
retry_selected q = retry_at (normalize_selection q.selected (length q.entries)) q

unfoldable pub retry_failed_entries : Queue → Queue
retry_failed_entries q = record q {
  entries = (retry_failed q.entries (codes "Retrying after queue review.")).0;
}

abbrev pub remove_selected_at : ℤ → Queue → Queue
remove_selected_at selected q =
    let (updated, removed) = remove q.entries selected in
    if removed
    then record q { entries = updated; selected = normalize_selection selected (length updated) }
    else q

-- `removeSelectedQueueEntry`
unfoldable pub remove_selected : Queue → Queue
remove_selected q =
    if q.running
    then q
    else remove_selected_at (normalize_selection q.selected (length q.entries)) q

abbrev pub path_at : ℤ → List Entry → Text
path_at (negsuc n) entries = []
path_at (pos index) entries = elim (get_elem? entries index) [ none ↦ [] | some entry ↦ entry.path ]

-- `clearFinishedQueueEntries`
unfoldable pub clear_finished_entries : Queue → Queue
clear_finished_entries q =
    let selected = normalize_selection q.selected (length q.entries) in
    let (updated, removed) = clear_finished q.entries in
    if q.running || (removed == 0) then q else record q {
      entries = updated;
      selected = selected_index updated (path_at selected q.entries) selected;
    }

unfoldable pub select_entry : ℤ → Queue → Queue
select_entry id q = record q { selected = id }

unfoldable pub unselect_entry : ℤ → Queue → Queue
unselect_entry id q = if eqb_ℤ q.selected id then record q { selected = negsuc 0 } else q

-- `renderImportQueue` stores the selection that it shows.
unfoldable pub render_queue : Queue → Queue
render_queue q = record q { selected = normalize_selection q.selected (length q.entries) }
