-- ===== src/ImportQueue.antt =====
-- internal/desktop/fyneapp/import_queue.go: the entries of the desktop client's import queue, and
-- the functions on them that the queue's buttons call.
pub mod Processor
pub mod System
pub mod Distinct
mod Examples
pub mod Entries
use hydrus_go.Base.{
  ℕ, zero, suc, ◌+◌, ◌-◌, Bool, true, false, Option, none, some, List, [], ◌∷◌, ◌++◌, map, ◌||◌,
  not, ltb, if◌then◌else◌, length, get_elem?, take, drop,
}
use hydrus_go.Base.Strings.{Text, codes, trim_space, text_eq, is_empty}
use hydrus_go.Base.Int.{ℤ, pos, negsuc, ltb_ℤ, leb_ℤ, show_ℕ}

pub data Status : Type 0 where
  pending uploading imported duplicate failed : Status

pub record Entry : Type 0 where
  pub path : Text
  pub source : Text
  pub status : Status
  pub detail : Text
  pub file_id : ℤ

abbrev pub is_failed : Status → Bool
is_failed failed = true
is_failed _ = false

abbrev pub is_pending : Status → Bool
is_pending pending = true
is_pending _ = false

abbrev pub is_uploading : Status → Bool
is_uploading uploading = true
is_uploading _ = false

unfoldable pub can_retry : Entry → Bool
can_retry entry = is_failed entry.status

unfoldable pub can_remove : Entry → Bool
can_remove entry = not (is_uploading entry.status)

abbrev finished_status : Status → Bool
finished_status imported = true
finished_status duplicate = true
finished_status failed = true
finished_status _ = false

unfoldable pub is_finished : Entry → Bool
is_finished entry = finished_status entry.status

-- `retryImportQueueEntry`, with the entry that it points to afterwards.
unfoldable pub retry : Entry → Text → Entry × Bool
unfolding can_retry
retry entry detail =
    if can_retry entry
    then (record entry { status = pending; file_id = pos 0; detail = trim_space detail }, true)
    else (entry, false)

unfoldable pub retry_failed : List Entry → Text → List Entry × ℕ
retry_failed [] detail = ([], 0)
retry_failed (entry ∷ entries) detail =
    let (entry', done) = retry entry detail in
    let (entries', retried) = retry_failed entries detail in
    (entry' ∷ entries', if done then retried + 1 else retried)

-- The kept entries and the number of removed ones.
unfoldable pub clear_finished : List Entry → List Entry × ℕ
clear_finished [] = ([], 0)
clear_finished (entry ∷ entries) =
    let (kept, removed) = clear_finished entries in
    if is_finished entry then (kept, removed + 1) else (entry ∷ kept, removed)

abbrev remove_at : List Entry → ℕ → Option Entry → List Entry × Bool
remove_at entries index none = (entries, false)
remove_at entries index (some entry) =
    if can_remove entry
    then (take index entries ++ drop (suc index) entries, true)
    else (entries, false)

-- An index below zero, or past the end, removes nothing.
unfoldable pub remove : List Entry → ℤ → List Entry × Bool
remove entries (negsuc n) = (entries, false)
remove entries (pos index) = remove_at entries index (get_elem? entries index)

find_from : ℕ → List Entry → Text → ℤ
find_from index [] path = negsuc 0
find_from index (entry ∷ entries) path =
    if text_eq entry.path path then pos index else find_from (suc index) entries path

unfoldable pub find_by_path : List Entry → Text → ℤ
unfolding find_from
find_by_path entries path =
    let normalized = trim_space path in
    if is_empty normalized then negsuc 0 else find_from 0 entries normalized

unfoldable pub normalize_selection : ℤ → ℕ → ℤ
normalize_selection selected zero = negsuc 0
normalize_selection (negsuc n) (suc count) = negsuc 0
normalize_selection (pos selected) (suc count) =
    if ltb selected (suc count) then pos selected else pos count

unfoldable pub selected_index : List Entry → Text → ℤ → ℤ
selected_index entries selected_path fallback =
    let path = trim_space selected_path in
    let index = find_by_path entries path in
    if is_empty path
    then normalize_selection fallback (length entries)
    else if ltb_ℤ index (pos 0)
    then normalize_selection fallback (length entries)
    else index

-- The counters of `formatImportQueueSummary`.
pub record Counts : Type 0 where
  pub queued : ℕ
  pub uploads : ℕ
  pub imports : ℕ
  pub duplicates : ℕ
  pub failures : ℕ

abbrev pub count_status : Status → Counts → Counts
count_status pending c = record c { queued = c.queued + 1 }
count_status uploading c = record c { uploads = c.uploads + 1 }
count_status imported c = record c { imports = c.imports + 1 }
count_status duplicate c = record c { duplicates = c.duplicates + 1 }
count_status failed c = record c { failures = c.failures + 1 }

abbrev pub no_counts : Counts
no_counts = record { queued = 0; uploads = 0; imports = 0; duplicates = 0; failures = 0 }

unfoldable pub count_entries : Counts → List Entry → Counts
count_entries counts [] = counts
count_entries counts (entry ∷ entries) = count_entries (count_status entry.status counts) entries

summary_of : Counts → Bool → Text
summary_of counts running =
    (if running || ltb 0 counts.uploads then codes "Running" else codes "Idle")
    ++ codes " — queued "
    ++ show_ℕ counts.queued
    ++ codes " • uploading "
    ++ show_ℕ counts.uploads
    ++ codes " • imported "
    ++ show_ℕ counts.imports
    ++ codes " • duplicates "
    ++ show_ℕ counts.duplicates
    ++ codes " • failed "
    ++ show_ℕ counts.failures

abbrev no_imports : Text
no_imports =
    codes "No imports queued. Add a file, add a folder, or drop files anywhere in the window."

unfoldable pub format_summary : List Entry → Bool → Text
unfolding count_entries summary_of
format_summary [] running = no_imports
format_summary (entry ∷ entries) running =
    summary_of (count_entries no_counts (entry ∷ entries)) running
