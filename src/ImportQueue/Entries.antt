-- ===== src/ImportQueue/Entries.antt =====
-- What the buttons and the summary of the queue do to its entries.
use hydrus_go.Base.{
  ℕ, zero, suc, ◌+◌, ◌<◌, false, List, [], ◌∷◌, if◌then◌else◌, ◌≡◌, refl, inl, inr, ◌⊎◌, if_elim,
  All, length, arith,
}
use hydrus_go.Base.Strings.{Text}
use hydrus_go.Base.Int.{ℤ, pos, negsuc}
use hydrus_go.ImportQueue.{
  Status, Entry, pending, uploading, imported, duplicate, failed, is_failed, retry, retry_failed,
  clear_finished, is_finished, Counts, count_status, count_entries, no_counts, normalize_selection,
  can_retry,
}

abbrev pub total : Counts → ℕ
total c = c.queued + c.uploads + c.imports + c.duplicates + c.failures

total-count_status : (s : Status) (c : Counts) → total (count_status s c) ≡ suc (total c)
total-count_status pending c = omega arith
total-count_status uploading c = omega arith
total-count_status imported c = omega arith
total-count_status duplicate c = omega arith
total-count_status failed c = omega arith

total-count_entries :
    (es : List Entry) (c : Counts) → total (count_entries c es) ≡ total c + length es
unfolding count_entries
total-count_entries [] c = omega arith
total-count_entries (e ∷ es) c =
    omega (arith, total-count_entries es (count_status e.status c), total-count_status e.status c)

-- The entries that are kept are those that are not finished, in their order; the number of the
-- others is returned.
abbrev pub unfinished : List Entry → List Entry
unfinished [] = []
unfinished (e ∷ es) = if is_finished e then unfinished es else e ∷ unfinished es

pub clear_finished_lem :
    (es : List Entry)
    → ((clear_finished es).0 ≡ unfinished es)
      × (length (clear_finished es).0 + (clear_finished es).1 ≡ length es)
unfolding clear_finished
clear_finished_lem [] = (refl, omega arith)
clear_finished_lem (e ∷ es) =
    let (kept, sum) = clear_finished_lem es in (ground arith, ground arith)

-- The summary's five counters add up to the number of entries.
pub count_entries-total : (es : List Entry) → total (count_entries no_counts es) ≡ length es
count_entries-total es = omega (arith, total-count_entries es no_counts)

abbrev pub NotFailed : Entry → Type 0
NotFailed e = is_failed e.status ≡ false

-- The number of failed entries.
abbrev pub failures : List Entry → ℕ
failures [] = 0
failures (e ∷ es) = if is_failed e.status then failures es + 1 else failures es

-- After "retry failed" no entry is failed, and the number returned is that of the failed ones before.
pub retry_failed_lem :
    (es : List Entry) (detail : Text)
    → All NotFailed (retry_failed es detail).0 × ((retry_failed es detail).1 ≡ failures es)
unfolding retry_failed retry can_retry
retry_failed_lem [] detail = (tt, refl)
retry_failed_lem (e ∷ es) detail =
    let (rest, sum) = retry_failed_lem es detail in ((ground arith, rest), ground arith)

-- The selection that is stored is -1 or the index of an entry.
pub normalize_selection_range :
    (selected : ℤ) (count : ℕ)
    → (normalize_selection selected count ≡ negsuc 0)
      ⊎ ((i : ℕ) × (normalize_selection selected count ≡ pos i) × (i < count))
unfolding normalize_selection
normalize_selection_range selected zero = inl refl
normalize_selection_range (negsuc n) (suc count) = inl refl
normalize_selection_range (pos i) (suc count) =
    if_elim (λ (r : ℤ). (r ≡ negsuc 0) ⊎ ((j : ℕ) × (r ≡ pos j) × (j < suc count))) _ _ _
      (λ k. inr (i, refl, ground arith)) (λ k. inr (count, refl, omega arith))
