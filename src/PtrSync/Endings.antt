-- ===== src/PtrSync/Endings.antt =====
-- How a run begins, how it ends, and what the caller is told then.
use hydrus_go.Base.{
  ℕ, ◌≡◌, refl, true, false, Option, none, some, [], if◌then◌else◌, inl, inr, Bool-cases, ap, subst,
  sym, arith, ◌∙◌, length,
}
use hydrus_go.Base.Strings.{Text, text_eq_refl, trim_space, trim_left, trim_right}
use hydrus_go.Base.Results.{Result, ok, err}
use hydrus_go.Base.Int.{pos, leb_ℤ}
use hydrus_go.PtrSync.{
  idle, SyncError, SyncRow, ServiceRow, Store, Status, Config, commit_or_roll_back,
}
use hydrus_go.PtrSync.Lease.{holds_lease, idle_row, upsert_sync_state, running_row}
use hydrus_go.PtrSync.Report.{next_update_index, lookup_status, row_status}
use hydrus_go.PtrSync.Services.{Env}
use hydrus_go.PtrSync.Bundle.{
  Lease, begin_body, begin_sync, finish_idle_body, finish_idle, complete_success, when_enabled,
  counted_mappings,
}
use hydrus_go.PtrSync.Transactions.{ok-injective, upsert_sync_state_kept}
use hydrus_go.PtrSync.Outcomes.{finish_idle_body-eq-ok, begin_body-eq-ok}
use hydrus_go.PtrSync.Exclusive.{Held}

some-injective : {a b : SyncRow} → ◌≡◌ {A = Option SyncRow} (some a) (some b) → a ≡ b
some-injective p = cc

pub commit-eq-ok :
    {A : Type 0} {a : A} (before : Store) (r : Result SyncError (A × Store))
    → (commit_or_roll_back before r).0 ≡ ok a
    → r ≡ ok (a, (commit_or_roll_back before r).1)
commit-eq-ok before (err e) h = cc
commit-eq-ok before (ok (b, after)) h = ap (λ x. ok (x, after)) (ok-injective h)

pub when_enabled-eq-ok :
    {A : Type 0} {a : A} (cfg : Config) (body : Store → Result SyncError (A × Store)) (s : Store)
    → (when_enabled cfg body s).0 ≡ ok a
    → body s ≡ ok (a, (when_enabled cfg body s).1)
when_enabled-eq-ok cfg body s h = elim (Bool-cases cfg.enabled) [
  | inl on ↦ rw on (commit-eq-ok s (body s) (rw on at h))
  | inr off ↦ cc (rw off at h)
]

free-holds_lease :
    (token : Text) (row : SyncRow) → row.is_running ≡ 0 → holds_lease token row ≡ false
free-holds_lease token row free = ground arith

-- Nobody holds a lease on a row that is not running.
pub free-Held :
    (s : Store) (row : SyncRow)
    → s.sync_state ≡ some row
    → row.is_running ≡ 0
    → (token : Text) → ¬ Held token s
free-Held s row e free token (row', e', held) =
    let same : row ≡ row' = some-injective (sym e ∙ e') in
    let off : holds_lease token row' ≡ false =
      free-holds_lease token row' (subst (λ r. r.is_running ≡ 0) same free) in
    cc

-- A begin that succeeds found no token held, and the token that it was given is held after it.
pub begin_sync_lem :
    (env : Env) (cfg : Config) (generated : Option Text) (s : Store) (lease : Lease) (token : Text)
    → (begin_sync env cfg generated s).0 ≡ ok lease
    → (¬ Held token s)
      × (generated ≡ some lease.run_token)
      × Held lease.run_token (begin_sync env cfg generated s).1
unfolding begin_sync
begin_sync_lem env cfg generated s lease token h =
    let (service, row, t, same, kept, free, drawn, written) =
      begin_body-eq-ok env cfg generated s
        (when_enabled-eq-ok cfg (begin_body env cfg generated) s h) in
    (
      λ (row', e, held).
          free-Held (upsert_sync_state false service.service_id env.now t) row kept free token (
            row',
            ap (λ u. u.sync_state)
                  (upsert_sync_state_kept service.service_id env.now t row' (same ∙ e))
                ∙ same
                ∙ e,
            held,
          ),
      drawn,
      (
        running_row service.service_id lease.run_token env.now row,
        written,
        ground (arith, text_eq_refl lease.run_token),
      ),
    )

-- The status of a row that was set to idle without an error after a count of the mappings.
abbrev pub ReportsSuccess : Store → Status → Type 0
ReportsSuccess s status =
    (status.is_running ≡ false)
    × (status.phase ≡ idle)
    × (status.last_error ≡ [])
    × (status.retry_attempt ≡ pos 0)
    × (status.metadata_slice ≡ next_update_index s.repository_updates)
    × (status.last_sync_mapping_count ≡ some (pos (length s.current_mappings)))

pub lookup_status-idle_row :
    (cfg : Config) (service : ServiceRow) (now : ℕ) (s : Store) (row : SyncRow)
    → ReportsSuccess s (
        lookup_status cfg service now (record s {
          sync_state = some (
              idle_row service.service_id
                (next_update_index s.repository_updates)
                []
                (counted_mappings true s)
                now
                row);
        }))
unfolding lookup_status row_status trim_space trim_left trim_right
lookup_status-idle_row cfg service now s row =
    (refl, refl, refl, refl, refl, counted (length s.current_mappings))
  where
    counted : (n : ℕ) → (if leb_ℤ (pos 0) (pos n) then some (pos n) else none) ≡ some (pos n)
    counted n = ground arith

-- `CompletePTRSyncSuccess` succeeds only for the token of the run; it frees the lease, changes
-- nothing else than the row of the sync, and reports an idle sync without an error that has seen
-- every update index of the repository and every current mapping.
pub complete_success_lem :
    (now : ℕ) (cfg : Config) (token : Text) (s : Store) (status : Status) (t : Text)
    → (complete_success now cfg token s).0 ≡ ok status
    → Held token s
      × (¬ Held t (complete_success now cfg token s).1)
      × ((row : Option SyncRow) × ((complete_success now cfg token s).1
            ≡ record s { sync_state = row }))
      × ReportsSuccess s status
unfolding complete_success finish_idle
complete_success_lem now cfg token s status t h =
    let (service, found, (row, e, held, made, told)) =
      finish_idle_body-eq-ok now cfg token s [] true
        (when_enabled-eq-ok cfg (finish_idle_body now cfg token [] true) s h) in
    (
      (row, e, held),
      free-Held (complete_success now cfg token s).1 _ (ap (λ u. u.sync_state) made) refl t,
      (_, made),
      subst (ReportsSuccess s) (sym (told ∙ ap (lookup_status cfg service now) made))
          (lookup_status-idle_row cfg service now s row),
    )
