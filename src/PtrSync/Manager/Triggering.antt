-- ===== src/PtrSync/Manager/Triggering.antt =====
-- internal/ptrsync/manager.go: what a trigger does while no run is active.
use hydrus_go.Base.{ℕ, ◌≡◌, refl, Bool, true, false, Option, none, some, [], ap, ◌∙◌, if◌then◌else◌}
use hydrus_go.Base.Results.{ok}
use hydrus_go.Base.Int.{pos, ltb_ℤ}
use hydrus_go.PtrSync.{SyncRow, ServiceRow, Store, Config, daemon_service_key, retrying}
use hydrus_go.PtrSync.Report.{lookup_status, row_status}
use hydrus_go.PtrSync.Services.{found_service, lookup_service, service_by_key}
use hydrus_go.PtrSync.Manager.{
  Manager, Outside, answered, with_client, get_status, is_too_early, begin_run, trigger,
  trigger_from, and_begin, enable_sync, status_of, Begin, postponed,
}

pub begin_run-ready :
    (o : Outside) (m : Manager)
    → m.cfg.enabled ≡ true
    → m.unavailable_reason ≡ []
    → m.readable ≡ true
    → m.writable ≡ true
    → begin_run o m ≡ (
        if is_too_early o.env.now (get_status m.cfg o.env.now m.store)
        then (postponed (get_status m.cfg o.env.now m.store), m.store)
        else with_client o m.cfg m.store o.client_error)
unfolding begin_run
begin_run-ready o m on available readable writable = rw (on, available, readable, writable) refl

pub trigger-ready :
    (o : Outside) (m : Manager)
    → m.active_run ≡ none
    → m.cfg.enabled ≡ true
    → trigger o m ≡ answered m (begin_run o m)
unfolding trigger
trigger-ready o m idle on = ap (trigger_from o m) idle ∙ when_on m.cfg.enabled on
  where
    when_on :
        (b : Bool)
        → b ≡ true
        → (if b then answered m (begin_run o m) else and_begin o (enable_sync o m))
          ≡ answered m (begin_run o m)
    when_on b on = rw on refl

pub answered-if :
    (m : Manager) (b : Bool) (x y : Begin × Store)
    → answered m (if b then x else y) ≡ (if b then answered m x else answered m y)
answered-if m true x y = refl
answered-if m false x y = refl

-- A row that waits until a time makes a trigger before that time too early.
pub is_too_early-waiting :
    (now : ℕ) (cfg : Config) (s : Store) (service : ServiceRow) (row : SyncRow)
    → cfg.enabled ≡ true
    → lookup_service s ≡ ok service
    → s.sync_state ≡ some row
    → row.phase ≡ retrying
    → is_too_early now (get_status cfg now s) ≡ ltb_ℤ (pos now) row.retry_at_ms
unfolding get_status lookup_service lookup_status row_status
is_too_early-waiting now cfg s service row on found stored phase =
    simp on (of_service (service_by_key daemon_service_key s.services) found)
  where
    of_service :
        (o : Option ServiceRow)
        → found_service o ≡ ok service
        → is_too_early now (status_of cfg now s o) ≡ ltb_ℤ (pos now) row.retry_at_ms
    of_service none h = cc
    of_service (some there) h = rw (stored, phase) refl
