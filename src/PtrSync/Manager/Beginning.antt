-- ===== src/PtrSync/Manager/Beginning.antt =====
-- internal/ptrsync/manager.go: a run that a trigger begins holds the lease.
use hydrus_go.Base.{
  ℕ, ◌≡◌, refl, Bool, true, false, not, ◌||◌, Option, none, some, [], subst, sym, if◌then◌else◌,
  if_elim,
}
use hydrus_go.Base.Strings.{Text, is_empty}
use hydrus_go.Base.Results.{Result, ok, err}
use hydrus_go.PtrSync.{SyncError, Store, Status, Config}
use hydrus_go.PtrSync.Report.{default_status}
use hydrus_go.PtrSync.Bundle.{Lease, begin_sync, recover_foundation}
use hydrus_go.PtrSync.Exclusive.{Held}
use hydrus_go.PtrSync.Endings.{begin_sync_lem}
use hydrus_go.PtrSync.Runs.{Report}
use hydrus_go.PtrSync.Manager.{
  ActiveRun, Manager, Outside, TriggerError, unavailable_error, disabled_error, Answer, Begin,
  started, postponed, refused, begun, with_client, get_status, enabled_config, answer,
  unavailable_status, bundles_missing, is_too_early, begin_run, marked, collided, recovered,
  enable_sync, answered, and_begin, trigger_from, trigger,
}

abbrev pub Working : Option ActiveRun → Option Report → Manager → Type 0
Working none none m = Unit
Working none (some result) m = ⊥
Working (some run) none m = (m.cfg.enabled ≡ true) × Held run.run_token m.store
Working (some run) (some result) m = Unit

-- What a trigger leaves that found no run: none, or one that holds the lease.
Fresh : Manager → Type 0
Fresh m = Working m.active_run none m

Leases : Begin × Store → Type 0
Leases b = (lease : Lease) → b.0 ≡ started lease → Held lease.run_token b.1

refused-Leases : (status : Status) (e : TriggerError) (s : Store) → Leases (refused status e, s)
unfolding Leases
refused-Leases status e s lease h = cc

postponed-Leases : (status : Status) (s : Store) → Leases (postponed status, s)
unfolding Leases
postponed-Leases status s lease h = cc

begun-Leases :
    (cfg : Config) (now : ℕ) (r : Result SyncError Lease × Store)
    → ((lease : Lease) → r.0 ≡ ok lease → Held lease.run_token r.1)
    → Leases (begun cfg now r)
unfolding Leases
begun-Leases cfg now (err e, s) holds lease h = cc
begun-Leases cfg now (ok a, s) holds lease h =
    subst (λ l. Held l.run_token s) (started-injective h) (holds a refl)
  where
    started-injective : {a b : Lease} → started a ≡ started b → a ≡ b
    started-injective p = cc

idle-Fresh : (m : Manager) → m.active_run ≡ none → Fresh m
unfolding Fresh
idle-Fresh m idle = subst (λ a. Working a none m) (sym idle) tt

module _ (o : Outside) where
  with_client-Leases :
      (cfg : Config) (s : Store) (client_error : Option Text)
      → Leases (with_client o cfg s client_error)
  with_client-Leases cfg s (some text) = refused-Leases _ _ s
  with_client-Leases cfg s none =
      begun-Leases cfg o.env.now (begin_sync o.env cfg o.generated s)
        (λ lease h. (begin_sync_lem o.env cfg o.generated s lease [] h).2)

  begin_run-Leases : (m : Manager) → Leases (begin_run o m)
  unfolding begin_run
  begin_run-Leases m =
      if_elim Leases (not m.cfg.enabled) _ _
        (λ _. refused-Leases (default_status m.cfg) disabled_error m.store)
        (λ _.
          if_elim Leases (not (is_empty m.unavailable_reason)) _ _
            (λ _.
              refused-Leases (unavailable_status m.cfg m.unavailable_reason)
                (unavailable_error m.unavailable_reason) m.store)
            (λ _.
              if_elim Leases (not m.readable || not m.writable) _ _
                (λ _.
                  refused-Leases (unavailable_status m.cfg bundles_missing)
                    (unavailable_error bundles_missing) m.store)
                (λ _.
                  if_elim Leases (is_too_early o.env.now (get_status m.cfg o.env.now m.store)) _ _
                    (λ _. postponed-Leases (get_status m.cfg o.env.now m.store) m.store)
                    (λ _. with_client-Leases m.cfg m.store o.client_error))))

  answered-Fresh :
      (m : Manager) (b : Begin × Store)
      → m.active_run ≡ none
      → m.cfg.enabled ≡ true
      → Leases b
      → Fresh (answered m b).1
  unfolding Fresh Leases
  answered-Fresh m (started lease, s) idle on leases = (on, leases lease refl)
  answered-Fresh m (postponed status, s) idle on leases = idle-Fresh (record m { store = s }) idle
  answered-Fresh m (refused status e, s) idle on leases = idle-Fresh (record m { store = s }) idle

  marked-Fresh :
      (m : Manager) (marker_error : Option Text)
      → m.active_run ≡ none
      → Fresh (and_begin o (marked m marker_error)).1
  marked-Fresh m (some text) idle = idle-Fresh m idle
  marked-Fresh m none idle =
      let on = record m { cfg = enabled_config m.cfg; unavailable_reason = [] } in
      answered-Fresh on (begin_run o on) idle refl (begin_run-Leases on)

  recovered-Fresh :
      (m : Manager) (r : Result SyncError Status × Store)
      → m.active_run ≡ none
      → Fresh (and_begin o (recovered o m r)).1
  recovered-Fresh m (ok status, s) idle = marked-Fresh (record m { store = s }) o.marker_error idle
  recovered-Fresh m (err e, s) idle = idle-Fresh (collided o (record m { store = s }) e).1 idle

  enable_sync-Fresh : (m : Manager) → m.active_run ≡ none → Fresh (and_begin o (enable_sync o m)).1
  unfolding enable_sync
  enable_sync-Fresh m idle = missing_or_there (not m.readable || not m.writable)
    where
      missing_or_there :
          (c : Bool)
          → Fresh
              (and_begin o (
                if c
                then (
                  some (
                      answer
                        (some (unavailable_status m.cfg bundles_missing))
                        (some (unavailable_error bundles_missing))),
                  m,
                )
                else recovered o m (recover_foundation o.env (enabled_config m.cfg) m.store))).1
      missing_or_there true = idle-Fresh m idle
      missing_or_there false =
          recovered-Fresh m (recover_foundation o.env (enabled_config m.cfg) m.store) idle

  trigger_from-Fresh : (m : Manager) → m.active_run ≡ none → Fresh (trigger_from o m none).1
  trigger_from-Fresh m idle =
      if_elim (λ (r : Answer × Manager). Fresh r.1) m.cfg.enabled _ _
        (λ on. answered-Fresh m (begin_run o m) idle on (begin_run-Leases m))
        (λ off. enable_sync-Fresh m idle)

  pub triggered-IsSound :
      (m : Manager) (returned : Option Report)
      → Working m.active_run returned m
      → Working (trigger o m).1.active_run returned (trigger o m).1
  unfolding trigger Fresh
  triggered-IsSound m returned sound = by_run m.active_run returned refl sound
    where
      by_run :
          (a : Option ActiveRun) (r : Option Report)
          → m.active_run ≡ a
          → Working a r m
          → Working (trigger_from o m a).1.active_run r (trigger_from o m a).1
      by_run (some run) r active sound = subst (λ a. Working a r m) (sym active) sound
      by_run none none active sound = trigger_from-Fresh m active
      by_run none (some result) active sound = absurd sound
