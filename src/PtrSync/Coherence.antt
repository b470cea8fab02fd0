-- ===== src/PtrSync/Coherence.antt =====
-- What every row of main.ptr_sync_state satisfies: it is running with a token, or it waits without
-- one.
use hydrus_go.Base.{
  ℕ, ◌≡◌, refl, Bool, true, false, ◌&&◌, Option, none, some, List, [], ◌∷◌, inl, inr, ◌⊎◌, ap,
  subst, sym, arith, ◌∙◌, if_elim,
}
use hydrus_go.Base.Strings.{Text}
use hydrus_go.Base.Int.{ℤ}
use hydrus_go.PtrSync.{
  Phase, idle, syncing, throttling, phase_eq, SyncRow, ServiceRow, Store, Status, Config,
}
use hydrus_go.PtrSync.Lease.{seed_row, upsert_sync_state, normalized_row, waits_in, is_none}
use hydrus_go.PtrSync.Services.{Env}
use hydrus_go.PtrSync.Bundle.{
  begin_body, begin_sync, recover_body, recover_foundation, finish_idle_body, finish_idle,
  complete_success, cancel_sync, throttle_body, throttle_sync, failure_body, finish_failure,
  metrics_body, update_metrics, measured,
}
use hydrus_go.PtrSync.Transactions.{when_enabled-keeps, with_immediate_tx-keeps}
use hydrus_go.PtrSync.Outcomes.{
  Updated, finish_idle_body-eq-ok, throttle_body-eq-ok, failure_body-eq-ok, metrics_body-eq-ok,
  begin_body-eq-ok, recover_body-eq-ok,
}
use hydrus_go.PtrSync.Calls.{
  Call, begin, recover, complete, cancel, throttle, fail, metrics, reported, leased, perform, run,
}
use hydrus_go.PtrSync.Tenure.{replied-store}

abbrev pub IsRunning : SyncRow → Type 0
IsRunning row =
    (row.is_running ≡ 1) × (row.phase ≡ syncing) × ((t : Text) × (row.run_token ≡ some t))

abbrev pub IsWaiting : SyncRow → Type 0
IsWaiting row =
    (row.is_running ≡ 0) × (row.run_token ≡ none) × ((row.phase ≡ idle) ⊎ (row.phase ≡ throttling))

abbrev pub IsCoherentRow : Option SyncRow → Type 0
IsCoherentRow none = Unit
IsCoherentRow (some row) = IsRunning row ⊎ IsWaiting row

abbrev pub IsCoherent : Store → Type 0
IsCoherent s = IsCoherentRow s.sync_state

phase_eq_sound : (p q : Phase) → phase_eq p q ≡ true → p ≡ q
phase_eq_sound p q h = ground arith

is_none_sound : (o : Option Text) → is_none o ≡ true → o ≡ none
is_none_sound none h = refl
is_none_sound (some t) h = cc

pub waits_in-IsWaiting :
    (phase : Phase) (id : ℕ) (row : SyncRow)
    → (phase ≡ idle) ⊎ (phase ≡ throttling)
    → waits_in phase id row ≡ true
    → IsWaiting row
waits_in-IsWaiting phase id row known h = (
  ground arith,
  is_none_sound row.run_token (ground arith),
  subst (λ p. (p ≡ idle) ⊎ (p ≡ throttling)) (sym (phase_eq_sound row.phase phase (ground arith)))
      known,
)

-- A restart leaves no run behind, whatever row it finds.
pub normalized_row-IsWaiting : (id now : ℕ) (row : SyncRow) → IsWaiting (normalized_row id now row)
normalized_row-IsWaiting id now row =
    if_elim IsWaiting (waits_in throttling id row) _ _
      (λ throttled. waits_in-IsWaiting throttling id row (inr refl) throttled)
      (λ _.
        if_elim IsWaiting (waits_in idle id row && is_none row.last_error) _ _
          (λ h. waits_in-IsWaiting idle id row (inl refl) (ground arith))
          (λ _. (refl, refl, inl refl)))

pub upsert_sync_state-IsWaiting :
    (id now : ℕ) (s : Store)
    → (row : SyncRow) × ((upsert_sync_state true id now s).sync_state ≡ some row) × IsWaiting row
unfolding upsert_sync_state
upsert_sync_state-IsWaiting id now s = by_row s.sync_state refl
  where
    by_row :
        (o : Option SyncRow)
        → s.sync_state ≡ o
        → (row : SyncRow) × ((upsert_sync_state true id now s).sync_state ≡ some row)
          × IsWaiting row
    by_row none e =
        rw e (seed_row id now (record s { sync_state = none }), refl, (refl, refl, inl refl))
    by_row (some row) e =
        rw e (normalized_row id now row, refl, normalized_row-IsWaiting id now row)

Updated-IsCoherent :
    (token : Text) (set : SyncRow → SyncRow) (cfg : Config) (now : ℕ) (service : ServiceRow)
    (s : Store) (out : Status × Store)
    → ((row : SyncRow) → IsRunning row ⊎ IsWaiting row → IsRunning (set row) ⊎ IsWaiting (set row))
    → IsCoherent s
    → Updated token set cfg now service s out
    → IsCoherent out.1
Updated-IsCoherent token set cfg now service s out keeps before (row, e, _, made, _) =
    subst IsCoherent (sym made) (keeps row (subst IsCoherentRow e before))

module _ (now : ℕ) (cfg : Config) (token : Text) (s : Store) (before : IsCoherent s) where
  finish_idle-IsCoherent :
      (last_error : Text) (count : Bool)
      → IsCoherent (finish_idle now cfg token last_error count s).1
  unfolding finish_idle
  finish_idle-IsCoherent last_error count =
      when_enabled-keeps cfg (finish_idle_body now cfg token last_error count) s IsCoherent before
        (λ status after done.
          let (service, _, updated) =
            finish_idle_body-eq-ok now cfg token s last_error count done in
          Updated-IsCoherent token _ cfg now service s (status, after)
            (λ row _. inr (refl, refl, inl refl)) before updated)

  throttle_sync-IsCoherent :
      (at_ms attempt : ℤ) → IsCoherent (throttle_sync now cfg token at_ms attempt s).1
  unfolding throttle_sync
  throttle_sync-IsCoherent at_ms attempt =
      when_enabled-keeps cfg (throttle_body now cfg token at_ms attempt) s IsCoherent before
        (λ status after done.
          let (service, _, updated) = throttle_body-eq-ok now cfg token s at_ms attempt done in
          Updated-IsCoherent token _ cfg now service s (status, after)
            (λ row _. inr (refl, refl, inr refl)) before updated)

  finish_failure-IsCoherent :
      (last_error : Text) → IsCoherent (finish_failure now cfg token last_error s).1
  unfolding finish_failure
  finish_failure-IsCoherent last_error =
      when_enabled-keeps cfg (failure_body now cfg token last_error) s IsCoherent before
        (λ status after done.
          let (service, _, updated) = failure_body-eq-ok now cfg token s last_error done in
          Updated-IsCoherent token _ cfg now service s (status, after)
            (λ row _. inr (refl, refl, inl refl)) before updated)

  update_metrics-IsCoherent :
      (bytes ms : ℤ) → IsCoherent (update_metrics now cfg token bytes ms s).1
  unfolding update_metrics
  update_metrics-IsCoherent bytes ms =
      when_enabled-keeps cfg (metrics_body now cfg token bytes ms) s IsCoherent before
        (λ status after done.
          let (service, _, updated) = metrics_body-eq-ok now cfg token s bytes ms done in
          Updated-IsCoherent token (measured now bytes ms s) cfg now service s (status, after)
            (λ row coherent. coherent) before updated)

begin_sync-IsCoherent :
    (env : Env) (cfg : Config) (generated : Option Text) (s : Store)
    → IsCoherent s
    → IsCoherent (begin_sync env cfg generated s).1
unfolding begin_sync
begin_sync-IsCoherent env cfg generated s before =
    when_enabled-keeps cfg (begin_body env cfg generated) s IsCoherent before (λ lease after done.
      let (_, _, _, _, _, _, _, written) = begin_body-eq-ok env cfg generated s done in
      subst IsCoherentRow (sym written) (inl (refl, refl, (lease.run_token, refl))))

recover_foundation-IsCoherent :
    (env : Env) (cfg : Config) (s : Store)
    → IsCoherent s
    → IsCoherent (recover_foundation env cfg s).1
unfolding recover_foundation
recover_foundation-IsCoherent env cfg s before =
    with_immediate_tx-keeps cfg (recover_body env cfg) s IsCoherent before (λ status after done.
      let (service, t, _, made, _, _) = recover_body-eq-ok env cfg s done in
      let (row, e, waiting) = upsert_sync_state-IsWaiting service.service_id env.now t in
      subst IsCoherentRow (sym (ap (λ u. u.sync_state) made ∙ e)) (inr waiting))

perform-IsCoherent : (call : Call) (s : Store) → IsCoherent s → IsCoherent (perform call s).1
unfolding perform complete_success cancel_sync
perform-IsCoherent (begin env cfg generated) s before =
    subst IsCoherent (sym (replied-store leased (begin_sync env cfg generated s)))
      (begin_sync-IsCoherent env cfg generated s before)
perform-IsCoherent (recover env cfg) s before =
    subst IsCoherent (sym (replied-store reported (recover_foundation env cfg s)))
      (recover_foundation-IsCoherent env cfg s before)
perform-IsCoherent (complete now cfg token) s before =
    subst IsCoherent (sym (replied-store reported (finish_idle now cfg token [] true s)))
      (finish_idle-IsCoherent now cfg token s before [] true)
perform-IsCoherent (cancel now cfg token) s before =
    subst IsCoherent (sym (replied-store reported (finish_idle now cfg token [] false s)))
      (finish_idle-IsCoherent now cfg token s before [] false)
perform-IsCoherent (throttle now cfg token at_ms attempt) s before =
    subst IsCoherent (sym (replied-store reported (throttle_sync now cfg token at_ms attempt s)))
      (throttle_sync-IsCoherent now cfg token s before at_ms attempt)
perform-IsCoherent (fail now cfg token last_error) s before =
    subst IsCoherent (sym (replied-store reported (finish_failure now cfg token last_error s)))
      (finish_failure-IsCoherent now cfg token s before last_error)
perform-IsCoherent (metrics now cfg token bytes ms) s before =
    subst IsCoherent (sym (replied-store reported (update_metrics now cfg token bytes ms s)))
      (update_metrics-IsCoherent now cfg token s before bytes ms)

-- Whatever calls come in, the row of the sync stays coherent: it is running in the phase of a sync
-- with a token, or it is idle or throttled without one.
pub run-IsCoherent : (calls : List Call) (s : Store) → IsCoherent s → IsCoherent (run calls s)
unfolding run
run-IsCoherent [] s before = before
run-IsCoherent (call ∷ calls) s before =
    run-IsCoherent calls (perform call s).1 (perform-IsCoherent call s before)
