-- ===== src/PtrSync/Exclusive.antt =====
-- A run token is a lease: while one caller holds it, no other caller can begin, report on or end a
-- run.
use hydrus_go.Base.{
  ℕ, ◌≡◌, refl, Bool, true, false, ◌&&◌, ◌==◌, Option, none, some, [], if◌then◌else◌, ap, subst,
  sym, arith, ◌∙◌,
}
use hydrus_go.Base.Strings.{Text, text_eq, text_eq_sound}
use hydrus_go.Base.Results.{Result, ok, err, ◌>>=◌}
use hydrus_go.Base.Int.{ℤ}
use hydrus_go.PtrSync.Report.{next_update_index}
use hydrus_go.PtrSync.{
  SyncError, sync_already_running, run_not_active, SyncRow, ServiceRow, Store, Config,
}
use hydrus_go.PtrSync.Lease.{
  token_is, holds_lease, update_active, set_running, ensure_run_active, set_idle, set_failed,
  set_throttled,
}
use hydrus_go.PtrSync.Services.{Env, prepare_foundation, lookup_service}
use hydrus_go.PtrSync.Bundle.{
  begin_body, begin_sync, finish_idle_body, finish_idle, complete_success, cancel_sync,
  throttle_body, throttle_sync, failure_body, finish_failure, metrics_body, update_metrics,
  generated_token, when_enabled, counted_mappings, with_status,
}
use hydrus_go.PtrSync.Transactions.{
  Fails, Fails->>=, when_enabled-Fails, prepare_foundation-eq-ok, upsert_sync_state_kept,
}
use hydrus_go.PtrSync.Calls.{
  Call, begin, recover, complete, cancel, throttle, fail, metrics, Reply, replied, perform,
  is_foreign, leased, reported,
}

-- The token is that of the run that is going on.
abbrev pub Held : Text → Store → Type 0
Held token s = (row : SyncRow) × (s.sync_state ≡ some row) × (holds_lease token row ≡ true)

token_is-other :
    (held used : Text) (o : Option Text)
    → token_is held o ≡ true
    → text_eq held used ≡ false
    → token_is used o ≡ false
token_is-other held used none h other = cc
token_is-other held used (some t) h other =
    subst (λ u. text_eq u used ≡ false) (sym (text_eq_sound t held h)) other

holds_lease-other :
    (held used : Text) (row : SyncRow)
    → holds_lease held row ≡ true
    → text_eq held used ≡ false
    → holds_lease used row ≡ false
holds_lease-other held used row h other = ground (arith, token_is-other held used row.run_token)

holds_lease-running :
    (held : Text) (row : SyncRow) → holds_lease held row ≡ true → (row.is_running == 0) ≡ false
holds_lease-running held row h = ground arith

update_active-other :
    (held used : Text) (set : SyncRow → SyncRow) (s : Store)
    → Held held s
    → text_eq held used ≡ false
    → Fails (update_active used set s)
update_active-other held used set s (row, e, h) other =
    rw (e, holds_lease-other held used row h other) (run_not_active, refl)

ensure_run_active-other :
    (held used : Text) (id : ℕ) (s : Store)
    → Held held s
    → text_eq held used ≡ false
    → Fails (ensure_run_active id used s)
unfolding ensure_run_active
ensure_run_active-other held used id s (row, e, h) other =
    subst (λ o. Fails (active_row o)) (sym e)
      (inactive (holds_lease-other held used row h other) (row.service_id == id))
  where
    active_row : Option SyncRow → Result SyncError (Unit {0})
    active_row o = elim o [
      | none ↦ err run_not_active
      | some r ↦ if (r.service_id == id) && holds_lease used r then ok tt else err run_not_active
    ]

    inactive :
        {b : Bool}
        → b ≡ false
        → (same : Bool) → Fails {0} (if same && b then ok tt else err run_not_active)
    inactive off true = rw off (run_not_active, refl)
    inactive off false = (run_not_active, refl)

set_running-Held :
    (held token : Text) (id now : ℕ) (s : Store) → Held held s → Fails (set_running id token now s)
unfolding set_running
set_running-Held held token id now s (row, e, h) =
    rw (e, holds_lease-running held row h) (sync_already_running, refl)

-- The foundation that a begin prepares leaves the lease where it is.
prepare_foundation-Held :
    (held : Text) (env : Env) (cfg : Config) (s : Store) {p : ServiceRow × Store}
    → Held held s
    → prepare_foundation env cfg false s ≡ ok p
    → Held held p.1
prepare_foundation-Held held env cfg s {p} (row, e, h) prepared =
    let (t, same, made) = prepare_foundation-eq-ok env cfg false s prepared in
    subst (Held held) (sym (made ∙ upsert_sync_state_kept p.0.service_id env.now t row (same ∙ e)))
      (row, same ∙ e, h)

contradicts :
    {A B : Type 0} {m : Result SyncError A} {a : A} {n : Result SyncError B}
    → Fails m
    → m ≡ ok a
    → Fails n
contradicts (e, failed) succeeded = cc

begin_body-Held :
    (held : Text) (env : Env) (cfg : Config) (generated : Option Text) (s : Store)
    → Held held s
    → Fails (begin_body env cfg generated s)
unfolding begin_body
begin_body-Held held env cfg generated s lease =
    Fails->>= (prepare_foundation env cfg false s) _ (λ p prepared.
      Fails->>= (generated_token generated) _ (λ token _.
        Fails->>= (set_running p.0.service_id token env.now p.1) _ (λ q started.
          contradicts
            (set_running-Held held token p.0.service_id env.now p.1
              (prepare_foundation-Held held env cfg s lease prepared))
            started)))

first_Fails :
    {A B : Type 0} (m : Result SyncError A) (f : A → Result SyncError B) → Fails m → Fails (m >>= f)
first_Fails m f (e, failed) = rw failed (e, refl)

module _ (held used : Text) (s : Store) (lease : Held held s)
    (other : text_eq held used ≡ false) where
  finish_idle_body-other :
      (now : ℕ) (cfg : Config) (last_error : Text) (count : Bool)
      → Fails (finish_idle_body now cfg used last_error count s)
  unfolding finish_idle_body set_idle
  finish_idle_body-other now cfg last_error count = Fails->>= (lookup_service s) _ (λ service _.
      first_Fails
        (set_idle service.service_id used (next_update_index s.repository_updates) last_error
          (counted_mappings count s) now s)
        (with_status cfg now service) (update_active-other held used _ s lease other))

  throttle_body-other :
      (now : ℕ) (cfg : Config) (at_ms attempt : ℤ)
      → Fails (throttle_body now cfg used at_ms attempt s)
  unfolding throttle_body set_throttled
  throttle_body-other now cfg at_ms attempt = Fails->>= (lookup_service s) _ (λ service _.
      first_Fails (set_throttled service.service_id used at_ms attempt now s)
        (with_status cfg now service) (update_active-other held used _ s lease other))

  failure_body-other :
      (now : ℕ) (cfg : Config) (last_error : Text) → Fails (failure_body now cfg used last_error s)
  unfolding failure_body set_failed
  failure_body-other now cfg last_error = Fails->>= (lookup_service s) _ (λ service _.
      first_Fails (set_failed service.service_id used last_error now s)
        (with_status cfg now service) (update_active-other held used _ s lease other))

  metrics_body-other :
      (now : ℕ) (cfg : Config) (bytes ms : ℤ) → Fails (metrics_body now cfg used bytes ms s)
  unfolding metrics_body
  metrics_body-other now cfg bytes ms = Fails->>= (lookup_service s) _ (λ service _.
      Fails->>= (ensure_run_active service.service_id used s) _ (λ _ active.
        contradicts (ensure_run_active-other held used service.service_id s lease other) active))

refused :
    {A : Type 0} (reply : A → Reply) (cfg : Config) (body : Store → Result SyncError (A × Store))
    (s : Store)
    → Fails (body s)
    → (e : SyncError) × (replied reply (when_enabled cfg body s) ≡ (err e, s))
refused reply cfg body s failed =
    let (e, h) = when_enabled-Fails cfg body s failed in (e, ap (replied reply) h)

-- While a caller holds the token of the run, every begin and every call with another token fails
-- and leaves the store as it was.
pub perform-foreign :
    (held : Text) (call : Call) (s : Store)
    → Held held s
    → is_foreign held call ≡ true
    → (e : SyncError) × (perform call s ≡ (err e, s))
unfolding perform begin_sync complete_success cancel_sync finish_idle throttle_sync finish_failure
    update_metrics
perform-foreign held (begin env cfg generated) s lease h =
    refused leased cfg (begin_body env cfg generated) s
      (begin_body-Held held env cfg generated s lease)
perform-foreign held (recover env cfg) s lease h = cc
perform-foreign held (complete now cfg used) s lease h =
    refused reported cfg (finish_idle_body now cfg used [] true) s
      (finish_idle_body-other held used s lease (ground arith) now cfg [] true)
perform-foreign held (cancel now cfg used) s lease h =
    refused reported cfg (finish_idle_body now cfg used [] false) s
      (finish_idle_body-other held used s lease (ground arith) now cfg [] false)
perform-foreign held (throttle now cfg used at_ms attempt) s lease h =
    refused reported cfg (throttle_body now cfg used at_ms attempt) s
      (throttle_body-other held used s lease (ground arith) now cfg at_ms attempt)
perform-foreign held (fail now cfg used last_error) s lease h =
    refused reported cfg (failure_body now cfg used last_error) s
      (failure_body-other held used s lease (ground arith) now cfg last_error)
perform-foreign held (metrics now cfg used bytes ms) s lease h =
    refused reported cfg (metrics_body now cfg used bytes ms) s
      (metrics_body-other held used s lease (ground arith) now cfg bytes ms)
