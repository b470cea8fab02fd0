-- ===== src/PtrSync/Outcomes.antt =====
-- What a call of the write bundle that succeeds has done: whose lease it was, the row that it wrote,
-- and the status that it returned.
use hydrus_go.Base.{
  ℕ, ◌≡◌, refl, Bool, true, false, ◌==◌, Option, none, some, inl, inr, Bool-cases, ap, subst, sym,
  arith, ◌∙◌,
}
use hydrus_go.Base.Strings.{Text}
use hydrus_go.Base.Results.{ok, ◌>>=◌, >>=-eq-ok}
use hydrus_go.Base.Int.{ℤ}
use hydrus_go.PtrSync.{daemon_service_key, SyncRow, ServiceRow, Store, Status, Config}
use hydrus_go.PtrSync.Lease.{
  holds_lease, update_active, set_running, ensure_run_active, set_idle, set_failed, set_throttled,
  idle_row, failed_row, throttled_row, running_row, upsert_sync_state,
}
use hydrus_go.PtrSync.Report.{next_update_index, lookup_status}
use hydrus_go.PtrSync.Services.{Env, prepare_foundation, lookup_service, service_by_key}
use hydrus_go.PtrSync.Bundle.{
  Lease, begin_body, recover_body, finish_idle_body, throttle_body, failure_body, metrics_body,
  measured, generated_token, counted_mappings, with_status,
}
use hydrus_go.PtrSync.Transactions.{
  update_active-eq-ok, prepare_foundation-eq-ok, ok-injective, prepare_foundation-id,
}

-- An UPDATE with `set` by the holder of the token, and the status that was read after it.
abbrev pub Updated :
    Text → (SyncRow → SyncRow) → Config → ℕ → ServiceRow → Store → Status × Store → Type 0
Updated token set cfg now service s out =
    (row : SyncRow) × (s.sync_state ≡ some row)
    × (holds_lease token row ≡ true)
    × (out.1 ≡ record s { sync_state = some (set row) })
    × (out.0 ≡ lookup_status cfg service now out.1)

reported_update :
    (token : Text) (set : SyncRow → SyncRow) (cfg : Config) (now : ℕ) (service : ServiceRow)
    (s : Store) {out : Status × Store}
    → (update_active token set s >>= with_status cfg now service) ≡ ok out
    → Updated token set cfg now service s out
reported_update token set cfg now service s {out} h =
    let (p, changed, last) = >>=-eq-ok (update_active token set s) _ h in
    let (row, e, held, made) = update_active-eq-ok token set s changed in
    subst (Updated token set cfg now service s) (ok-injective last) (row, e, held, made, refl)

module _ (now : ℕ) (cfg : Config) (token : Text) (s : Store) {out : Status × Store} where
  pub finish_idle_body-eq-ok :
      (last_error : Text) (count : Bool)
      → finish_idle_body now cfg token last_error count s ≡ ok out
      → (service : ServiceRow) × (lookup_service s ≡ ok service)
        × Updated token
            (idle_row service.service_id
              (next_update_index s.repository_updates)
              last_error
              (counted_mappings count s)
              now)
            cfg
            now
            service
            s
            out
  unfolding finish_idle_body set_idle
  finish_idle_body-eq-ok last_error count h =
      let (service, found, rest) = >>=-eq-ok (lookup_service s) _ h in
      (service, found, reported_update token _ cfg now service s rest)

  pub throttle_body-eq-ok :
      (at_ms attempt : ℤ)
      → throttle_body now cfg token at_ms attempt s ≡ ok out
      → (service : ServiceRow) × (lookup_service s ≡ ok service)
        × Updated token (throttled_row service.service_id at_ms attempt now) cfg now service s out
  unfolding throttle_body set_throttled
  throttle_body-eq-ok at_ms attempt h =
      let (service, found, rest) = >>=-eq-ok (lookup_service s) _ h in
      (service, found, reported_update token _ cfg now service s rest)

  pub failure_body-eq-ok :
      (last_error : Text)
      → failure_body now cfg token last_error s ≡ ok out
      → (service : ServiceRow) × (lookup_service s ≡ ok service)
        × Updated token (failed_row service.service_id last_error now) cfg now service s out
  unfolding failure_body set_failed
  failure_body-eq-ok last_error h =
      let (service, found, rest) = >>=-eq-ok (lookup_service s) _ h in
      (service, found, reported_update token _ cfg now service s rest)

  pub metrics_body-eq-ok :
      (bytes ms : ℤ)
      → metrics_body now cfg token bytes ms s ≡ ok out
      → (service : ServiceRow) × (lookup_service s ≡ ok service)
        × Updated token (measured now bytes ms s) cfg now service s out
  unfolding metrics_body
  metrics_body-eq-ok bytes ms h =
      let (service, found, rest) = >>=-eq-ok (lookup_service s) _ h in
      let (_, _, last) = >>=-eq-ok (ensure_run_active service.service_id token s) _ rest in
      (service, found, reported_update token _ cfg now service s last)

set_running-eq-ok :
    (id : ℕ) (token : Text) (now : ℕ) (s : Store) {p : Text × Store}
    → set_running id token now s ≡ ok p
    → (row : SyncRow) × (s.sync_state ≡ some row)
      × (row.is_running ≡ 0)
      × (p ≡ (token, record s { sync_state = some (running_row id token now row) }))
unfolding set_running
set_running-eq-ok id token now s {p} h = by_row s.sync_state refl
  where
    by_row :
        (o : Option SyncRow)
        → s.sync_state ≡ o
        → (row : SyncRow) × (s.sync_state ≡ some row)
          × (row.is_running ≡ 0)
          × (p ≡ (token, record s { sync_state = some (running_row id token now row) }))
    by_row none e = cc (rw e at h)
    by_row (some row) e = elim (Bool-cases (row.is_running == 0)) [
      | inl idle_now ↦ (row, e, ground arith, sym (ok-injective (rw (e, idle_now) at h)))
      | inr busy ↦ cc (rw (e, busy) at h)
    ]

-- A begin that succeeds found the row free, and returns the token that it wrote into it.
pub begin_body-eq-ok :
    (env : Env) (cfg : Config) (generated : Option Text) (s : Store) {out : Lease × Store}
    → begin_body env cfg generated s ≡ ok out
    → (service : ServiceRow) × (row : SyncRow) × (t : Store) × (t.sync_state ≡ s.sync_state)
      × ((upsert_sync_state false service.service_id env.now t).sync_state ≡ some row)
      × (row.is_running ≡ 0)
      × (generated ≡ some out.0.run_token)
      × (out.1.sync_state ≡ some (running_row service.service_id out.0.run_token env.now row))
unfolding begin_body
begin_body-eq-ok env cfg generated s {out} h =
    let (p, prepared, rest) = >>=-eq-ok (prepare_foundation env cfg false s) _ h in
    let (token, drawn, rest') = >>=-eq-ok (generated_token generated) _ rest in
    let (q, started, last) = >>=-eq-ok (set_running p.0.service_id token env.now p.1) _ rest' in
    let (t, same, made) = prepare_foundation-eq-ok env cfg false s prepared in
    let (row, e, free, written) = set_running-eq-ok p.0.service_id token env.now p.1 started in
    let returned = ok-injective last in
    let token_is : token ≡ out.0.run_token =
      sym (ap (λ r. r.0) written) ∙ ap (λ r. r.0.run_token) returned in
    (
      p.0,
      row,
      t,
      same,
      sym (ap (λ u. u.sync_state) made) ∙ e,
      free,
      drawn_token generated drawn ∙ ap some token_is,
      sym (ap (λ r. r.1.sync_state) returned)
          ∙ ap (λ r. r.1.sync_state) written
          ∙ ap (λ k. some (running_row p.0.service_id k env.now row)) token_is,
    )
  where
    drawn_token : (g : Option Text) {token : Text} → generated_token g ≡ ok token → g ≡ some token
    drawn_token none e = cc
    drawn_token (some k) e = ap some (ok-injective e)

-- A recovery that succeeds leaves the row that `upsertPTRSyncState` makes when it normalises.
pub recover_body-eq-ok :
    (env : Env) (cfg : Config) (s : Store) {out : Status × Store}
    → recover_body env cfg s ≡ ok out
    → (service : ServiceRow) × (t : Store) × (t.sync_state ≡ s.sync_state)
      × (out.1 ≡ upsert_sync_state true service.service_id env.now t)
      × ((there : ServiceRow)
          → service_by_key daemon_service_key s.services ≡ some there
          → service.service_id ≡ there.service_id)
      × (out.0 ≡ lookup_status cfg service env.now out.1)
unfolding recover_body
recover_body-eq-ok env cfg s {out} h =
    let (p, prepared, last) = >>=-eq-ok (prepare_foundation env cfg true s) _ h in
    let (t, same, made) = prepare_foundation-eq-ok env cfg true s prepared in
    let returned = ok-injective last in
    (
      p.0,
      t,
      same,
      sym (ap (λ r. r.1) returned) ∙ made,
      λ there known. prepare_foundation-id env cfg true s there known prepared,
      subst (λ r. r.0 ≡ lookup_status cfg p.0 env.now r.1) returned refl,
    )
