-- ===== src/PtrSync/Transactions.antt =====
-- How the calls of the write bundle end: a failed body leaves the store alone, a body that succeeds
-- has run every statement of its chain.
use hydrus_go.Base.{
  ℕ, ◌≡◌, refl, Bool, true, false, Option, none, some, inl, inr, Bool-cases, ap, subst, sym, ◌==◌,
  ◌∙◌,
}
use hydrus_go.Base.Strings.{Text, text_eq}
use hydrus_go.Base.Results.{Result, ok, err, ◌>>=◌, >>=-eq-ok}
use hydrus_go.PtrSync.{
  SyncError, SyncRow, ServiceRow, Store, Config, with_immediate_tx, commit_or_roll_back,
  daemon_service_key, updates_service_key,
}
use hydrus_go.PtrSync.Lease.{holds_lease, update_active, upsert_sync_state}
use hydrus_go.PtrSync.Services.{
  Env, prepare_foundation, ensure_tag_repository_service, ensure_repository_updates_service,
  ensure_updates_from, ensure_repository_from, existing_repository, new_repository, renamed,
  service_by_key, type_tag_repository, type_local_file_update_domain,
}
use hydrus_go.PtrSync.Bundle.{when_enabled}

abbrev pub Fails {ℓ} : {A : Type ℓ} → Result SyncError A → Type ℓ
Fails {A} m = (e : SyncError) × (m ≡ err e)

-- A chain fails if every value of its first call leads to a failure.
pub Fails->>= :
    {A B : Type 0} (m : Result SyncError A) (f : A → Result SyncError B)
    → ((a : A) → m ≡ ok a → Fails (f a))
    → Fails (m >>= f)
Fails->>= (err e) f next = (e, refl)
Fails->>= (ok a) f next = next a refl

module _ {A : Type 0} (cfg : Config) (body : Store → Result SyncError (A × Store)) (s : Store) where
  pub when_enabled-Fails : Fails (body s) → (e : SyncError) × (when_enabled cfg body s ≡ (err e, s))
  when_enabled-Fails (e, failed) = elim (Bool-cases cfg.enabled) [
    | inl on ↦ rw (on, failed) (e, refl)
    | inr off ↦ rw off (SyncError.sync_disabled, refl)
  ]

  pub with_immediate_tx-keeps {ℓ} :
      (P : Store → Type ℓ)
      → P s
      → ((a : A) (after : Store) → body s ≡ ok (a, after) → P after)
      → P (with_immediate_tx body s).1
  with_immediate_tx-keeps P before after = keeps (body s) after
    where
      keeps :
          (r : Result SyncError (A × Store))
          → ((a : A) (t : Store) → r ≡ ok (a, t) → P t)
          → P (commit_or_roll_back s r).1
      keeps (err e) next = before
      keeps (ok (a, t)) next = next a t refl

  pub when_enabled-keeps {ℓ} :
      (P : Store → Type ℓ)
      → P s
      → ((a : A) (after : Store) → body s ≡ ok (a, after) → P after)
      → P (when_enabled cfg body s).1
  when_enabled-keeps P before after = elim (Bool-cases cfg.enabled) [
    | inl on ↦ rw on (with_immediate_tx-keeps P before after)
    | inr off ↦ rw off before
  ]

pub ok-injective : {A : Type 0} {a b : A} → ◌≡◌ {A = Result SyncError A} (ok a) (ok b) → a ≡ b
ok-injective {a} p = ap (value_or a) p
  where
    value_or : {A : Type 0} → A → Result SyncError A → A
    value_or a (err e) = a
    value_or a (ok b) = b

-- The only row that an UPDATE on an active run changes is the one whose lease the token holds.
pub update_active-eq-ok :
    (token : Text) (set : SyncRow → SyncRow) (s : Store) {p : Unit {0} × Store}
    → update_active token set s ≡ ok p
    → (row : SyncRow) × (s.sync_state ≡ some row)
      × (holds_lease token row ≡ true)
      × (p.1 ≡ record s { sync_state = some (set row) })
update_active-eq-ok token set s {p} h = by_row s.sync_state refl
  where
    by_row :
        (o : Option SyncRow)
        → s.sync_state ≡ o
        → (row : SyncRow) × (s.sync_state ≡ some row)
          × (holds_lease token row ≡ true)
          × (p.1 ≡ record s { sync_state = some (set row) })
    by_row none e = cc (rw e at h)
    by_row (some row) e = elim (Bool-cases (holds_lease token row)) [
      | inl held ↦ (row, e, held, sym (ap (λ q. q.1) (ok-injective (rw (e, held) at h))))
      | inr other ↦ cc (rw (e, other) at h)
    ]

-- The services are prepared without a look at the state of the sync.
pub ensure_tag_repository_service-sync_state :
    (env : Env) (cfg : Config) (s : Store) {p : ServiceRow × Store}
    → ensure_tag_repository_service env cfg s ≡ ok p
    → p.1.sync_state ≡ s.sync_state
unfolding ensure_tag_repository_service
ensure_tag_repository_service-sync_state env cfg s h =
    from (service_by_key daemon_service_key s.services) h
  where
    rename :
        (service : ServiceRow) (o : Option ServiceRow) {p : ServiceRow × Store}
        → renamed cfg.service_name service o s ≡ ok p
        → p.1.sync_state ≡ s.sync_state
    rename service (some row) h = cc
    rename service none h = sym (ap (λ q. q.1.sync_state) (ok-injective h))

    existing :
        (service : ServiceRow) {p : ServiceRow × Store}
        → existing_repository env cfg service s ≡ ok p
        → p.1.sync_state ≡ s.sync_state
    existing service {p} h = elim (Bool-cases (service.service_type == type_tag_repository)) [
      | inr e ↦ cc (rw e at h)
      | inl e ↦ elim (Bool-cases (text_eq service.name cfg.service_name)) [
        | inl same ↦ sym (ap (λ q. q.1.sync_state) (ok-injective (rw (e, same) at h)))
        | inr other ↦ rename service _ (rw (e, other) at h)
      ]
    ]

    fresh :
        (o : Option ServiceRow) {p : ServiceRow × Store}
        → new_repository env cfg o s ≡ ok p
        → p.1.sync_state ≡ s.sync_state
    fresh (some row) h = cc
    fresh none h = sym (ap (λ q. q.1.sync_state) (ok-injective h))

    from :
        (o : Option ServiceRow) {p : ServiceRow × Store}
        → ensure_repository_from env cfg o s ≡ ok p
        → p.1.sync_state ≡ s.sync_state
    from (some service) h = existing service h
    from none h = fresh _ h

pub ensure_repository_updates_service-sync_state :
    (env : Env) (s : Store) {after : Store}
    → ensure_repository_updates_service env s ≡ ok after
    → after.sync_state ≡ s.sync_state
unfolding ensure_repository_updates_service
ensure_repository_updates_service-sync_state env s h =
    from (service_by_key updates_service_key s.services) h
  where
    from :
        (o : Option ServiceRow) {after : Store}
        → ensure_updates_from env o s ≡ ok after
        → after.sync_state ≡ s.sync_state
    from none h = sym (ap (λ t. t.sync_state) (ok-injective h))
    from (some service) h =
        elim (Bool-cases (service.service_type == type_local_file_update_domain)) [
          | inl e ↦ sym (ap (λ t. t.sync_state) (ok-injective (rw e at h)))
          | inr e ↦ cc (rw e at h)
        ]

-- A start that finds a row of an earlier one keeps it, unless it is asked to normalise it.
pub upsert_sync_state_kept :
    (id now : ℕ) (s : Store) (row : SyncRow)
    → s.sync_state ≡ some row
    → upsert_sync_state false id now s ≡ s
unfolding upsert_sync_state
upsert_sync_state_kept id now s row e = rw e refl

-- A foundation that is prepared has the state that `upsertPTRSyncState` makes of the one before.
pub prepare_foundation-eq-ok :
    (env : Env) (cfg : Config) (normalize : Bool) (s : Store) {p : ServiceRow × Store}
    → prepare_foundation env cfg normalize s ≡ ok p
    → (t : Store) × (t.sync_state ≡ s.sync_state)
      × (p.1 ≡ upsert_sync_state normalize p.0.service_id env.now t)
unfolding prepare_foundation
prepare_foundation-eq-ok env cfg normalize s h =
    let (q, found, rest) = >>=-eq-ok (ensure_tag_repository_service env cfg s) _ h in
    let (t, updates, last) = >>=-eq-ok (ensure_repository_updates_service env q.1) _ rest in
    (
      t,
      ensure_repository_updates_service-sync_state env q.1 updates
          ∙ ensure_tag_repository_service-sync_state env cfg s found,
      subst (λ r. r.1 ≡ upsert_sync_state normalize r.0.service_id env.now t) (ok-injective last)
          refl,
    )

-- The service that is prepared is the one that is there, if there is one.
ensure_tag_repository_service-id :
    (env : Env) (cfg : Config) (s : Store) (service : ServiceRow) {p : ServiceRow × Store}
    → service_by_key daemon_service_key s.services ≡ some service
    → ensure_tag_repository_service env cfg s ≡ ok p
    → p.0.service_id ≡ service.service_id
unfolding ensure_tag_repository_service
ensure_tag_repository_service-id env cfg s service {p} there h =
    existing (subst (λ o. ensure_repository_from env cfg o s ≡ ok p) there h)
  where
    rename :
        (o : Option ServiceRow) {p : ServiceRow × Store}
        → renamed cfg.service_name service o s ≡ ok p
        → p.0.service_id ≡ service.service_id
    rename (some row) h = cc
    rename none h = sym (ap (λ q. q.0.service_id) (ok-injective h))

    existing :
        {p : ServiceRow × Store}
        → existing_repository env cfg service s ≡ ok p
        → p.0.service_id ≡ service.service_id
    existing h = elim (Bool-cases (service.service_type == type_tag_repository)) [
      | inr e ↦ cc (rw e at h)
      | inl e ↦ elim (Bool-cases (text_eq service.name cfg.service_name)) [
        | inl same ↦ sym (ap (λ q. q.0.service_id) (ok-injective (rw (e, same) at h)))
        | inr other ↦ rename _ (rw (e, other) at h)
      ]
    ]

pub prepare_foundation-id :
    (env : Env) (cfg : Config) (normalize : Bool) (s : Store) (service : ServiceRow)
    {p : ServiceRow × Store}
    → service_by_key daemon_service_key s.services ≡ some service
    → prepare_foundation env cfg normalize s ≡ ok p
    → p.0.service_id ≡ service.service_id
unfolding prepare_foundation
prepare_foundation-id env cfg normalize s service there h =
    let (q, found, rest) = >>=-eq-ok (ensure_tag_repository_service env cfg s) _ h in
    let (t, _, last) = >>=-eq-ok (ensure_repository_updates_service env q.1) _ rest in
    sym (ap (λ r. r.0.service_id) (ok-injective last))
    ∙ ensure_tag_repository_service-id env cfg s service there found
