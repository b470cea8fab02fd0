-- ===== src/PtrSync/Runs/Waiting.antt =====
-- A server that stays busy: how often runs wait for it in a row.
use hydrus_go.Base.{
  ℕ, zero, suc, ◌+◌, ◌≤◌, ◌≡◌, refl, false, Option, some, List, [], ◌∷◌, inl, inr, Bool-cases, ap,
  subst, sym, ◌∙◌, arith, ◌⊎◌,
}
use hydrus_go.Base.Strings.{Text}
use hydrus_go.Base.Results.{Result, ok, err, >>=-eq-ok}
use hydrus_go.Base.Int.{ℤ, pos, ltb_ℤ, ◌≤ℤ◌}
use hydrus_go.PtrSync.{SyncError, SyncRow, ServiceRow, Store, Status, Config}
use hydrus_go.PtrSync.Lease.{set_running, counted_attempt, throttled_row}
use hydrus_go.PtrSync.Report.{successor, lookup_status, row_status}
use hydrus_go.PtrSync.Services.{Env, prepare_foundation}
use hydrus_go.PtrSync.Bundle.{
  Lease, begin_body, begin_sync, generated_token, throttle_body, throttle_sync, finish_failure,
}
use hydrus_go.PtrSync.Transactions.{ok-injective, upsert_sync_state_kept}
use hydrus_go.PtrSync.Outcomes.{begin_body-eq-ok, throttle_body-eq-ok}
use hydrus_go.PtrSync.Endings.{when_enabled-eq-ok}
use hydrus_go.PtrSync.Retry.{
  RunError, is_retryable, max_int64, max_busy_retry_attempts, Finish, not_handled, given_up,
  waiting, not_persisted, finish_as, retry_delay, server_issue, finish_throttled,
}
use hydrus_go.PtrSync.Runs.{attempt_of}

-- A run that begins and then meets an error of a fetch: what the begin reads, the status that the run
-- has by then, its error, and the clock at the end.
pub record Round : Type 0 where
  pub env : Env
  pub generated : Option Text
  pub last : Option Status
  pub kind : RunError
  pub now : ℕ

abbrev pub meet_busy : Config → Round → Result SyncError Lease × Store → Finish × Store
meet_busy cfg r (err e, t) = (not_persisted e, t)
meet_busy cfg r (ok lease, t) =
    finish_throttled r.now cfg lease.run_token lease.status.retry_attempt (attempt_of r.last) r.kind
      t

unfoldable pub busy_run : Config → Round → Store → Finish × Store
busy_run cfg r s = meet_busy cfg r (begin_sync r.env cfg r.generated s)

abbrev pub waits_before : Finish → ℕ → ℕ
waits_before (waiting status) n = suc n
waits_before not_handled n = 0
waits_before (given_up status) n = 0
waits_before (not_persisted e) n = 0

-- How many of the runs wait one after the other, from the first one on.
unfoldable pub waits_in_a_row : Config → List Round → Store → ℕ
waits_in_a_row cfg [] s = 0
waits_in_a_row cfg (r ∷ rs) s =
    waits_before (busy_run cfg r s).0 (waits_in_a_row cfg rs (busy_run cfg r s).1)

-- The row has counted at least so many attempts; a row without any need not be there.
AtLeast : ℕ → Store → Type 0
AtLeast zero s = Unit
AtLeast (suc k) s = (row : SyncRow) × (s.sync_state ≡ some row) × (pos (suc k) ≤ℤ row.retry_attempt)

lookup_status-attempt :
    (cfg : Config) (service : ServiceRow) (now : ℕ) (s : Store) (row : SyncRow)
    → s.sync_state ≡ some row
    → (lookup_status cfg service now s).retry_attempt ≡ row.retry_attempt
unfolding lookup_status row_status
lookup_status-attempt cfg service now s row e = rw e refl

begin_body-status :
    (env : Env) (cfg : Config) (generated : Option Text) (s : Store) (out : Lease × Store)
    → begin_body env cfg generated s ≡ ok out
    → (service : ServiceRow) × (out.0.status ≡ lookup_status cfg service env.now out.1)
unfolding begin_body
begin_body-status env cfg generated s out h =
    let (p, _, rest) = >>=-eq-ok (prepare_foundation env cfg false s) _ h in
    let (token, _, rest') = >>=-eq-ok (generated_token generated) _ rest in
    let (q, _, last) = >>=-eq-ok (set_running p.0.service_id token env.now p.1) _ rest' in
    subst
      (λ (o : Lease × Store).
        (service : ServiceRow) × (o.0.status ≡ lookup_status cfg service env.now o.1))
      (ok-injective last) (p.0, refl)

some-injective : {a b : SyncRow} → ◌≡◌ {A = Option SyncRow} (some a) (some b) → a ≡ b
some-injective p = cc

-- A lease tells the number of attempts of the row that was there before.
begin_sync-attempt :
    (env : Env) (cfg : Config) (generated : Option Text) (s : Store) (lease : Lease) (row : SyncRow)
    → (begin_sync env cfg generated s).0 ≡ ok lease
    → s.sync_state ≡ some row
    → lease.status.retry_attempt ≡ row.retry_attempt
unfolding begin_sync
begin_sync-attempt env cfg generated s lease row h e =
    let begun = when_enabled-eq-ok cfg (begin_body env cfg generated) s h in
    let (service, row', t, same, kept, _, _, written) =
      begin_body-eq-ok env cfg generated s begun in
    let (service', told) = begin_body-status env cfg generated s _ begun in
    let unchanged : row' ≡ row = some-injective (
      sym kept
      ∙ ap (λ u. u.sync_state) (upsert_sync_state_kept service.service_id env.now t row (same ∙ e))
      ∙ same
      ∙ e) in
    ap (λ st. st.retry_attempt) told
    ∙ lookup_status-attempt cfg service' env.now (begin_sync env cfg generated s).1 _ written
    ∙ ap (λ r. r.retry_attempt) unchanged

-- A wait was allowed, and its number is in the row.
throttled-AtLeast :
    (now k : ℕ) (cfg : Config) (token : Text) (a b : ℤ) (kind : RunError) (s : Store)
    (status : Status)
    → (finish_throttled now cfg token a b kind s).0 ≡ waiting status
    → pos k ≤ℤ max_int64 a b ⊎ (k ≡ 0)
    → AtLeast (suc k) (finish_throttled now cfg token a b kind s).1 × (suc k ≤ 10)
unfolding finish_throttled AtLeast throttle_sync
throttled-AtLeast now k cfg token a b kind s status h many = elim (Bool-cases (is_retryable kind)) [
  | inr final ↦ cc (rw final at h)
  | inl retryable ↦ elim (Bool-cases (ltb_ℤ max_busy_retry_attempts (successor retries))) [
    | inl over ↦ absurd (
        not_waiting (finish_failure now cfg token (server_issue retries) s)
          (rw (retryable, over) at h))
    | inr under ↦
        rw (retryable, under)
          (let (st, saved, same) =
              waited (throttle_sync now cfg token at_ms (successor retries) s)
                (rw (retryable, under) at h) in
            let (service, found, (row, e, held, made, told)) =
              throttle_body-eq-ok now cfg token s at_ms (successor retries) (
                when_enabled-eq-ok {a = st} cfg
                  (throttle_body now cfg token at_ms (successor retries)) s saved) in
            (
              (
                throttled_row service.service_id at_ms (successor retries) now row,
                ap (λ u. u.sync_state) (same ∙ made),
                enough k retries many,
              ),
              bounded k retries many under,
            ))
  ]
]
  where
    retries : ℤ
    retries = max_int64 a b

    at_ms : ℤ
    at_ms = pos (now + retry_delay kind)

    enough : (k : ℕ) (z : ℤ) → pos k ≤ℤ z ⊎ (k ≡ 0) → pos (suc k) ≤ℤ counted_attempt (successor z)
    enough k z many = ground arith

    bounded :
        (k : ℕ) (z : ℤ)
        → pos k ≤ℤ z ⊎ (k ≡ 0)
        → ltb_ℤ max_busy_retry_attempts (successor z) ≡ false
        → suc k ≤ 10
    bounded k z many under = ground arith

    waited :
        (r : Result SyncError Status × Store)
        → (finish_as waiting r).0 ≡ waiting status
        → (st : Status) × (r.0 ≡ ok st) × ((finish_as waiting r).1 ≡ r.1)
    waited (err e, u) w = cc
    waited (ok st, u) w = (st, refl, refl)

    not_waiting :
        (r : Result SyncError Status × Store) → ¬ ((finish_as given_up r).0 ≡ waiting status)
    not_waiting (err e, u) w = cc
    not_waiting (ok st, u) w = cc

attempts-many : (k : ℕ) (a b : ℤ) → pos k ≤ℤ a ⊎ (k ≡ 0) → pos k ≤ℤ max_int64 a b ⊎ (k ≡ 0)
attempts-many k a b (inr none_yet) = inr none_yet
attempts-many k a b (inl many) = inl (ground arith)

leased-many :
    (k : ℕ) (env : Env) (cfg : Config) (generated : Option Text) (s : Store) (lease : Lease)
    → (begin_sync env cfg generated s).0 ≡ ok lease
    → AtLeast k s
    → pos k ≤ℤ lease.status.retry_attempt ⊎ (k ≡ 0)
unfolding AtLeast
leased-many zero env cfg generated s lease h many = inr refl
leased-many (suc k) env cfg generated s lease h (row, e, many) = inl (
    subst (λ a. pos (suc k) ≤ℤ a) (sym (begin_sync-attempt env cfg generated s lease row h e)) many)

-- A run that waits after k attempts leaves k + 1 of them, which are at most ten.
busy_run-AtLeast :
    (k : ℕ) (cfg : Config) (r : Round) (s : Store) (status : Status)
    → (busy_run cfg r s).0 ≡ waiting status
    → AtLeast k s
    → AtLeast (suc k) (busy_run cfg r s).1 × (suc k ≤ 10)
unfolding busy_run
busy_run-AtLeast k cfg r s status h many = met (begin_sync r.env cfg r.generated s) refl h
  where
    met :
        (p : Result SyncError Lease × Store)
        → begin_sync r.env cfg r.generated s ≡ p
        → (meet_busy cfg r p).0 ≡ waiting status
        → AtLeast (suc k) (meet_busy cfg r p).1 × (suc k ≤ 10)
    met (err e, t) begun w = cc
    met (ok lease, t) begun w =
        throttled-AtLeast r.now k cfg lease.run_token lease.status.retry_attempt (attempt_of r.last)
          r.kind t status w
          (attempts-many k lease.status.retry_attempt (attempt_of r.last)
            (leased-many k r.env cfg r.generated s lease (ap (λ q. q.0) begun) many))

waits_from :
    (k : ℕ) (cfg : Config) (rs : List Round) (s : Store)
    → k ≤ 10
    → AtLeast k s
    → waits_in_a_row cfg rs s + k ≤ 10
unfolding waits_in_a_row
waits_from k cfg [] s small many = omega arith
waits_from k cfg (r ∷ rs) s small many =
    after (busy_run cfg r s).0 refl (λ m. waits_from (suc k) cfg rs (busy_run cfg r s).1 m)
  where
    after :
        (f : Finish)
        → (busy_run cfg r s).0 ≡ f
        → (suc k ≤ 10
            → AtLeast (suc k) (busy_run cfg r s).1
            → waits_in_a_row cfg rs (busy_run cfg r s).1 + suc k ≤ 10)
        → waits_before f (waits_in_a_row cfg rs (busy_run cfg r s).1) + k ≤ 10
    after not_handled e rest = omega arith
    after (given_up status) e rest = omega arith
    after (not_persisted why) e rest = omega arith
    after (waiting status) e rest =
        let (more, within) = busy_run-AtLeast k cfg r s status e many in
        omega (arith, rest within more)

-- Whatever the store, the clocks and the errors are, at most ten runs in a row wait for a busy server:
-- of eleven runs that follow one another, one does not leave the sync waiting.
pub waits_in_a_row-le : (cfg : Config) (rs : List Round) (s : Store) → waits_in_a_row cfg rs s ≤ 10
unfolding AtLeast
waits_in_a_row-le cfg rs s = omega (arith, waits_from 0 cfg rs s (omega arith) tt)
