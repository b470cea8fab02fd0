-- ===== src/PtrSync/Tenure.antt =====
-- How long a caller keeps the lease that a begin gave him.
use hydrus_go.Base.{
  ℕ, ◌≡◌, refl, true, false, Option, some, List, [], ◌∷◌, ap, subst, sym, arith, All, ◌∙◌,
}
use hydrus_go.Base.Strings.{Text}
use hydrus_go.Base.Results.{Result, ok, err, >>=-eq-ok}
use hydrus_go.Base.Int.{ℤ}
use hydrus_go.PtrSync.{SyncError, SyncRow, Store, Config}
use hydrus_go.PtrSync.Lease.{holds_lease, update_active, ensure_run_active}
use hydrus_go.PtrSync.Services.{lookup_service}
use hydrus_go.PtrSync.Bundle.{metrics_body, update_metrics, measured}
use hydrus_go.PtrSync.Transactions.{when_enabled-keeps, update_active-eq-ok, ok-injective}
use hydrus_go.PtrSync.Calls.{
  Call, begin, recover, complete, cancel, throttle, fail, metrics, Reply, replied, perform, run,
  is_foreign, ends, reported,
}
use hydrus_go.PtrSync.Exclusive.{Held, perform-foreign}

pub replied-store :
    {A : Type 0} (reply : A → Reply) (r : Result SyncError A × Store) → (replied reply r).1 ≡ r.1
replied-store reply (err e, s) = refl
replied-store reply (ok a, s) = refl

-- The owner's report on the download leaves the lease with him.
some-injective : {a b : SyncRow} → ◌≡◌ {A = Option SyncRow} (some a) (some b) → a ≡ b
some-injective p = cc

metrics-Held :
    (held used : Text) (now : ℕ) (cfg : Config) (bytes ms : ℤ) (s : Store)
    → Held held s
    → Held held (update_metrics now cfg used bytes ms s).1
unfolding update_metrics metrics_body
metrics-Held held used now cfg bytes ms s (row, e, h) =
    when_enabled-keeps cfg (metrics_body now cfg used bytes ms) s (Held held) (row, e, h)
      (λ status after done.
        let (service, _, active) = >>=-eq-ok (lookup_service s) _ done in
        let (_, _, updated) = >>=-eq-ok (ensure_run_active service.service_id used s) _ active in
        let (q, changed, last) =
          >>=-eq-ok (update_active used (measured now bytes ms s) s) _ updated in
        let (row', e', h', made) = update_active-eq-ok used (measured now bytes ms s) s changed in
        let same : row ≡ row' = some-injective (sym e ∙ e') in
        subst (Held held) (ap (λ r. r.1) (ok-injective last)) (
          subst (Held held) (sym made)
            (measured now bytes ms s row', refl, subst (λ r. holds_lease held r ≡ true) same h)))

foreign-Held :
    (held : Text) (call : Call) (s : Store)
    → Held held s
    → is_foreign held call ≡ true
    → Held held (perform call s).1
foreign-Held held call s lease h =
    let (e, left) = perform-foreign held call s lease h in
    subst (Held held) (sym (ap (λ r. r.1) left)) lease

pub perform-Held :
    (held : Text) (call : Call) (s : Store)
    → Held held s
    → ends held call ≡ false
    → Held held (perform call s).1
unfolding perform
perform-Held held (begin env cfg generated) s lease h =
    foreign-Held held (begin env cfg generated) s lease refl
perform-Held held (recover env cfg) s lease h = cc
perform-Held held (complete now cfg used) s lease h =
    foreign-Held held (complete now cfg used) s lease (ground arith)
perform-Held held (cancel now cfg used) s lease h =
    foreign-Held held (cancel now cfg used) s lease (ground arith)
perform-Held held (throttle now cfg used at_ms attempt) s lease h =
    foreign-Held held (throttle now cfg used at_ms attempt) s lease (ground arith)
perform-Held held (fail now cfg used last_error) s lease h =
    foreign-Held held (fail now cfg used last_error) s lease (ground arith)
perform-Held held (metrics now cfg used bytes ms) s lease h =
    subst (Held held) (sym (replied-store reported (update_metrics now cfg used bytes ms s)))
      (metrics-Held held used now cfg bytes ms s lease)

-- From the begin of a run on, whatever calls come in, the caller keeps the lease until a call ends
-- the run with his token or a recovery ends every run.
pub run-Held :
    (held : Text) (calls : List Call) (s : Store)
    → Held held s
    → All (λ call. ends held call ≡ false) calls
    → Held held (run calls s)
unfolding run
run-Held held [] s lease _ = lease
run-Held held (call ∷ calls) s lease (h, rest) =
    run-Held held calls (perform call s).1 (perform-Held held call s lease h) rest
