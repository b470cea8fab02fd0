-- ===== src/ImportQueue/System/Goroutine.antt =====
-- The steps of `processImportQueue` and its start keep the flag, the goroutine and the entries
-- consistent.
use hydrus_go.Base.{
  ℕ, zero, suc, Bool, true, false, Option, none, some, List, [], ◌∷◌, ◌&&◌, not, ◌≡◌, refl, ap,
  subst, inl, inr, Bool-cases, All, arith,
}
use mathlib.Core.Option.{some-injective}
use hydrus_go.Base.Strings.{Text}
use hydrus_go.ImportQueue.{Entry, is_pending, is_uploading}
use hydrus_go.ImportQueue.Processor.{
  Queue, modify, first_pending, later, streaming, begin_next, begin_at, finish_entry, requeue_entry,
  start_processor, has_pending,
}
use hydrus_go.ImportQueue.System.{
  Upload, uploaded, upload_error, Worker, off, ready, stopping, busy, outcome_status,
  proceed_worker, return_upload, begun, started,
}
use hydrus_go.ImportQueue.System.Flight.{IsIdle, InFlight, IsConsistent}

-- The next pending entry is the only one in flight once it is marked.
some_pair :
    {i j : ℕ} {p q : Text}
    → ◌≡◌ {A = Option (ℕ × Text)} (some (i, p)) (some (j, q))
    → (i ≡ j) × (p ≡ q)
some_pair {i} {j} {p} {q} e =
    let same = some-injective (i, p) (j, q) e in
    (ap (λ (t : ℕ × Text). t.0) same, ap (λ (t : ℕ × Text). t.1) same)

later-flight :
    (d : Entry) (es : List Entry) (i : ℕ) (p : Text) (o : Option (ℕ × Text))
    → IsIdle d
    → ((j : ℕ) (q : Text) → o ≡ some (j, q) → InFlight j q (modify streaming j es))
    → later o ≡ some (i, p)
    → InFlight i p (modify streaming i (d ∷ es))
unfolding modify
later-flight d es i p none hd ih e = cc
later-flight d es i p (some (j, q)) hd ih e =
    let (same_index, same_path) = some_pair e in
    subst (λ k. InFlight k p (modify streaming k (d ∷ es))) same_index
      (hd, subst (λ t. InFlight j t (modify streaming j es)) same_path (ih j q refl))

begin-flight :
    (es : List Entry) (i : ℕ) (p : Text)
    → first_pending es ≡ some (i, p)
    → All IsIdle es
    → InFlight i p (modify streaming i es)
unfolding first_pending modify
begin-flight [] i p e h = cc
begin-flight (d ∷ es) i p e (hd, h) = elim (Bool-cases (is_pending d.status)) [
  | inl k ↦
      let (same_index, same_path) = some_pair (rw k at e) in
      subst (λ j. InFlight j p (modify streaming j (d ∷ es))) same_index (same_path, refl, h)
  | inr k ↦
      later-flight d es i p (first_pending es) hd (λ j q f. begin-flight es j q f h) (rw k at e)
]

-- A finished or queued-again entry leaves nothing in flight.
land-IsIdle :
    (f : Entry → Entry)
    → ((e : Entry) → IsIdle (f e))
    → (i : ℕ) (p : Text) (es : List Entry) → InFlight i p es
    → All IsIdle (modify f i es)
unfolding modify
land-IsIdle f k i p [] h = absurd h
land-IsIdle f k zero p (e ∷ es) (hp, hu, h) = (k e, h)
land-IsIdle f k (suc i) p (e ∷ es) (he, h) = (he, land-IsIdle f k i p es h)

outcome-idle : (u : Upload) → is_uploading (outcome_status u) ≡ false
outcome-idle (uploaded id true) = refl
outcome-idle (uploaded id false) = refl
outcome-idle (upload_error m) = refl

begun-IsConsistent :
    (q : Queue) (o : Option (ℕ × Text))
    → first_pending q.entries ≡ o
    → q.running ≡ true
    → All IsIdle q.entries
    → IsConsistent (begun (begin_at o q))
begun-IsConsistent q none e r h = record { flag = refl; holds = h }
begun-IsConsistent q (some (i, p)) e r h = record {
  flag = r;
  holds = begin-flight q.entries i p e h;
}

pub proceed-IsConsistent :
    (w : Worker) (current : Bool) (q : Queue)
    → IsConsistent (record { queue = q; worker = w })
    → IsConsistent (proceed_worker w current q)
unfolding proceed_worker begin_next
proceed-IsConsistent off current q c = c
proceed-IsConsistent (busy i p) current q c = c
proceed-IsConsistent stopping current q c = record { flag = refl; holds = c.holds }
proceed-IsConsistent ready false q c = record { flag = refl; holds = c.holds }
proceed-IsConsistent ready true q c =
    begun-IsConsistent q (first_pending q.entries) refl c.flag c.holds

pub return-IsConsistent :
    (w : Worker) (current : Bool) (u : Upload) (q : Queue)
    → IsConsistent (record { queue = q; worker = w })
    → IsConsistent (return_upload w current u q)
unfolding return_upload finish_entry requeue_entry
return-IsConsistent off current u q c = c
return-IsConsistent ready current u q c = c
return-IsConsistent stopping current u q c = c
return-IsConsistent (busy i p) true u q c = record {
  flag = c.flag;
  holds = land-IsIdle _ (λ e. outcome-idle u) i p q.entries c.holds;
}
return-IsConsistent (busy i p) false u q c = record {
  flag = c.flag;
  holds = land-IsIdle _ (λ e. refl) i p q.entries c.holds;
}

pub started-IsConsistent :
    (w : Worker) (connected : Bool) (q : Queue)
    → IsConsistent (record { queue = q; worker = w })
    → IsConsistent (started (start_processor connected q) w)
unfolding start_processor
started-IsConsistent w connected q c =
    elim (Bool-cases (connected && (not q.running && has_pending q.entries))) [
      | inr k ↦ rw k c
      | inl k ↦ rw k (record { flag = refl; holds = idle w c (ground arith) })
    ]
  where
    idle :
        (w : Worker)
        → IsConsistent (record { queue = q; worker = w })
        → q.running ≡ false
        → All IsIdle q.entries
    idle off c k = c.holds
    idle ready c k = c.holds
    idle stopping c k = c.holds
    idle (busy i p) c k = cc (c.flag, k)
