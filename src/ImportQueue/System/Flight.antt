-- ===== src/ImportQueue/System/Flight.antt =====
-- The entry whose upload is in flight stays where the goroutine will look for it.
use hydrus_go.Base.{
  ℕ, zero, suc, Bool, true, false, Option, none, some, List, [], ◌∷◌, ◌++◌, ◌||◌, ◌≡◌, refl, ap,
  ◌∙◌, inl, inr, Bool-cases, All, All-append, get_elem?, arith,
}
use hydrus_go.Base.Strings.{Text, codes, text_eq, is_empty}
use hydrus_go.ImportQueue.{uploading, Entry, is_failed, is_uploading, retry}
use hydrus_go.ImportQueue.Processor.{
  Append, modify, append_known, append_at, append_path, append_loop, retried_entry, normal_path,
}
use hydrus_go.ImportQueue.System.{Worker, off, ready, stopping, busy, System}

abbrev pub IsIdle : Entry → Type 0
IsIdle entry = is_uploading entry.status ≡ false

-- The entry at the index has the path and is uploading, and no other entry is.
abbrev pub InFlight : ℕ → Text → List Entry → Type 0
InFlight index path [] = ⊥
InFlight zero path (entry ∷ entries) =
    (entry.path ≡ path) × (entry.status ≡ uploading) × All IsIdle entries
InFlight (suc index) path (entry ∷ entries) = IsIdle entry × InFlight index path entries

-- What the worker relies on in the queue.
abbrev pub Holds : Worker → List Entry → Type 0
Holds (busy index path) entries = InFlight index path entries
Holds off entries = All IsIdle entries
Holds ready entries = All IsIdle entries
Holds stopping entries = All IsIdle entries

abbrev pub is_running : Worker → Bool
is_running off = false
is_running _ = true

pub record IsConsistent (s : System) : Type 0 where
  pub flag : s.queue.running ≡ is_running s.worker
  pub holds : Holds s.worker s.queue.entries

-- `f` never touches the uploading entry's path or status, and starts no upload.
pub record Harmless (f : Entry → Entry) : Type 0 where
  pub idle : (e : Entry) → IsIdle e → IsIdle (f e)
  pub same : (e : Entry) → e.status ≡ uploading → f e ≡ e

pub modify-IsIdle :
    (f : Entry → Entry)
    → ((e : Entry) → IsIdle e → IsIdle (f e))
    → (index : ℕ) (es : List Entry) → All IsIdle es
    → All IsIdle (modify f index es)
unfolding modify
modify-IsIdle f k index [] h = tt
modify-IsIdle f k zero (e ∷ es) (he, h) = (k e he, h)
modify-IsIdle f k (suc index) (e ∷ es) (he, h) = (he, modify-IsIdle f k index es h)

pub modify-flight :
    (f : Entry → Entry)
    → Harmless f
    → (index i : ℕ) (p : Text) (es : List Entry) → InFlight i p es
    → InFlight i p (modify f index es)
unfolding modify
modify-flight f k index i p [] h = absurd h
modify-flight f k zero zero p (e ∷ es) (hp, hu, h) = (
  ap (λ (x : Entry). x.path) (k.same e hu) ∙ hp,
  ap (λ (x : Entry). x.status) (k.same e hu) ∙ hu,
  h,
)
modify-flight f k zero (suc i) p (e ∷ es) (he, h) = (k.idle e he, h)
modify-flight f k (suc index) zero p (e ∷ es) (hp, hu, h) =
    (hp, hu, modify-IsIdle f k.idle index es h)
modify-flight f k (suc index) (suc i) p (e ∷ es) (he, h) = (he, modify-flight f k index i p es h)

pub modify-Holds :
    (f : Entry → Entry)
    → Harmless f
    → (w : Worker) (index : ℕ) (es : List Entry) → Holds w es
    → Holds w (modify f index es)
modify-Holds f k (busy i p) index es h = modify-flight f k index i p es h
modify-Holds f k off index es h = modify-IsIdle f k.idle index es h
modify-Holds f k ready index es h = modify-IsIdle f k.idle index es h
modify-Holds f k stopping index es h = modify-IsIdle f k.idle index es h

pub retry-Harmless : (detail : Text) → Harmless (λ e. (retry e detail).0)
unfolding retry
retry-Harmless detail = record { idle = λ e h. ground arith; same = λ e h. ground arith }

-- Appending pending entries, and queueing failed ones again.
append-flight :
    (i : ℕ) (p : Text) (es fs : List Entry)
    → InFlight i p es
    → All IsIdle fs
    → InFlight i p (es ++ fs)
append-flight i p [] fs h k = absurd h
append-flight zero p (e ∷ es) fs (hp, hu, h) k = (hp, hu, All-append IsIdle es fs h k)
append-flight (suc i) p (e ∷ es) fs (he, h) k = (he, append-flight i p es fs h k)

append-Holds : (w : Worker) (es fs : List Entry) → Holds w es → All IsIdle fs → Holds w (es ++ fs)
append-Holds (busy i p) es fs h k = append-flight i p es fs h k
append-Holds off es fs h k = All-append IsIdle es fs h k
append-Holds ready es fs h k = All-append IsIdle es fs h k
append-Holds stopping es fs h k = All-append IsIdle es fs h k

-- The entry at an index that is queued again is a failed one, so it is not the uploading one.
retried-flight :
    (source : Text) (index i : ℕ) (p : Text) (es : List Entry) (e : Entry)
    → get_elem? es index ≡ some e
    → is_failed e.status ≡ true
    → InFlight i p es
    → InFlight i p (modify (retried_entry source) index es)
unfolding modify
retried-flight source index i p [] e g k h = absurd h
retried-flight source zero zero p (d ∷ es) e g k (hp, hu, h) = absurd (clash hu g k)
  where
    clash : d.status ≡ uploading → some d ≡ some e → is_failed e.status ≡ true → ⊥
    clash hu g k = ground arith
retried-flight source zero (suc i) p (d ∷ es) e g k (hd, h) = (refl, h)
retried-flight source (suc index) zero p (d ∷ es) e g k (hp, hu, h) =
    (hp, hu, modify-IsIdle (retried_entry source) (λ x _. refl) index es h)
retried-flight source (suc index) (suc i) p (d ∷ es) e g k (hd, h) =
    (hd, retried-flight source index i p es e g k h)

retried-Holds :
    (w : Worker) (source : Text) (index : ℕ) (es : List Entry) (e : Entry)
    → get_elem? es index ≡ some e
    → is_failed e.status ≡ true
    → Holds w es
    → Holds w (modify (retried_entry source) index es)
retried-Holds (busy i p) source index es e g k h = retried-flight source index i p es e g k h
retried-Holds off source index es e g k h =
    modify-IsIdle (retried_entry source) (λ x _. refl) index es h
retried-Holds ready source index es e g k h =
    modify-IsIdle (retried_entry source) (λ x _. refl) index es h
retried-Holds stopping source index es e g k h =
    modify-IsIdle (retried_entry source) (λ x _. refl) index es h

known-Holds :
    (w : Worker) (source : Text) (index : ℕ) (o : Option Entry) (s : Append)
    → get_elem? s.queue index ≡ o
    → Holds w s.queue
    → Holds w (append_known source index o s).queue
known-Holds w source index none s g h = h
known-Holds w source index (some e) s g h = elim (Bool-cases (is_failed e.status)) [
  | inl k ↦ rw k (retried-Holds w source index s.queue e g k h)
  | inr k ↦ rw k h
]

append_at-Holds :
    (w : Worker) (path source : Text) (o : Option ℕ) (s : Append)
    → Holds w s.queue
    → Holds w (append_at path source o s).queue
append_at-Holds w path source none s h = append-Holds w s.queue _ h (refl, tt)
append_at-Holds w path source (some index) s h =
    known-Holds w source index (get_elem? s.queue index) s refl h

append_path-Holds :
    (w : Worker) (path source : Text) (s : Append)
    → Holds w s.queue
    → Holds w (append_path path source s).queue
unfolding append_path
append_path-Holds w path source s h =
    elim (Bool-cases (text_eq (normal_path path) (codes ".") || is_empty (normal_path path))) [
      | inl k ↦ rw k h
      | inr k ↦
          rw k (append_at-Holds w (normal_path path) source (s.existing (normal_path path)) s h)
    ]

pub append_loop-Holds :
    (w : Worker) (paths : List Text) (source : Text) (s : Append)
    → Holds w s.queue
    → Holds w (append_loop paths source s).queue
unfolding append_loop
append_loop-Holds w [] source s h = h
append_loop-Holds w (path ∷ paths) source s h =
    append_loop-Holds w paths source (append_path path source s)
      (append_path-Holds w path source s h)
