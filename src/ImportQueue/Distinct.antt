-- ===== src/ImportQueue/Distinct.antt =====
-- `appendImportQueueEntries` never queues a path twice.
use hydrus_go.Base.{
  ℕ, zero, suc, true, false, Option, none, some, List, [], ◌∷◌, ◌++◌, ◌||◌, ◌≡◌, ◌≢◌, refl, sym,
  ◌∙◌, subst, inl, inr, Bool-cases, if_elim, All, All-append, length, get_elem?,
}
use hydrus_go.Base.Strings.{Text, codes, text_eq, text_eq_refl, is_empty}
use hydrus_go.Base.Maps
use hydrus_go.Base.Maps.{Map}
use hydrus_go.ImportQueue.{Entry, is_failed}
use hydrus_go.ImportQueue.Processor.{
  Queue, Append, modify, index_paths, append_known, append_at, append_path, append_loop,
  append_entries, retried_entry, fresh_entry, normal_path, start_append,
}

-- No entry has the path.
abbrev pub Absent : Text → List Entry → Type 0
Absent p = All (λ (e : Entry). e.path ≢ p)

abbrev pub Distinct : List Entry → Type 0
Distinct [] = Unit
Distinct (e ∷ es) = Absent e.path es × Distinct es

-- The map knows every path of the queue.
abbrev Knows : Map ℕ → List Entry → Type 0
Knows existing es = (p : Text) → existing p ≡ none → Absent p es

inserted-none :
    (k p : Text) (i : ℕ) (m : Map ℕ) → Maps.insert k i m p ≡ none → (k ≢ p) × (m p ≡ none)
inserted-none k p i m h = elim (Bool-cases (text_eq k p)) [
  | inl e ↦ cc (rw e at h)
  | inr e ↦ (apart e, rw e at h)
]
  where
    apart : text_eq k p ≡ false → k ≢ p
    apart e same = cc (e, subst (λ t. text_eq k t ≡ true) same (text_eq_refl k))

index_paths-none :
    (i : ℕ) (es : List Entry) (m : Map ℕ) (p : Text)
    → index_paths i es m p ≡ none
    → (m p ≡ none) × Absent p es
unfolding index_paths
index_paths-none i [] m p h = (h, tt)
index_paths-none i (e ∷ es) m p h =
    let (before, rest) = index_paths-none (suc i) es (Maps.insert e.path i m) p h in
    let (apart, earlier) = inserted-none e.path p i m before in (earlier, (apart, rest))

modify-Absent :
    (f : Entry → Entry)
    → ((e : Entry) → (f e).path ≡ e.path)
    → (i : ℕ) (p : Text) (es : List Entry) → Absent p es
    → Absent p (modify f i es)
unfolding modify
modify-Absent f k i p [] h = tt
modify-Absent f k zero p (e ∷ es) (he, h) = ((λ same. he (sym (k e) ∙ same)), h)
modify-Absent f k (suc i) p (e ∷ es) (he, h) = (he, modify-Absent f k i p es h)

modify-Distinct :
    (f : Entry → Entry)
    → ((e : Entry) → (f e).path ≡ e.path)
    → (i : ℕ) (es : List Entry) → Distinct es
    → Distinct (modify f i es)
unfolding modify
modify-Distinct f k i [] h = tt
modify-Distinct f k zero (e ∷ es) (ha, h) = (subst (λ t. Absent t es) (sym (k e)) ha, h)
modify-Distinct f k (suc i) (e ∷ es) (ha, h) =
    (modify-Absent f k i e.path es ha, modify-Distinct f k i es h)

append-Distinct :
    (es : List Entry) (e : Entry) → Distinct es → Absent e.path es → Distinct (es ++ e ∷ [])
append-Distinct [] e h k = (tt, tt)
append-Distinct (d ∷ es) e (hd, h) (kd, k) = (
  All-append (λ (x : Entry). x.path ≢ d.path) es (e ∷ []) hd ((λ same. kd (sym same)), tt),
  append-Distinct es e h k,
)

record IsDistinct (s : Append) : Type 0 where
  distinct : Distinct s.queue
  knows : Knows s.existing s.queue

known-IsDistinct :
    (source : Text) (i : ℕ) (o : Option Entry) (s : Append)
    → IsDistinct s
    → IsDistinct (append_known source i o s)
known-IsDistinct source i none s h = record { distinct = h.distinct; knows = h.knows }
known-IsDistinct source i (some e) s h =
    if_elim IsDistinct (is_failed e.status) _ _
      (λ _. record {
        distinct = modify-Distinct (retried_entry source) (λ x. refl) i s.queue h.distinct;
        knows = λ p k. modify-Absent (retried_entry source) (λ x. refl) i p s.queue (h.knows p k);
      })
      (λ _. record { distinct = h.distinct; knows = h.knows })

append_at-IsDistinct :
    (path source : Text) (o : Option ℕ) (s : Append)
    → s.existing path ≡ o
    → IsDistinct s
    → IsDistinct (append_at path source o s)
append_at-IsDistinct path source (some i) s e h =
    known-IsDistinct source i (get_elem? s.queue i) s h
append_at-IsDistinct path source none s e h = record {
  distinct = append-Distinct s.queue (fresh_entry path source) h.distinct (h.knows path e);
  knows = λ p k.
      let (apart, earlier) = inserted-none path p (length s.queue) s.existing k in
      All-append (λ (x : Entry). x.path ≢ p) s.queue (fresh_entry path source ∷ [])
        (h.knows p earlier) (apart, tt);
}

append_loop-IsDistinct :
    (paths : List Text) (source : Text) (s : Append)
    → IsDistinct s
    → IsDistinct (append_loop paths source s)
unfolding append_loop append_path
append_loop-IsDistinct [] source s h = h
append_loop-IsDistinct (path ∷ paths) source s h =
    append_loop-IsDistinct paths source (append_path path source s) (
      if_elim IsDistinct (text_eq (normal_path path) (codes ".") || is_empty (normal_path path)) _ _
        (λ _. h)
        (λ _.
          append_at-IsDistinct (normal_path path) source (s.existing (normal_path path)) s refl h))

-- A queue whose paths are distinct has distinct paths after any selection was appended to it.
pub append_entries-Distinct :
    (paths : List Text) (source : Text) (q : Queue)
    → Distinct q.entries
    → Distinct (append_entries paths source q).0.entries
unfolding append_entries
append_entries-Distinct paths source q h =
    (append_loop-IsDistinct paths source (start_append q.entries) (record {
      distinct = h;
      knows = λ p k. (index_paths-none 0 q.entries Maps.empty p k).1;
    })).distinct
