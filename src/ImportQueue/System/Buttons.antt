-- ===== src/ImportQueue/System/Buttons.antt =====
-- The buttons of the queue keep the flag, the goroutine and the entries consistent.
use hydrus_go.Base.{
  ℕ, zero, suc, false, Option, none, some, List, [], ◌∷◌, ◌||◌, ◌==◌, ◌≡◌, refl, ap, ◌∙◌, inl, inr,
  Bool-cases, if_elim, All, All-append, All-take, length, get_elem?, take, drop, arith,
}
use hydrus_go.Base.Strings.{Text, codes}
use hydrus_go.Base.Int.{ℤ, pos, negsuc}
use hydrus_go.ImportQueue.{
  Entry, retry_failed, clear_finished, remove, remove_at, can_remove, is_finished,
  normalize_selection,
}
use hydrus_go.ImportQueue.Processor.{
  Queue, append_entries, start_append, clear_queue, drop_entries, retry_at, retry_failed_entries,
  remove_selected, remove_selected_at, clear_finished_entries,
}
use hydrus_go.ImportQueue.System.{Worker, off, ready, stopping, busy}
use hydrus_go.ImportQueue.System.Flight.{
  IsIdle, InFlight, Holds, IsConsistent, modify-Holds, retry-Harmless, append_loop-Holds,
}

-- Retrying all failed entries.
retry_failed-IsIdle :
    (es : List Entry) (detail : Text) → All IsIdle es → All IsIdle (retry_failed es detail).0
unfolding retry_failed
retry_failed-IsIdle [] detail h = tt
retry_failed-IsIdle (e ∷ es) detail (he, h) =
    ((retry-Harmless detail).idle e he, retry_failed-IsIdle es detail h)

retry_failed-flight :
    (i : ℕ) (p : Text) (es : List Entry) (detail : Text)
    → InFlight i p es
    → InFlight i p (retry_failed es detail).0
unfolding retry_failed
retry_failed-flight i p [] detail h = absurd h
retry_failed-flight zero p (e ∷ es) detail (hp, hu, h) =
    let same = (retry-Harmless detail).same e hu in
    (
      ap (λ (x : Entry). x.path) same ∙ hp,
      ap (λ (x : Entry). x.status) same ∙ hu,
      retry_failed-IsIdle es detail h,
    )
retry_failed-flight (suc i) p (e ∷ es) detail (he, h) =
    ((retry-Harmless detail).idle e he, retry_failed-flight i p es detail h)

retry_failed-Holds :
    (w : Worker) (es : List Entry) (detail : Text) → Holds w es → Holds w (retry_failed es detail).0
retry_failed-Holds (busy i p) es detail h = retry_failed-flight i p es detail h
retry_failed-Holds off es detail h = retry_failed-IsIdle es detail h
retry_failed-Holds ready es detail h = retry_failed-IsIdle es detail h
retry_failed-Holds stopping es detail h = retry_failed-IsIdle es detail h

-- What removes entries runs only while no upload is in flight.
All-drop : (n : ℕ) (es : List Entry) → All IsIdle es → All IsIdle (drop n es)
All-drop zero es h = h
All-drop (suc n) [] h = tt
All-drop (suc n) (e ∷ es) (he, h) = All-drop n es h

remove-IsIdle : (es : List Entry) (index : ℤ) → All IsIdle es → All IsIdle (remove es index).0
unfolding remove
remove-IsIdle es (negsuc n) h = h
remove-IsIdle es (pos index) h = at (get_elem? es index)
  where
    at : (o : Option Entry) → All IsIdle (remove_at es index o).0
    at none = h
    at (some e) = elim (Bool-cases (can_remove e)) [
      | inl k ↦ rw k (
          All-append IsIdle (take index es) (drop (suc index) es) (All-take IsIdle index es h)
            (All-drop (suc index) es h))
      | inr k ↦ rw k h
    ]

clear_finished-IsIdle : (es : List Entry) → All IsIdle es → All IsIdle (clear_finished es).0
unfolding clear_finished
clear_finished-IsIdle [] h = tt
clear_finished-IsIdle (e ∷ es) (he, h) = elim (Bool-cases (is_finished e)) [
  | inl k ↦ rw k (clear_finished-IsIdle es h)
  | inr k ↦ rw k (he, clear_finished-IsIdle es h)
]

-- The steps that remove entries do nothing while the goroutine runs.
module _ (w : Worker) (q : Queue) (c : IsConsistent (record { queue = q; worker = w })) where
  when_stopped :
      (q' : Queue)
      → q'.running ≡ q.running
      → (All IsIdle q.entries → All IsIdle q'.entries)
      → q.running ≡ false
      → IsConsistent (record { queue = q'; worker = w })
  when_stopped q' same keep still = at w c
    where
      at :
          (w : Worker)
          → IsConsistent (record { queue = q; worker = w })
          → IsConsistent (record { queue = q'; worker = w })
      at off c = record { flag = same ∙ c.flag; holds = keep c.holds }
      at ready c = cc (c.flag, still)
      at stopping c = cc (c.flag, still)
      at (busy i p) c = cc (c.flag, still)

  dropped-IsConsistent :
      (es : List Entry)
      → q.running ≡ false
      → IsConsistent (record { queue = drop_entries es q; worker = w })
  dropped-IsConsistent [] k = c
  dropped-IsConsistent (e ∷ es) k = when_stopped _ refl (λ h. tt) k

  pub clear-IsConsistent : IsConsistent (record { queue = clear_queue q; worker = w })
  unfolding clear_queue
  clear-IsConsistent =
      if_elim (λ (r : Queue). IsConsistent (record { queue = r; worker = w })) q.running _ _
        (λ k. c) (dropped-IsConsistent q.entries)

  removed-IsConsistent :
      (selected : ℤ)
      → q.running ≡ false
      → IsConsistent (record { queue = remove_selected_at selected q; worker = w })
  removed-IsConsistent selected k = elim (Bool-cases (remove q.entries selected).1) [
    | inl done ↦ rw done (when_stopped _ refl (remove-IsIdle q.entries selected) k)
    | inr left ↦ rw left c
  ]

  pub remove-IsConsistent : IsConsistent (record { queue = remove_selected q; worker = w })
  unfolding remove_selected
  remove-IsConsistent =
      if_elim (λ (r : Queue). IsConsistent (record { queue = r; worker = w })) q.running _ _
        (λ k. c) (removed-IsConsistent (normalize_selection q.selected (length q.entries)))

  pub clear_finished-IsConsistent :
      IsConsistent (record { queue = clear_finished_entries q; worker = w })
  unfolding clear_finished_entries
  clear_finished-IsConsistent =
      elim (Bool-cases (q.running || ((clear_finished q.entries).1 == 0))) [
        | inl k ↦ rw k c
        | inr k ↦ rw k (when_stopped _ refl (clear_finished-IsIdle q.entries) (ground arith))
      ]

  pub retried_at-IsConsistent :
      (selected : ℤ) → IsConsistent (record { queue = retry_at selected q; worker = w })
  retried_at-IsConsistent (negsuc n) = c
  retried_at-IsConsistent (pos index) = record {
    flag = c.flag;
    holds =
        modify-Holds _ (retry-Harmless (codes "Retrying selected queue item.")) w index q.entries
          c.holds;
  }

  pub append-IsConsistent :
      (paths : List Text) (source : Text)
      → IsConsistent (record { queue = (append_entries paths source q).0; worker = w })
  unfolding append_entries
  append-IsConsistent paths source = record {
    flag = c.flag;
    holds = append_loop-Holds w paths source (start_append q.entries) c.holds;
  }

  pub retry_failed-IsConsistent :
      IsConsistent (record { queue = retry_failed_entries q; worker = w })
  unfolding retry_failed_entries
  retry_failed-IsConsistent = record {
    flag = c.flag;
    holds = retry_failed-Holds w q.entries (codes "Retrying after queue review.") c.holds;
  }
