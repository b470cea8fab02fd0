-- ===== src/ImportQueue/System/Consistency.antt =====
-- Every step of the window keeps the flag `importQueueRunning`, the goroutine and the entries
-- consistent, so the result of an upload is written to the entry that was uploaded.
use hydrus_go.Base.{
  ℕ, zero, suc, true, some, List, [], ◌∷◌, ◌≡◌, refl, ap, ◌∙◌, subst, inl, inr, Bool-cases, length,
  get_elem?,
}
use hydrus_go.Base.Strings.{Text}
use hydrus_go.Base.Int.{eqb_ℤ}
use hydrus_go.ImportQueue.{uploading, Entry, normalize_selection}
use hydrus_go.ImportQueue.Processor.{retry_selected, select_entry, unselect_entry, render_queue}
use hydrus_go.ImportQueue.System.{
  busy, System, Event, append, start, press_retry, press_retry_failed, press_remove,
  press_clear_finished, press_clear, render, select, unselect, proceed, returns, step, run,
}
use hydrus_go.ImportQueue.System.Flight.{InFlight, Holds, is_running, IsConsistent}
use hydrus_go.ImportQueue.System.Buttons.{
  clear-IsConsistent, remove-IsConsistent, clear_finished-IsConsistent, retried_at-IsConsistent,
  append-IsConsistent, retry_failed-IsConsistent,
}
use hydrus_go.ImportQueue.System.Goroutine.{
  proceed-IsConsistent, return-IsConsistent, started-IsConsistent,
}

-- Every step keeps the flag, the goroutine and the entries consistent.
pub step-IsConsistent : (e : Event) (s : System) → IsConsistent s → IsConsistent (step e s)
unfolding step retry_selected render_queue select_entry unselect_entry
step-IsConsistent (append paths source) s c = append-IsConsistent s.worker s.queue c paths source
step-IsConsistent (start connected) s c = started-IsConsistent s.worker connected s.queue c
step-IsConsistent press_retry s c =
    retried_at-IsConsistent s.worker s.queue c
      (normalize_selection s.queue.selected (length s.queue.entries))
step-IsConsistent press_retry_failed s c = retry_failed-IsConsistent s.worker s.queue c
step-IsConsistent press_remove s c = remove-IsConsistent s.worker s.queue c
step-IsConsistent press_clear_finished s c = clear_finished-IsConsistent s.worker s.queue c
step-IsConsistent press_clear s c = clear-IsConsistent s.worker s.queue c
step-IsConsistent render s c = record { flag = c.flag; holds = c.holds }
step-IsConsistent (select id) s c = record { flag = c.flag; holds = c.holds }
step-IsConsistent (unselect id) s c = elim (Bool-cases (eqb_ℤ s.queue.selected id)) [
  | inl k ↦ rw k (record { flag = c.flag; holds = c.holds })
  | inr k ↦ rw k c
]
step-IsConsistent (proceed current) s c = proceed-IsConsistent s.worker current s.queue c
step-IsConsistent (returns current u) s c = return-IsConsistent s.worker current u s.queue c

-- Any sequence of window events keeps the flag, the state of the goroutine and the entries consistent.
pub run-IsConsistent :
    (events : List Event) (s : System) → IsConsistent s → IsConsistent (run events s)
unfolding run
run-IsConsistent [] s c = c
run-IsConsistent (e ∷ events) s c = run-IsConsistent events (step e s) (step-IsConsistent e s c)

flight-get :
    (i : ℕ) (p : Text) (es : List Entry)
    → InFlight i p es
    → (e : Entry) × (get_elem? es i ≡ some e) × (e.path ≡ p) × (e.status ≡ uploading)
flight-get i p [] h = absurd h
flight-get zero p (e ∷ es) (hp, hu, h) = (e, refl, hp, hu)
flight-get (suc i) p (e ∷ es) (he, h) = flight-get i p es h

-- While an upload is in flight, whatever was pressed since it began, the flag is set, and the index
-- that the goroutine holds is that of the entry with the uploaded path, marked as uploading.
pub run-InFlight :
    (events : List Event) (s : System) (index : ℕ) (path : Text)
    → IsConsistent s
    → (run events s).worker ≡ busy index path
    → ((run events s).queue.running ≡ true)
      × ((e : Entry) × (get_elem? (run events s).queue.entries index ≡ some e)
          × (e.path ≡ path)
          × (e.status ≡ uploading))
run-InFlight events s index path c w =
    let after = run-IsConsistent events s c in
    (
      after.flag ∙ ap is_running w,
      flight-get index path (run events s).queue.entries
          (subst (λ v. Holds v (run events s).queue.entries) w after.holds),
    )
