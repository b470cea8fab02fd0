-- ===== src/Access/Traces.antt =====
-- What holds of the sessions and the principal after every run of the access control.
use hydrus_go.Base.{
  ℕ, ◌+◌, ◌≤◌, List, [], ◌∷◌, ◌≡◌, refl, ap, sym, ◌∙◌, subst, ◌⊎◌, inl, inr, some, arith,
}
use hydrus_go.Base.Strings.{Text, Casing}
use hydrus_go.Access.{Principal, AccessControl, SessionState, session_lifetime}
use hydrus_go.Access.Events.{Event, step, Hands, run, Everywhere, step-Everywhere, step-principal}

-- No call ends later than `limit`.
abbrev pub Before : ℕ → List (ℕ × Event) → Type 0
Before limit [] = Unit
Before limit ((clock, e) ∷ events) = (clock ≤ limit) × Before limit events

-- No run changes who the daemon answers to: name, access key and permissions stay.
pub run-principal :
    (u : Casing) (events : List (ℕ × Event)) (a : AccessControl)
    → (run u events a).principal ≡ a.principal
unfolding run
run-principal u [] a = refl
run-principal u ((clock, e) ∷ events) a =
    run-principal u events (step u clock e a) ∙ step-principal u clock e a

-- Every session belongs to the access key and ends within one lifetime of `limit`.
abbrev pub IsSound : ℕ → Text → AccessControl → Type 0
IsSound limit owner a =
    (k : Text) (s : SessionState)
    → a.sessions k ≡ some s
    → (s.access_key ≡ owner) × (s.expires_at ≤ limit + session_lifetime)

-- If no call ends after `limit`, then from a sound state every run is sound: each stored session
-- belongs to the access key, and none outlives `limit` by more than one lifetime.
pub run-IsSound :
    (u : Casing) (limit : ℕ) (events : List (ℕ × Event)) (a : AccessControl)
    → Before limit events
    → IsSound limit a.principal.access_key a
    → IsSound limit a.principal.access_key (run u events a)
unfolding run
run-IsSound u limit [] a b h = h
run-IsSound u limit ((clock, e) ∷ events) a (soon, b) h =
    let same = ap (λ (p : Principal). p.access_key) (step-principal u clock e a) in
    let stepped : IsSound limit a.principal.access_key (step u clock e a) =
      step-Everywhere
        (λ k s. (s.access_key ≡ a.principal.access_key) × (s.expires_at ≤ limit + session_lifetime))
        clock (λ k s q. (q.0, omega arith)) u e a (λ k q. (refl, omega arith)) h in
    subst (λ t. IsSound limit t (run u events (step u clock e a))) same
      (run-IsSound u limit events (step u clock e a) b
        (subst (λ t. IsSound limit t (step u clock e a)) (sym same) stepped))

-- Some call of the run hands out `k`.
abbrev pub Issued : Casing → List (ℕ × Event) → AccessControl → Text → Type 0
Issued u [] a k = ⊥
Issued u ((clock, e) ∷ events) a k = Hands u clock e a k ⊎ Issued u events (step u clock e a) k

-- A key that is stored after a run was stored before it, or a call of the run handed it out: no
-- other text ever becomes a session key.
pub run-Issued :
    (u : Casing) (events : List (ℕ × Event)) (a : AccessControl) (k : Text) (s : SessionState)
    → (run u events a).sessions k ≡ some s
    → ((t : SessionState) × (a.sessions k ≡ some t)) ⊎ Issued u events a k
unfolding run
run-Issued u [] a k s h = inl (s, h)
run-Issued u ((clock, e) ∷ events) a k s h = elim (run-Issued u events (step u clock e a) k s h) [
  | inr later ↦ inr (inr later)
  | inl (t, held) ↦ before (origin k t held)
]
  where
    origin :
        Everywhere
          (λ j _. ((t : SessionState) × (a.sessions j ≡ some t)) ⊎ Hands u clock e a j)
          (step u clock e a)
    origin =
        step-Everywhere
          (λ j _. ((t : SessionState) × (a.sessions j ≡ some t)) ⊎ Hands u clock e a j) clock
          (λ j v q. q) u e a (λ j q. inr q) (λ j v q. inl (v, q))

    before :
        ((t : SessionState) × (a.sessions k ≡ some t)) ⊎ Hands u clock e a k
        → ((t : SessionState) × (a.sessions k ≡ some t))
          ⊎ (Hands u clock e a k ⊎ Issued u events (step u clock e a) k)
    before (inl old) = inl old
    before (inr new) = inr (inl new)
