-- ===== src/Access/Events.antt =====
-- Runs of the access control: requests and session calls, in the order in which they take the lock,
-- and what a single call leaves as it was.
use hydrus_go.Base.{
  ℕ, ◌+◌, true, List, [], ◌∷◌, ◌≡◌, refl, sym, subst, inl, inr, Option, none, some, Bool-cases,
  arith,
}
use mathlib.Core.Option.{some-injective}
use hydrus_go.Base.Strings.{Text, Casing, text_eq, text_eq_sound, is_empty}
use hydrus_go.Base.Results.{Result, ok, err}
use hydrus_go.Base.Maps
use hydrus_go.Access.Sessions.{fresh_session}
use hydrus_go.Access.{
  Permission, AccessControl, AuthError, Request, SessionState, generate_credential, is_expired,
  session_lifetime, new_session, authorize, authenticate, authenticate_session_key,
  normalize_credential, renew_session, issue_session, match_session_key, prune_expired_sessions,
  first_non_empty,
}

-- `clock` is the reading that a call ends with; `now` is the earlier one of the same call.
pub data Event : Type 0 where
  issue : Option (List ℕ) → ℕ → Text → Event
  request : Request → List Permission → ℕ → Event

-- The call at a time, and the session keys that it hands out.
unfoldable pub step : Casing → ℕ → Event → AccessControl → AccessControl
step u clock (issue random now key) a = (new_session u random now clock key a).1
step u clock (request r required now) a = (authorize u now clock r required a).1

-- The call hands out `k` as a session key.
abbrev pub Hands : Casing → ℕ → Event → AccessControl → Text → Type 0
Hands u clock (issue random now key) a k = (new_session u random now clock key a).0 ≡ ok k
Hands u clock (request r required now) a k = ⊥

-- Each event stands beside the time at which it ends.
unfoldable pub run : Casing → List (ℕ × Event) → AccessControl → AccessControl
run u [] a = a
run u ((clock, e) ∷ events) a = run u events (step u clock e a)

-- Every stored session satisfies `Q`, with its key.
abbrev pub Everywhere : (Text → SessionState → Type 0) → AccessControl → Type 0
Everywhere Q a = (k : Text) (s : SessionState) → a.sessions k ≡ some s → Q k s

module _ (Q : Text → SessionState → Type 0) where
  prune-Everywhere :
      (now : ℕ) (a : AccessControl) → Everywhere Q a → Everywhere Q (prune_expired_sessions now a)
  unfolding prune_expired_sessions
  prune-Everywhere now a h k s e = h k s (kept (a.sessions k) refl e)
    where
      kept :
          (o : Option SessionState)
          → a.sessions k ≡ o
          → Maps.delete_if (is_expired now) a.sessions k ≡ some s
          → a.sessions k ≡ some s
      kept none e h = ground arith
      kept (some t) e h = ground arith

  insert-Everywhere :
      (a : AccessControl) (key : Text) (v : SessionState)
      → Q key v
      → Everywhere Q a
      → Everywhere Q (record a { sessions = Maps.insert key v a.sessions })
  insert-Everywhere a key v q h k s e = elim (Bool-cases (text_eq key k)) [
    | inl same ↦
        subst (λ j. Q j s) (text_eq_sound key k same)
          (subst (Q key) (some-injective v s (rw same at e)) q)
    | inr other ↦ h k s (rw other at e)
  ]

  delete-Everywhere :
      (a : AccessControl) (key : Text)
      → Everywhere Q a
      → Everywhere Q (record a { sessions = Maps.delete key a.sessions })
  delete-Everywhere a key h k s e = elim (Bool-cases (text_eq key k)) [
    | inl same ↦ cc (rw same at e)
    | inr other ↦ h k s (rw other at e)
  ]

  -- Using a key keeps `Q` if a renewal does.
  module _ (clock : ℕ)
      (renewal : (k : Text) (s : SessionState)
        → Q k s
        → Q k (record s { expires_at = clock + session_lifetime })) where
    renew-Everywhere :
        (now : ℕ) (key : Text) (o : Option SessionState) (a : AccessControl)
        → a.sessions key ≡ o
        → Everywhere Q a
        → Everywhere Q (renew_session now clock key o a).1
    renew-Everywhere now key none a e h = h
    renew-Everywhere now key (some s) a e h = elim (Bool-cases (is_expired now s)) [
      | inl late ↦ rw late (delete-Everywhere a key h)
      | inr live ↦ rw live (
          insert-Everywhere a key (record s { expires_at = clock + session_lifetime })
            (renewal key s (h key s e)) h)
    ]

    match-Everywhere :
        (n : Result AuthError Text) (now : ℕ) (a : AccessControl)
        → Everywhere Q a
        → Everywhere Q (match_session_key n now clock a).1
    match-Everywhere (err e) now a h = h
    match-Everywhere (ok key) now a h = renew-Everywhere now key (a.sessions key) a refl h

    authorize-Everywhere :
        (u : Casing) (now : ℕ) (r : Request) (required : List Permission) (a : AccessControl)
        → Everywhere Q a
        → Everywhere Q (authorize u now clock r required a).1
    unfolding authorize authenticate authenticate_session_key
    authorize-Everywhere u now r required a h =
        elim (Bool-cases (is_empty (first_non_empty (r.access_header ∷ r.access_query ∷ [])))) [
          | inr given ↦ rw given h
          | inl absent ↦
              elim (Bool-cases
                (is_empty (first_non_empty (r.session_header ∷ r.session_query ∷ [])))) [
                  | inl neither ↦ rw (absent, neither) h
                  | inr given ↦
                      rw (absent, given)
                        (match-Everywhere
                          (normalize_credential u
                            (first_non_empty (r.session_header ∷ r.session_query ∷ [])))
                          now a h)
                ]
        ]

    issue-Everywhere :
        (n g : Result AuthError Text) (now : ℕ) (a : AccessControl)
        → ((k : Text) → (issue_session n g now clock a).0 ≡ ok k → Q k (fresh_session clock a))
        → Everywhere Q a
        → Everywhere Q (issue_session n g now clock a).1
    issue-Everywhere (err e) g now a q h = h
    issue-Everywhere (ok n) g now a q h = elim (Bool-cases (text_eq n a.principal.access_key)) [
      | inr other ↦ rw other h
      | inl same ↦ matched g same q
    ]
      where
        matched :
            (g : Result AuthError Text)
            → text_eq n a.principal.access_key ≡ true
            → ((k : Text)
                → (issue_session (ok n) g now clock a).0 ≡ ok k
                → Q k (fresh_session clock a))
            → Everywhere Q (issue_session (ok n) g now clock a).1
        matched (err e) same q = rw same h
        matched (ok key) same q = rw same (
            insert-Everywhere (prune_expired_sessions now a) key
              (record { access_key = n; expires_at = clock + session_lifetime })
              (subst (λ t. Q key (record { access_key = t; expires_at = clock + session_lifetime }))
                (sym (text_eq_sound n a.principal.access_key same)) (q key (rw same)))
              (prune-Everywhere now a h))

    pub step-Everywhere :
        (u : Casing) (e : Event) (a : AccessControl)
        → ((k : Text) → Hands u clock e a k → Q k (fresh_session clock a))
        → Everywhere Q a
        → Everywhere Q (step u clock e a)
    unfolding step new_session
    step-Everywhere u (issue random now key) a q h =
        issue-Everywhere (normalize_credential u key) (generate_credential random) now a q h
    step-Everywhere u (request r required now) a q h = authorize-Everywhere u now r required a h

issue-principal :
    (n g : Result AuthError Text) (now later : ℕ) (a : AccessControl)
    → (issue_session n g now later a).1.principal ≡ a.principal
unfolding prune_expired_sessions
issue-principal (err e) g now later a = refl
issue-principal (ok n) (err d) now later a = elim (Bool-cases (text_eq n a.principal.access_key)) [
  | inr other ↦ rw other
  | inl same ↦ rw same
]
issue-principal (ok n) (ok k) now later a = elim (Bool-cases (text_eq n a.principal.access_key)) [
  | inr other ↦ rw other
  | inl same ↦ rw same
]

match-principal :
    (n : Result AuthError Text) (now later : ℕ) (a : AccessControl)
    → (match_session_key n now later a).1.principal ≡ a.principal
match-principal (err e) now later a = refl
match-principal (ok key) now later a = renew (a.sessions key)
  where
    renew : (o : Option SessionState) → (renew_session now later key o a).1.principal ≡ a.principal
    renew none = refl
    renew (some s) = elim (Bool-cases (is_expired now s)) [
      | inl late ↦ rw late
      | inr live ↦ rw live
    ]

authorize-principal :
    (u : Casing) (now later : ℕ) (r : Request) (required : List Permission) (a : AccessControl)
    → (authorize u now later r required a).1.principal ≡ a.principal
unfolding authorize authenticate authenticate_session_key
authorize-principal u now later r required a =
    elim (Bool-cases (is_empty (first_non_empty (r.access_header ∷ r.access_query ∷ [])))) [
      | inr given ↦ rw given
      | inl absent ↦
          elim (Bool-cases (is_empty (first_non_empty (r.session_header ∷ r.session_query ∷ [])))) [
            | inl neither ↦ rw (absent, neither)
            | inr given ↦
                rw (absent, given)
                  (match-principal
                    (normalize_credential u
                      (first_non_empty (r.session_header ∷ r.session_query ∷ [])))
                    now later a)
          ]
    ]

pub step-principal :
    (u : Casing) (clock : ℕ) (e : Event) (a : AccessControl)
    → (step u clock e a).principal ≡ a.principal
unfolding step new_session
step-principal u clock (issue random now key) a =
    issue-principal (normalize_credential u key) (generate_credential random) now clock a
step-principal u clock (request r required now) a = authorize-principal u now clock r required a
