-- ===== src/Access/Renewal.antt =====
-- A session key over all of its uses: each renews it, and the first that comes too late ends it.
use hydrus_go.Base.{
  ℕ, ◌+◌, ◌≡◌, refl, true, false, none, some, List, [], ◌∷◌, ap, ap₂, ◌∙◌, inl, inr, Bool-cases,
  leb, if◌then◌else◌, arith, map,
}
use hydrus_go.Base.Strings.{Text, Casing}
use hydrus_go.Base.Results.{Result, ok, err}
use hydrus_go.Access.{
  Principal, AccessControl, expired_session, Refusal, SessionState, normalize_credential,
  new_session, authenticate_session_key, session_lifetime,
}
use hydrus_go.Access.Sessions.{
  new_session_stores, new_session_normal, session_key_reply, session_key_effect,
}

-- 24 hours in nanoseconds.
abbrev pub day : ℕ
day = 86_400_000_000_000

abbrev pub Reply : Type 0
Reply = Result Refusal Principal

abbrev too_late : Reply
too_late = err (record { status = 419; reason = expired_session })

-- What one use of a key after the other answers; a use has two readings of the clock.
unfoldable pub replies : Casing → Text → List (ℕ × ℕ) → AccessControl → List Reply
replies u key [] a = []
replies u key ((now, later) ∷ uses) a =
    (authenticate_session_key u now later key a).0
    ∷ replies u key uses (authenticate_session_key u now later key a).1

-- What the uses of a key that was renewed at a time should answer.
unfoldable pub expected : Principal → ℕ → List (ℕ × ℕ) → List Reply
expected who renewed [] = []
expected who renewed ((now, later) ∷ uses) =
    let alive = expected who later uses in
    if leb now (renewed + day) then ok who ∷ alive else too_late ∷ map (λ _. too_late) uses

module _ (u : Casing) (key : Text) (normal : normalize_credential u key ≡ ok key) where
  replies_unknown :
      (uses : List (ℕ × ℕ)) (a : AccessControl)
      → a.sessions key ≡ none
      → replies u key uses a ≡ map (λ _. too_late) uses
  unfolding replies authenticate_session_key
  replies_unknown [] a missing = refl
  replies_unknown ((now, later) ∷ uses) a missing =
      rw (normal, missing) (ap (λ l. too_late ∷ l) (replies_unknown uses a missing))

  renewal-principal :
      (now later : ℕ) (s : SessionState) (a : AccessControl)
      → a.sessions key ≡ some s
      → (authenticate_session_key u now later key a).1.principal ≡ a.principal
  unfolding authenticate_session_key
  renewal-principal now later s a stored = rw (normal, stored) (ground arith)

  replies_stored :
      (uses : List (ℕ × ℕ)) (renewed : ℕ) (s : SessionState) (a : AccessControl)
      → a.sessions key ≡ some s
      → s.expires_at ≡ renewed + day
      → replies u key uses a ≡ expected a.principal renewed uses
  unfolding replies expected
  replies_stored [] renewed s a stored at = refl
  replies_stored ((now, later) ∷ uses) renewed s a stored at =
      elim (Bool-cases (leb now (renewed + day))) [
        | inl early ↦
            let alive : leb now s.expires_at ≡ true = rw at early in
            rw early (
              ap₂ (λ (r : Reply) (l : List Reply). r ∷ l)
                (session_key_reply u now later key s a stored normal ∙ rw alive refl)
                (replies_stored uses later (record s { expires_at = later + session_lifetime })
                    (authenticate_session_key u now later key a).1
                    (session_key_effect u now later key s a stored normal ∙ rw alive refl) refl
                  ∙ ap (λ who. expected who later uses) (renewal-principal now later s a stored)))
        | inr late ↦
            let ended : leb now s.expires_at ≡ false = rw at late in
            rw late (
              ap₂ (λ (r : Reply) (l : List Reply). r ∷ l)
                (session_key_reply u now later key s a stored normal ∙ rw ended refl)
                (replies_unknown uses (authenticate_session_key u now later key a).1
                  (session_key_effect u now later key s a stored normal ∙ rw ended refl)))
      ]

-- After a successful NewSession that drew at least one byte, the uses of its key that follow one
-- another answer with the principal as long as each comes no more than 24 hours after NewSession or
-- the use before it; the first that comes later, and every one after it, is answered with 419.
pub new_session-replies :
    (u : Casing) (b : ℕ) (bs : List ℕ) (now later : ℕ) (uses : List (ℕ × ℕ)) (access_key key : Text)
    (a : AccessControl)
    → (new_session u (some (b ∷ bs)) now later access_key a).0 ≡ ok key
    → replies u key uses (new_session u (some (b ∷ bs)) now later access_key a).1
      ≡ expected a.principal later uses
new_session-replies u b bs now later uses access_key key a h =
    let (_, stored, same) = new_session_stores u (some (b ∷ bs)) now later access_key key a h in
    replies_stored u key (new_session_normal u b bs now later access_key key a h) uses later _
      (new_session u (some (b ∷ bs)) now later access_key a).1 stored refl
    ∙ ap (λ who. expected who later uses) same
