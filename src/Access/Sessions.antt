-- ===== src/Access/Sessions.antt =====
-- The life of a session key: issued, renewed by use, refused and forgotten once it has expired.
use hydrus_go.Base.{
  ℕ, ◌+◌, List, ◌∷◌, ◌≡◌, ◌≢◌, refl, ap, sym, ◌∙◌, subst, inl, inr, Option, none, some, Bool-cases,
  arith, leb, if◌then◌else◌,
}
use hydrus_go.Base.Strings.{Text, Casing, text_eq, text_eq_refl, text_eq_sound}
use hydrus_go.Base.Results.{Result, ok, err}
use hydrus_go.Base.Maps.{insert_self}
use hydrus_go.Access.{
  AccessControl, AuthError, SessionState, hex_encode, generate_credential, expired,
  session_lifetime, new_session, authenticate_session_key, normalize_credential, issue_session,
  store_session, prune_expired_sessions,
}
use hydrus_go.Access.Keys.{normalize-hex_encode}

-- What a session is stored with when its key is issued or used at `later`.
abbrev pub fresh_session : ℕ → AccessControl → SessionState
fresh_session later a = record {
  access_key = a.principal.access_key;
  expires_at = later + session_lifetime;
}

ok-injective : {a b : Text} → ◌≡◌ {A = Result AuthError Text} (ok a) (ok b) → a ≡ b
ok-injective p = cc

issue_session_stores :
    (n g : Result AuthError Text) (now later : ℕ) (key : Text) (a : AccessControl)
    → (issue_session n g now later a).0 ≡ ok key
    → (n ≡ ok a.principal.access_key)
      × ((issue_session n g now later a).1.sessions key ≡ some (fresh_session later a))
      × ((issue_session n g now later a).1.principal ≡ a.principal)
unfolding prune_expired_sessions
issue_session_stores (err e) g now later key a h = cc
issue_session_stores (ok n) (err e) now later key a h = ground arith
issue_session_stores (ok n) (ok k) now later key a h =
    elim (Bool-cases (text_eq n a.principal.access_key)) [
      | inl e ↦
          let same : n ≡ a.principal.access_key = text_eq_sound n a.principal.access_key e in
          let returned : k ≡ key = ok-injective (rw e at h) in
          rw e (
            ap ok same,
            subst (λ j. (store_session now later n k a).sessions j ≡ some (fresh_session later a))
                returned
                (insert_self k _ (prune_expired_sessions now a).sessions
                  ∙ ap
                      (λ t. some (record { access_key = t; expires_at = later + session_lifetime }))
                      same),
            refl,
          )
      | inr e ↦ cc (rw e at h)
    ]

-- A successful `NewSession` was given the access key, leaves the principal alone, and stores the
-- new key for one lifetime.
pub new_session_stores :
    (u : Casing) (random : Option (List ℕ)) (now later : ℕ) (access_key key : Text)
    (a : AccessControl)
    → (new_session u random now later access_key a).0 ≡ ok key
    → (normalize_credential u access_key ≡ ok a.principal.access_key)
      × ((new_session u random now later access_key a).1.sessions key
          ≡ some (fresh_session later a))
      × ((new_session u random now later access_key a).1.principal ≡ a.principal)
unfolding new_session
new_session_stores u random now later access_key key a =
    issue_session_stores (normalize_credential u access_key) (generate_credential random) now later
      key a

-- A failed `NewSession` changes nothing.
pub new_session_fails :
    (u : Casing) (random : Option (List ℕ)) (now later : ℕ) (access_key : Text) (e : AuthError)
    (a : AccessControl)
    → (new_session u random now later access_key a).0 ≡ err e
    → (new_session u random now later access_key a).1 ≡ a
unfolding new_session
new_session_fails u random now later access_key e a h =
    fails (normalize_credential u access_key) (generate_credential random) h
  where
    fails :
        (n g : Result AuthError Text)
        → (issue_session n g now later a).0 ≡ err e
        → (issue_session n g now later a).1 ≡ a
    fails (err d) g h = refl
    fails (ok n) (err d) h = ground arith
    fails (ok n) (ok k) h = ground arith

-- A stored key that is its own normal form works exactly until it expires: up to then a use
-- authenticates as the principal and stores a new expiry, afterwards the answer is 419 and the key
-- is forgotten. Other keys and the principal stay as they were.
module _ (u : Casing) (now later : ℕ) (key : Text) (s : SessionState) (a : AccessControl)
    (stored : a.sessions key ≡ some s) (normal : normalize_credential u key ≡ ok key) where
  pub session_key_reply :
      (authenticate_session_key u now later key a).0
      ≡ (if leb now s.expires_at then ok a.principal else expired)
  unfolding authenticate_session_key
  session_key_reply = rw (normal, stored) (ground arith)

  -- A session key that has not expired gets a new expiry, one lifetime from the later clock reading; one
  -- that has expired is deleted.
  pub session_key_effect : (authenticate_session_key u now later key a).1.sessions key ≡ (
      if leb now s.expires_at
      then some (record s { expires_at = later + session_lifetime })
      else none)
  unfolding authenticate_session_key
  session_key_effect = rw (normal, stored) (ground (arith, text_eq_refl key))

  pub session_key_frame :
      (other : Text)
      → key ≢ other
      → (authenticate_session_key u now later key a).1.sessions other ≡ a.sessions other
  unfolding authenticate_session_key
  session_key_frame other h = rw (normal, stored) (ground (arith, text_eq_sound key other))

issue_session_key :
    (n : Result AuthError Text) (now later : ℕ) (drawn key : Text) (a : AccessControl)
    → (issue_session n (ok drawn) now later a).0 ≡ ok key
    → key ≡ drawn
issue_session_key (err e) now later drawn key a h = cc
issue_session_key (ok n) now later drawn key a h =
    elim (Bool-cases (text_eq n a.principal.access_key)) [
      | inl e ↦ ok-injective (sym (rw e at h))
      | inr e ↦ cc (rw e at h)
    ]

-- The keys that `NewSession` hands out are their own normal form.
pub new_session_normal :
    (u : Casing) (b : ℕ) (bs : List ℕ) (now later : ℕ) (access_key key : Text) (a : AccessControl)
    → (new_session u (some (b ∷ bs)) now later access_key a).0 ≡ ok key
    → normalize_credential u key ≡ ok key
unfolding new_session generate_credential
new_session_normal u b bs now later access_key key a h =
    subst (λ k. normalize_credential u k ≡ ok k)
      (sym (
        issue_session_key (normalize_credential u access_key) now later (hex_encode (b ∷ bs)) key a
          h))
      (normalize-hex_encode u b bs)
