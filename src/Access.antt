-- ===== src/Access.antt =====
-- internal/api/httpapi/access.go: the bootstrap access key, the session keys that are handed out
-- for it, and the permission check in front of every protected handler.
pub mod Keys
pub mod Permissions
pub mod Sessions
pub mod Renewal
pub mod Events
pub mod Traces
mod Examples
use hydrus_go.Base.{
  ℕ, ◌+◌, ◌*◌, ◌/◌, ◌%◌, Bool, true, false, Option, none, some, List, [], ◌∷◌, ltb, ◌==◌,
  if◌then◌else◌,
}
use hydrus_go.Base.Strings.{Text, codes, text_eq, trim_space, is_empty, Casing, to_lower}
use hydrus_go.Base.Results.{Result, ok, err, ◌>>=◌}
use hydrus_go.Base.Maps
use hydrus_go.Base.Maps.{Map}

-- `Permission`: the identifiers are small numbers.
abbrev pub Permission : Type 0
Permission = ℕ

pub record Principal : Type 0 where
  pub name : Text
  pub access_key : Text
  pub permits_everything : Bool
  pub basic_permissions : List Permission

-- `sessionState`; times are in nanoseconds.
pub record SessionState : Type 0 where
  pub access_key : Text
  pub expires_at : ℕ

pub record AccessControl : Type 0 where
  pub principal : Principal
  pub sessions : Map SessionState
  pub generated_access_key : Bool

pub data AuthError : Type 0 where
  missing_key invalid_access_key expired_session insufficient_permissions : AuthError
  empty_credential random_failed : AuthError

-- An error with its HTTP status.
pub record Refusal : Type 0 where
  pub status : ℕ
  pub reason : AuthError

-- The four places where a request can carry a credential.
pub record Request : Type 0 where
  pub access_header : Text
  pub access_query : Text
  pub session_header : Text
  pub session_query : Text

abbrev pub status_unauthorized : ℕ
status_unauthorized = 401

abbrev pub status_forbidden : ℕ
status_forbidden = 403

abbrev pub expired_session_status_code : ℕ
expired_session_status_code = 419

-- 24 hours.
abbrev pub session_lifetime : ℕ
session_lifetime = 24 * 3600 * 1_000_000_000

-- `hex.EncodeToString`.
hex_digit : ℕ → ℕ
hex_digit d = if ltb d 10 then b'0' + d else 87 + d

pub hex_encode : List ℕ → Text
unfolding hex_digit
hex_encode [] = []
hex_encode (b ∷ bs) = hex_digit (b / 16 % 16) ∷ hex_digit (b % 16) ∷ hex_encode bs

-- `generateCredential`; the argument is what `rand.Read` put into the buffer, or its failure.
pub generate_credential : Option (List ℕ) → Result AuthError Text
generate_credential none = err random_failed
generate_credential (some buffer) = ok (hex_encode buffer)

pub normalize_credential : Casing → Text → Result AuthError Text
normalize_credential u raw =
    let normalized = to_lower u (trim_space raw) in
    if is_empty normalized then err empty_credential else ok normalized

pub first_non_empty : List Text → Text
first_non_empty [] = []
first_non_empty (value ∷ values) =
    if is_empty (trim_space value) then first_non_empty values else value

pub grants : List Permission → Permission → Bool
grants [] requirement = false
grants (permission ∷ granted) requirement =
    if permission == requirement then true else grants granted requirement

pub has_any_permission : List Permission → List Permission → Bool
unfolding grants
has_any_permission granted [] = false
has_any_permission granted (requirement ∷ required) =
    if grants granted requirement then true else has_any_permission granted required

-- The generated key comes with `true`.
abbrev pub normalize_or_generate_access_key :
    Casing → Option (List ℕ) → Text → Result AuthError (Text × Bool)
normalize_or_generate_access_key u random access_key =
    if is_empty (trim_space access_key)
    then (do generated ← generate_credential random; ok (generated, true))
    else do normalized ← normalize_credential u access_key; ok (normalized, false)

abbrev with_key : Text → List Permission → Text × Bool → AccessControl
with_key name permissions (key, generated) = record {
  principal = record {
    name = name;
    access_key = key;
    permits_everything = false;
    basic_permissions = permissions;
  };
  sessions = Maps.empty;
  generated_access_key = generated;
}

pub new_access_control :
    Casing → Option (List ℕ) → Text → Text → List Permission → Result AuthError AccessControl
new_access_control u random access_key name permissions =
    let stored_name = if is_empty (trim_space name) then codes "hydrus-go" else name in
    do
      key ← normalize_or_generate_access_key u random access_key
      ok (with_key stored_name permissions key)

-- `time.Now().After(t)`
abbrev pub is_expired : ℕ → SessionState → Bool
is_expired now s = ltb s.expires_at now

pub prune_expired_sessions : ℕ → AccessControl → AccessControl
prune_expired_sessions now a = record a { sessions = Maps.delete_if (is_expired now) a.sessions }

-- `NewSession`; `now` and `later` are its two readings of the clock.
abbrev store_session : ℕ → ℕ → Text → Text → AccessControl → AccessControl
store_session now later normalized key a =
    let pruned = prune_expired_sessions now a in
    record pruned {
      sessions =
          Maps.insert key
            (record { access_key = normalized; expires_at = later + session_lifetime })
            pruned.sessions;
    }

-- The key is compared before a new one is drawn; neither failure touches the sessions.
abbrev pub issue_session :
    Result AuthError Text
    → Result AuthError Text
    → ℕ
    → ℕ
    → AccessControl
    → Result AuthError Text × AccessControl
issue_session (err e) drawn now later a = (err e, a)
issue_session (ok normalized) drawn now later a =
    if text_eq normalized a.principal.access_key
    then elim drawn [
      | err e ↦ (err e, a)
      | ok key ↦ (ok key, store_session now later normalized key a)
    ]
    else (err invalid_access_key, a)

pub new_session :
    Casing → Option (List ℕ) → ℕ → ℕ → Text → AccessControl → Result AuthError Text × AccessControl
new_session u random now later access_key a =
    issue_session (normalize_credential u access_key) (generate_credential random) now later a

abbrev forbidden : {A : Type 0} → AuthError → Result Refusal A
forbidden e = err (record { status = status_forbidden; reason = e })

abbrev expired : {A : Type 0} → Result Refusal A
expired = err (record { status = expired_session_status_code; reason = expired_session })

abbrev pub match_access_key : Result AuthError Text → AccessControl → Result Refusal Principal
match_access_key (err e) a = forbidden invalid_access_key
match_access_key (ok normalized) a =
    if text_eq normalized a.principal.access_key
    then ok a.principal
    else forbidden invalid_access_key

pub authenticate_access_key : Casing → Text → AccessControl → Result Refusal Principal
authenticate_access_key u access_key a = match_access_key (normalize_credential u access_key) a

-- The lookup of `authenticateSessionKey`, under the lock.
abbrev renew_session :
    ℕ → ℕ → Text → Option SessionState → AccessControl → Result Refusal Principal × AccessControl
renew_session now later key none a = (expired, a)
renew_session now later key (some stored) a =
    if is_expired now stored
    then (expired, record a { sessions = Maps.delete key a.sessions })
    else (
      ok a.principal,
      record a {
        sessions =
            Maps.insert key (record stored { expires_at = later + session_lifetime }) a.sessions;
      },
    )

abbrev pub match_session_key :
    Result AuthError Text → ℕ → ℕ → AccessControl → Result Refusal Principal × AccessControl
match_session_key (err e) now later a = (expired, a)
match_session_key (ok key) now later a = renew_session now later key (a.sessions key) a

pub authenticate_session_key :
    Casing → ℕ → ℕ → Text → AccessControl → Result Refusal Principal × AccessControl
authenticate_session_key u now later session_key a =
    match_session_key (normalize_credential u session_key) now later a

pub authenticate :
    Casing → ℕ → ℕ → Request → AccessControl → Result Refusal Principal × AccessControl
authenticate u now later r a =
    let access_key = first_non_empty (r.access_header ∷ r.access_query ∷ []) in
    let session_key = first_non_empty (r.session_header ∷ r.session_query ∷ []) in
    if is_empty access_key
    then if is_empty session_key
      then (err (record { status = status_unauthorized; reason = missing_key }), a)
      else authenticate_session_key u now later session_key a
    else (authenticate_access_key u access_key a, a)

-- The permission check of `Authorize`.
pub check_permissions : List Permission → Principal → Result Refusal Principal
check_permissions [] principal = ok principal
check_permissions (p ∷ required) principal =
    if principal.permits_everything
    then ok principal
    else if has_any_permission principal.basic_permissions (p ∷ required)
    then ok principal
    else forbidden insufficient_permissions

pub authorize :
    Casing
    → ℕ
    → ℕ
    → Request
    → List Permission
    → AccessControl
    → Result Refusal Principal × AccessControl
authorize u now later r required a =
    let (who, a') = authenticate u now later r a in
    (do principal ← who; check_permissions required principal, a')
