-- ===== src/Access/Examples.antt =====
-- Runs of the access control on concrete keys and times.
use hydrus_go.Base.{ℕ, false, some, List, [], ◌∷◌, ◌≡◌, refl, ◌↔◌, ◌⊎◌, inl, inr, arith}
use hydrus_go.Base.Strings.{codes, ascii_casing, trim_space, text_eq}
use hydrus_go.Base.Results.{ok, err}
use hydrus_go.Base.Maps
use hydrus_go.Access.{
  Principal, AccessControl, Request, SessionState, hex_encode, new_session, authorize, authenticate,
  check_permissions, authenticate_access_key, first_non_empty, prune_expired_sessions,
  generate_credential, normalize_credential, missing_key,
}
use hydrus_go.Access.Permissions.{Allowed, check_permissions_iff, authorize_iff}
use hydrus_go.Access.Sessions.{fresh_session}
use hydrus_go.Access.Renewal.{replies, expected, new_session-replies}
use hydrus_go.Access.Events.{Event, issue, request, run, step}
use hydrus_go.Access.Traces.{run-principal, IsSound, run-IsSound, Issued, run-Issued}

abbrev guest : Principal
guest = record {
  name = codes "guest";
  access_key = codes "abcd";
  permits_everything = false;
  basic_permissions = 3 ∷ 10 ∷ [];
}

abbrev daemon : AccessControl
daemon = record { principal = guest; sessions = Maps.empty; generated_access_key = false }

abbrev no_credential : Request
no_credential = record {
  access_header = [];
  access_query = codes "  ";
  session_header = [];
  session_query = [];
}

abbrev with_access_key : Request
with_access_key = record no_credential { access_header = codes " ABCD " }

-- A request without a credential is answered with 401.
unauthenticated :
    (authorize ascii_casing 0 0 no_credential [] daemon).0
    ≡ err (record { status = 401; reason = missing_key })
unfolding authorize authenticate first_non_empty trim_space
unauthenticated = refl

key_accepted : (authenticate ascii_casing 0 0 with_access_key daemon).0 ≡ ok guest
unfolding authenticate first_non_empty trim_space authenticate_access_key normalize_credential
    text_eq
key_accepted = refl

issued :
    (new_session ascii_casing (some (0x1f ∷ 0xa0 ∷ [])) 5 7 (codes "ABCD") daemon).0
    ≡ ok (codes "1fa0")
unfolding new_session normalize_credential trim_space text_eq generate_credential hex_encode
issued = refl

search_granted : Allowed (6 ∷ 3 ∷ []) guest
search_granted = inr (inr (3, inl refl, inr (inl refl)))

check_permissions_iff_example :
    (check_permissions (6 ∷ 3 ∷ []) guest ≡ ok guest) ↔ Allowed (6 ∷ 3 ∷ []) guest
check_permissions_iff_example = check_permissions_iff (6 ∷ 3 ∷ []) guest

authorize_iff_example :
    ((authorize ascii_casing 0 0 with_access_key (6 ∷ 3 ∷ []) daemon).0 ≡ ok guest) ↔ (
      ((authenticate ascii_casing 0 0 with_access_key daemon).0 ≡ ok guest)
      × Allowed (6 ∷ 3 ∷ []) guest)
authorize_iff_example = authorize_iff ascii_casing 0 0 with_access_key (6 ∷ 3 ∷ []) daemon guest

abbrev after_issue : AccessControl
after_issue = (new_session ascii_casing (some (0x1f ∷ 0xa0 ∷ [])) 5 7 (codes "ABCD") daemon).1

abbrev stale : SessionState
stale = record { access_key = codes "abcd"; expires_at = 100 }

abbrev holding : AccessControl
holding = record daemon { sessions = Maps.insert (codes "1fa0") stale Maps.empty }

stale_stored : holding.sessions (codes "1fa0") ≡ some stale
unfolding text_eq
stale_stored = refl

stale_normal : normalize_credential ascii_casing (codes "1fa0") ≡ ok (codes "1fa0")
unfolding normalize_credential trim_space
stale_normal = refl

new_session-replies_example :
    replies ascii_casing
      (codes "1fa0")
      ((9, 10) ∷ (86_400_000_000_010, 86_400_000_000_011) ∷ [])
      after_issue
    ≡ expected guest 7 ((9, 10) ∷ (86_400_000_000_010, 86_400_000_000_011) ∷ [])
new_session-replies_example =
    new_session-replies ascii_casing 0x1f (0xa0 ∷ []) 5 7
      ((9, 10) ∷ (86_400_000_000_010, 86_400_000_000_011) ∷ []) (codes "ABCD") (codes "1fa0") daemon
      issued

abbrev day : List (ℕ × Event)
day = (7, issue (some (0x1f ∷ 0xa0 ∷ [])) 5 (codes "ABCD")) ∷ (9, request no_credential [] 8) ∷ []

run-principal_example : (run ascii_casing day daemon).principal ≡ guest
run-principal_example = run-principal ascii_casing day daemon

run-IsSound_example : IsSound 9 (codes "abcd") (run ascii_casing day daemon)
run-IsSound_example =
    run-IsSound ascii_casing 9 day daemon (omega arith, (omega arith, tt)) (λ k s h. cc)

day_stores : (run ascii_casing day daemon).sessions (codes "1fa0") ≡ some (fresh_session 7 daemon)
unfolding run step authorize authenticate first_non_empty new_session normalize_credential
    trim_space text_eq generate_credential hex_encode prune_expired_sessions
day_stores = refl

run-Issued_example :
    ((t : SessionState) × (daemon.sessions (codes "1fa0") ≡ some t))
    ⊎ Issued ascii_casing day daemon (codes "1fa0")
run-Issued_example =
    run-Issued ascii_casing day daemon (codes "1fa0") (fresh_session 7 daemon) day_stores
