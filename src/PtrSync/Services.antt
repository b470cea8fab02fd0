-- ===== src/PtrSync/Services.antt =====
-- ptrsync.go: the rows of main.services that the sync stands on, found, renamed or inserted
-- (`ensurePTRTagRepositoryService`, `ensurePTRRepositoryUpdatesService`).
use hydrus_go.Base.{
  ℕ, Bool, not, ◌&&◌, Option, none, some, List, [], ◌∷◌, ◌++◌, ◌==◌, if◌then◌else◌,
}
use hydrus_go.Base.Strings.{Text, text_eq, is_empty}
use hydrus_go.Base.Results.{Result, ok, err, ◌>>=◌}
use hydrus_go.PtrSync.{
  SyncError, service_missing, service_name_collision, service_type_mismatch, ServiceRow, Store,
  Config, daemon_service_key, updates_service_key, updates_service_name,
}
use hydrus_go.PtrSync.Tables.{update_where}
use hydrus_go.PtrSync.Lease.{upsert_sync_state}

abbrev pub type_tag_repository : ℕ
type_tag_repository = 0

abbrev pub type_local_file_update_domain : ℕ
type_local_file_update_domain = 20

-- What a call gets from outside: the clock in milliseconds, the ids that SQLite gives to the rows
-- that are inserted into main.services, and Go's `strings.EqualFold`.
pub record Env : Type 0 where
  pub now : ℕ
  pub new_service_id : ℕ
  pub new_updates_service_id : ℕ
  pub equal_fold : Text → Text → Bool

-- `lookupServiceByKeyTx`
unfoldable pub service_by_key : Text → List ServiceRow → Option ServiceRow
service_by_key key [] = none
service_by_key key (row ∷ rows) =
    let rest = service_by_key key rows in if text_eq row.service_key key then some row else rest

-- `lookupConflictingServiceByNameTx`: another service with the name.
unfoldable pub conflicting_service :
    (Text → Text → Bool) → Text → Text → List ServiceRow → Option ServiceRow
conflicting_service equal_fold name exclude_key [] = none
conflicting_service equal_fold name exclude_key (row ∷ rows) =
    let rest = conflicting_service equal_fold name exclude_key rows in
    if not (equal_fold row.name name)
    then rest
    else if not (is_empty exclude_key) && equal_fold row.service_key exclude_key
    then rest
    else some row

abbrev pub has_key : Text → ServiceRow → Bool
has_key key row = text_eq row.service_key key

-- UPDATE main.services SET name = ? WHERE service_key = ?
abbrev pub rename_service : Text → Store → Store
rename_service name s = record s {
  services =
      update_where (has_key daemon_service_key) (λ row. record row { name = name }) s.services;
}

abbrev pub renamed :
    Text → ServiceRow → Option ServiceRow → Store → Result SyncError (ServiceRow × Store)
renamed name service (some collision) s = err service_name_collision
renamed name service none s = ok (record service { name = name }, rename_service name s)

abbrev pub existing_repository :
    Env → Config → ServiceRow → Store → Result SyncError (ServiceRow × Store)
existing_repository env cfg service s =
    if not (service.service_type == type_tag_repository)
    then err (service_type_mismatch service.service_type)
    else if text_eq service.name cfg.service_name
    then ok (service, s)
    else renamed cfg.service_name service
        (conflicting_service env.equal_fold cfg.service_name service.service_key s.services) s

abbrev pub inserted : ServiceRow → Store → ServiceRow × Store
inserted service s = (service, record s { services = s.services ++ (service ∷ []) })

abbrev pub new_repository :
    Env → Config → Option ServiceRow → Store → Result SyncError (ServiceRow × Store)
new_repository env cfg (some collision) s = err service_name_collision
new_repository env cfg none s = ok (
    inserted
      (record {
        service_id = env.new_service_id;
        service_key = daemon_service_key;
        service_type = type_tag_repository;
        name = cfg.service_name;
      })
      s)

abbrev pub ensure_repository_from :
    Env → Config → Option ServiceRow → Store → Result SyncError (ServiceRow × Store)
ensure_repository_from env cfg (some service) s = existing_repository env cfg service s
ensure_repository_from env cfg none s =
    new_repository env cfg (conflicting_service env.equal_fold cfg.service_name [] s.services) s

unfoldable pub ensure_tag_repository_service :
    Env → Config → Store → Result SyncError (ServiceRow × Store)
ensure_tag_repository_service env cfg s =
    ensure_repository_from env cfg (service_by_key daemon_service_key s.services) s

abbrev pub ensure_updates_from : Env → Option ServiceRow → Store → Result SyncError Store
ensure_updates_from env (some service) s =
    if service.service_type == type_local_file_update_domain
    then ok s
    else err (service_type_mismatch service.service_type)
ensure_updates_from env none s =
    ok
      (inserted
        (record {
          service_id = env.new_updates_service_id;
          service_key = updates_service_key;
          service_type = type_local_file_update_domain;
          name = updates_service_name;
        })
        s).1

unfoldable pub ensure_repository_updates_service : Env → Store → Result SyncError Store
ensure_repository_updates_service env s =
    ensure_updates_from env (service_by_key updates_service_key s.services) s

-- `preparePTRSyncFoundationTxWithMode`; the tables are there from the start.
unfoldable pub prepare_foundation :
    Env → Config → Bool → Store → Result SyncError (ServiceRow × Store)
prepare_foundation env cfg normalize s = ensure_tag_repository_service env cfg s >>= λ p.
    ensure_repository_updates_service env p.1 >>= λ t.
    ok (p.0, upsert_sync_state normalize p.0.service_id env.now t)

-- `lookupPTRServiceTx`
abbrev pub found_service : Option ServiceRow → Result SyncError ServiceRow
found_service none = err service_missing
found_service (some service) = ok service

unfoldable pub lookup_service : Store → Result SyncError ServiceRow
lookup_service s = found_service (service_by_key daemon_service_key s.services)
