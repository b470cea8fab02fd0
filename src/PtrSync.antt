-- ===== src/PtrSync.antt =====
-- internal/db/hydrusdb/ptrsync.go with internal/core/ptrsync/types.go: what the daemon stores about
-- the public tag repository. A table is the list of its rows; the tables that carry the id of the
-- service in their names are those of the one daemon service.
pub mod Tables
pub mod Lease
pub mod Report
pub mod Services
pub mod Bundle
pub mod Transactions
pub mod Calls
pub mod Exclusive
pub mod Tenure
pub mod Outcomes
pub mod Coherence
pub mod Endings
pub mod Interruptions
pub mod Mappings
pub mod Metadata
pub mod Pending
pub mod Processing
pub mod Retry
pub mod Runs
pub mod Manager
mod RunExamples
mod Examples
mod TableExamples
use hydrus_go.Base.{ℕ, Bool, true, false, Option, none, some, List}
use hydrus_go.Base.Strings.{Text, codes}
use hydrus_go.Base.Results.{Result, ok, err}
use hydrus_go.Base.Int.{ℤ}

-- The phases of `Status.Phase`; the source keeps them as strings.
pub data Phase : Type 0 where
  disabled unavailable idle syncing retrying : Phase

abbrev pub throttling : Phase
throttling = retrying

abbrev pub phase_eq : Phase → Phase → Bool
phase_eq disabled disabled = true
phase_eq unavailable unavailable = true
phase_eq idle idle = true
phase_eq syncing syncing = true
phase_eq retrying retrying = true
phase_eq _ _ = false

pub data SyncError : Type 0 where
  sync_disabled sync_already_running run_not_active : SyncError
  service_missing service_name_collision : SyncError
  service_type_mismatch : ℕ → SyncError
  token_not_generated : SyncError
  tag_definition_missing : ℤ → SyncError
  hash_definition_missing : ℤ → SyncError
  update_hash_missing : Text → SyncError
  unsupported_service_key : Text → SyncError
  service_key_unavailable : Text → SyncError
  invalid_update_hash : Text → SyncError
  update_hash_unknown : Text → SyncError

abbrev pub shared_read_only : Text
shared_read_only = codes "shared-read-only"

-- The hex form of "hydrus-go-public-tag-repository".
abbrev pub daemon_service_key : Text
daemon_service_key = codes "6879647275732d676f2d7075626c69632d7461672d7265706f7369746f7279"

-- The hex form of "repository updates".
abbrev pub updates_service_key : Text
updates_service_key = codes "7265706f7369746f72792075706461746573"

abbrev pub updates_service_name : Text
updates_service_name = codes "repository updates"

pub record Config : Type 0 where
  pub enabled : Bool
  pub host : Text
  pub port : ℤ
  pub access_key : Text
  pub service_name : Text

-- main.services, without the dictionary of the service
pub record ServiceRow : Type 0 where
  pub service_id : ℕ
  pub service_key : Text
  pub service_type : ℕ
  pub name : Text

-- main.ptr_sync_state
pub record SyncRow : Type 0 where
  pub service_id : ℕ
  pub account_mode : Text
  pub phase : Phase
  pub is_running : ℕ
  pub run_token : Option Text
  pub metadata_slice : ℤ
  pub downloaded_update_count : ℕ
  pub downloaded_update_bytes : ℕ
  pub current_run_downloaded_bytes : ℤ
  pub current_run_download_ms : ℤ
  pub processed_definition_count : ℕ
  pub processed_content_count : ℕ
  pub last_sync_mapping_count : ℤ
  pub retry_at_ms : ℤ
  pub retry_attempt : ℤ
  pub last_error : Option Text
  pub updated_at_ms : ℕ

-- repository_updates_N
pub record UpdateRow : Type 0 where
  pub update_index : ℤ
  pub hash_id : ℕ

-- repository_updates_processed_N, whose `processed` is 0 or 1
pub record ProcessedRow : Type 0 where
  pub hash_id : ℕ
  pub content_type : ℕ
  pub processed : ℕ
  pub mime : ℤ
  pub size_bytes : ℕ
  pub body : Option (List ℕ)

-- A row of the four mapping tables; the reason of a petition is never read.
pub record Mapping : Type 0 where
  pub tag_id : ℕ
  pub hash_id : ℕ

-- `hashes` is external_master.hashes, by the lower-case hex form of the hash.
pub record Store : Type 0 where
  pub services : List ServiceRow
  pub sync_state : Option SyncRow
  pub next_update_due : ℕ → Option ℤ
  pub repository_updates : List UpdateRow
  pub unregistered : List ℕ
  pub processed : List ProcessedRow
  pub hashes : Text → Option ℕ
  pub hash_id_map : ℤ → Option ℕ
  pub tag_id_map : ℤ → Option ℕ
  pub current_mappings : List Mapping
  pub deleted_mappings : List Mapping
  pub pending_mappings : List Mapping
  pub petitioned_mappings : List Mapping

-- `coreptrsync.Status`
pub record Status : Type 0 where
  pub enabled : Bool
  pub configured : Bool
  pub service_name : Text
  pub service_key : Text
  pub host : Text
  pub port : ℤ
  pub account_mode : Text
  pub phase : Phase
  pub is_running : Bool
  pub is_complete : Bool
  pub is_up_to_date : Bool
  pub metadata_slice : ℤ
  pub downloaded_update_count : ℕ
  pub downloaded_update_bytes : ℕ
  pub current_run_downloaded_bytes : ℤ
  pub current_run_download_ms : ℤ
  pub current_run_bytes_per_second : ℤ
  pub current_run_network_fetched_bytes : ℤ
  pub current_run_network_fetch_ms : ℤ
  pub current_run_network_bytes_per_second : ℤ
  pub processed_definition_count : ℕ
  pub processed_content_count : ℕ
  pub pending_download_count : ℕ
  pub pending_process_count : ℕ
  pub next_update_due : ℤ
  pub last_sync_mapping_count : Option ℤ
  pub retry_at_ms : ℤ
  pub retry_attempt : ℤ
  pub last_error : Text
  pub unavailable_reason : Text
  pub updated_at_ms : ℕ

abbrev pub content_type_mappings : ℕ
content_type_mappings = 0

abbrev pub content_type_definitions : ℕ
content_type_definitions = 21

-- What `WithImmediateTx` leaves behind on a bundle that is open for writing, whose write gate it holds
-- all the time: an error rolls the transaction back to where it began.
abbrev pub commit_or_roll_back :
    {A : Type 0} → Store → Result SyncError (A × Store) → Result SyncError A × Store
commit_or_roll_back before (err e) = (err e, before)
commit_or_roll_back before (ok (a, after)) = (ok a, after)

abbrev pub with_immediate_tx :
    {A : Type 0} → (Store → Result SyncError (A × Store)) → Store → Result SyncError A × Store
with_immediate_tx body s = commit_or_roll_back s (body s)
