-- ===== src/PtrSync/Examples.antt =====
-- Runs of the sync calls on concrete stores.
use hydrus_go.Base.{true, false, none, some, Option, List, [], ◌∷◌, ◌≡◌, refl, inl}
use hydrus_go.Base.Strings.{Text, codes, text_eq}
use hydrus_go.Base.Results.{ok, err}
use hydrus_go.Base.Int.{pos, negsuc}
use hydrus_go.PtrSync.{
  Store, SyncRow, ServiceRow, Config, Status, idle, shared_read_only, daemon_service_key, SyncError,
}
use hydrus_go.PtrSync.Lease.{running_row, upsert_sync_state, set_running, set_idle}
use hydrus_go.PtrSync.Services.{
  Env, service_by_key, lookup_service, conflicting_service, ensure_tag_repository_service,
  ensure_repository_updates_service, prepare_foundation,
}
use hydrus_go.PtrSync.Report.{lookup_status}
use hydrus_go.PtrSync.Bundle.{
  Lease, begin_sync, begin_body, complete_success, finish_idle, finish_idle_body,
}
use hydrus_go.PtrSync.Calls.{Call, begin, complete, metrics, run, perform}
use hydrus_go.PtrSync.Exclusive.{Held, perform-foreign}
use hydrus_go.PtrSync.Tenure.{run-Held}
use hydrus_go.PtrSync.Coherence.{IsCoherent, run-IsCoherent}
use hydrus_go.PtrSync.Endings.{begin_sync_lem, complete_success_lem, ReportsSuccess}
use hydrus_go.PtrSync.Retry.{transient, finish_throttled}
use hydrus_go.PtrSync.Mappings.{mapping}
use hydrus_go.PtrSync.Retry.Budget.{Ended, finish_throttled_lem}

abbrev pub cfg : Config
cfg = record {
  enabled = true;
  host = codes "ptr.hydrus.network";
  port = pos 45871;
  access_key = codes "4a28";
  service_name = codes "public tag repository";
}

abbrev pub env : Env
env = record { now = 5000; new_service_id = 7; new_updates_service_id = 8; equal_fold = text_eq }

abbrev pub tag_service : ServiceRow
tag_service = record {
  service_id = 7;
  service_key = daemon_service_key;
  service_type = 0;
  name = codes "public tag repository";
}

abbrev idle_store_row : SyncRow
idle_store_row = record {
  service_id = 7;
  account_mode = shared_read_only;
  phase = idle;
  is_running = 0;
  run_token = none;
  metadata_slice = pos 0;
  downloaded_update_count = 0;
  downloaded_update_bytes = 0;
  current_run_downloaded_bytes = pos 0;
  current_run_download_ms = pos 0;
  processed_definition_count = 0;
  processed_content_count = 0;
  last_sync_mapping_count = negsuc 0;
  retry_at_ms = pos 0;
  retry_attempt = pos 2;
  last_error = none;
  updated_at_ms = 1000;
}

-- A repository with two updates, one of them processed, and one current mapping.
abbrev pub idle_store : Store
idle_store = record {
  services = tag_service ∷ [];
  sync_state = some idle_store_row;
  next_update_due = λ id. none;
  repository_updates =
      record { update_index = pos 0; hash_id = 1 }
      ∷ record { update_index = pos 1; hash_id = 2 }
      ∷ [];
  unregistered = 2 ∷ [];
  processed =
      record {
        hash_id = 1;
        content_type = 21;
        processed = 1;
        mime = pos 28;
        size_bytes = 300;
        body = none;
      }
      ∷ [];
  hashes = λ h. some 1;
  hash_id_map = λ id. some 40;
  tag_id_map = λ id. some 3;
  current_mappings = mapping 3 9 ∷ [];
  deleted_mappings = mapping 3 40 ∷ [];
  pending_mappings = [];
  petitioned_mappings = [];
}

abbrev pub token : Text
token = codes "a1"

abbrev pub busy_store : Store
busy_store = record idle_store { sync_state = some (running_row 7 token 5000 idle_store_row) }

pub held : Held token busy_store
unfolding text_eq
held = (running_row 7 token 5000 idle_store_row, refl, refl)

abbrev begun_lease : Lease
begun_lease = record {
  run_token = token;
  status = lookup_status cfg tag_service 5000 (begin_sync env cfg (some token) idle_store).1;
}

begun : (begin_sync env cfg (some token) idle_store).0 ≡ ok begun_lease
unfolding begin_sync begin_body prepare_foundation ensure_tag_repository_service
    ensure_repository_updates_service service_by_key conflicting_service upsert_sync_state
    set_running text_eq
begun = refl

begin_sync_example :
    (¬ Held (codes "b2") idle_store)
    × (some token ≡ some token)
    × Held token (begin_sync env cfg (some token) idle_store).1
begin_sync_example = begin_sync_lem env cfg (some token) idle_store begun_lease (codes "b2") begun

perform-foreign_example :
    (e : SyncError) × (perform (begin env cfg (some (codes "b2"))) busy_store ≡ (err e, busy_store))
perform-foreign_example =
    perform-foreign token (begin env cfg (some (codes "b2"))) busy_store held refl

abbrev calls : List Call
calls =
    begin env cfg (some (codes "b2"))
    ∷ metrics 5100 cfg token (pos 4000) (pos 20)
    ∷ complete 5200 cfg (codes "b2")
    ∷ []

foreign_token : text_eq token (codes "b2") ≡ false
unfolding text_eq
foreign_token = refl

run-Held_example : Held token (run calls busy_store)
run-Held_example = run-Held token calls busy_store held (refl, (refl, (foreign_token, tt)))

run-IsCoherent_example : IsCoherent (run calls busy_store)
run-IsCoherent_example = run-IsCoherent calls busy_store (inl (refl, refl, (token, refl)))

abbrev completed : Status
completed = lookup_status cfg tag_service 5300 (complete_success 5300 cfg token busy_store).1

completes : (complete_success 5300 cfg token busy_store).0 ≡ ok completed
unfolding complete_success finish_idle finish_idle_body lookup_service service_by_key set_idle
    text_eq
completes = refl

complete_success_example :
    Held token busy_store
    × (¬ Held token (complete_success 5300 cfg token busy_store).1)
    × ((row : Option SyncRow) × ((complete_success 5300 cfg token busy_store).1
          ≡ record busy_store { sync_state = row }))
    × ReportsSuccess busy_store completed
complete_success_example = complete_success_lem 5300 cfg token busy_store completed token completes

pub found_busy : lookup_service busy_store ≡ ok tag_service
unfolding lookup_service service_by_key text_eq
found_busy = refl

finish_throttled_example :
    Ended 5300 (pos 2) (finish_throttled 5300 cfg token (pos 2) (pos 0) transient busy_store).0
    × (¬ Held token (finish_throttled 5300 cfg token (pos 2) (pos 0) transient busy_store).1)
finish_throttled_example =
    finish_throttled_lem 5300 cfg token (pos 2) (pos 0) transient busy_store tag_service token refl
      found_busy held refl
