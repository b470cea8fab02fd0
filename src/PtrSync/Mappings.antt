-- ===== src/PtrSync/Mappings.antt =====
-- ptrsync.go: the mappings that a content update of the repository adds and deletes
-- (`applyPTRMappingsTx`, `normalizePTRMappingRow`).
pub mod Tables
pub mod Effect
use hydrus_go.Base.{ℕ, Bool, ◌&&◌, Option, none, some, List, [], ◌∷◌, ◌==◌}
use hydrus_go.Base.Results.{Result, ok, err, ◌>>=◌}
use hydrus_go.Base.Int.{ℤ}
use hydrus_go.PtrSync.{SyncError, tag_definition_missing, hash_definition_missing, Mapping, Store}
use hydrus_go.PtrSync.Tables.{delete_where, insert_or_ignore}

-- `PTRMappingUpdateRow`
pub record UpdatedMappings : Type 0 where
  pub service_tag_id : ℤ
  pub service_hash_ids : List ℤ

-- `PTRMappingsUpdate`
pub record MappingsUpdate : Type 0 where
  pub adds : List UpdatedMappings
  pub deletes : List UpdatedMappings

abbrev pub mapping_eq : Mapping → Mapping → Bool
mapping_eq m n = (m.tag_id == n.tag_id) && (m.hash_id == n.hash_id)

abbrev pub mapping : ℕ → ℕ → Mapping
mapping tag_id hash_id = record { tag_id = tag_id; hash_id = hash_id }

abbrev pub defined : SyncError → Option ℕ → Result SyncError ℕ
defined missing none = err missing
defined missing (some id) = ok id

unfoldable pub local_hash_ids : (ℤ → Option ℕ) → List ℤ → Result SyncError (List ℕ)
local_hash_ids hash_id_map [] = ok []
local_hash_ids hash_id_map (id ∷ ids) =
    defined (hash_definition_missing id) (hash_id_map id) >>= λ hash_id.
    local_hash_ids hash_id_map ids >>= λ hash_ids. ok (hash_id ∷ hash_ids)

-- The local ids of a row; every id of the service must have been defined.
unfoldable pub normalize_mapping_row : Store → UpdatedMappings → Result SyncError (ℕ × List ℕ)
normalize_mapping_row s row =
    defined (tag_definition_missing row.service_tag_id) (s.tag_id_map row.service_tag_id)
    >>= λ tag_id.
        local_hash_ids s.hash_id_map row.service_hash_ids >>= λ hash_ids. ok (tag_id, hash_ids)

abbrev pub add_mapping : Mapping → Store → Store
add_mapping m s = record s {
  deleted_mappings = delete_where (mapping_eq m) s.deleted_mappings;
  pending_mappings = delete_where (mapping_eq m) s.pending_mappings;
  current_mappings = insert_or_ignore mapping_eq m s.current_mappings;
}

abbrev pub delete_mapping : Mapping → Store → Store
delete_mapping m s = record s {
  current_mappings = delete_where (mapping_eq m) s.current_mappings;
  petitioned_mappings = delete_where (mapping_eq m) s.petitioned_mappings;
  deleted_mappings = insert_or_ignore mapping_eq m s.deleted_mappings;
}

-- The inner loop over the hashes of a row, with the statements of an add or of a delete.
unfoldable pub change_all : (Mapping → Store → Store) → ℕ → List ℕ → Store → Store
change_all change tag_id [] s = s
change_all change tag_id (hash_id ∷ hash_ids) s =
    change_all change tag_id hash_ids (change (mapping tag_id hash_id) s)

unfoldable pub change_rows :
    (Mapping → Store → Store) → List UpdatedMappings → Store → Result SyncError Store
change_rows change [] s = ok s
change_rows change (row ∷ rows) s =
    normalize_mapping_row s row >>= λ p. change_rows change rows (change_all change p.0 p.1 s)

unfoldable pub apply_mappings : MappingsUpdate → Store → Result SyncError Store
apply_mappings update s =
    change_rows add_mapping update.adds s >>= change_rows delete_mapping update.deletes
