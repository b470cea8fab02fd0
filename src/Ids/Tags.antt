-- ===== src/Ids/Tags.antt =====
-- internal/db/hydrusdb/tag_ids.go: the id of a tag in the tables namespaces, subtags and tags of the
-- master database. The functions on the attached database run the same statements.
pub mod Parts
pub mod Schema
pub mod Stable
use hydrus_go.Base.{
  ℕ, ◌≡◌, Bool, true, false, not, ◌&&◌, ◌||◌, ◌==◌, Option, none, some, List, [], ◌∷◌, ◌++◌,
  if◌then◌else◌,
}
use hydrus_go.Base.Strings.{Text, Casing, codes, text_eq}
use hydrus_go.Base.Results.{Result, ok, err, ◌>>=◌}
use hydrus_go.Tags.{TagError, clean, check_not_empty, split}
use hydrus_go.PtrSync.Tables.{exists_row}
use hydrus_go.Ids.Table.{
  Row, RowIds, IdError, empty_tag_given, read_only, schema_incompatible, schema_flat,
  index_not_created, has_key, insert_row, ensure_key, find_key,
}

-- A table that does not exist has no rows. `indexed` is whether the index on the tags is there.
pub record Master : Type 0 where
  pub tables : List Text
  pub tag_columns : List Text
  pub indexed : Bool
  pub namespaces : List (Row Text)
  pub subtags : List (Row Text)
  pub tags : List (Row (ℕ × ℕ))

abbrev pub pair_eq : ℕ × ℕ → ℕ × ℕ → Bool
pair_eq (a, b) (c, d) = a == c && b == d

pub data SchemaMode : Type 0 where
  schema_empty legacy_flat schema_split : SchemaMode

abbrev pub has : Text → List Text → Bool
has name names = exists_row (text_eq name) names

abbrev pub tags_table : Text
tags_table = codes "tags"

abbrev pub namespaces_table : Text
namespaces_table = codes "namespaces"

abbrev pub subtags_table : Text
subtags_table = codes "subtags"

-- `lookupTagColumns`
abbrev pub lookup_tag_columns : Master → List Text
lookup_tag_columns m = if has tags_table m.tables then m.tag_columns else []

abbrev pub mode_of : Bool → Bool → Bool → Bool → Bool → Result IdError SchemaMode
mode_of has_tags has_namespaces has_subtags has_flat has_split =
    if not has_tags && not has_namespaces && not has_subtags
    then ok schema_empty
    else if has_tags && has_namespaces && has_subtags && has_split && not has_flat
    then ok schema_split
    else if has_tags && not has_namespaces && not has_subtags && has_flat && not has_split
    then ok legacy_flat
    else err schema_incompatible

-- `masterTagSchemaModeFromTableNames`
unfoldable pub schema_mode : List Text → List Text → Result IdError SchemaMode
schema_mode tables columns =
    mode_of (has tags_table tables) (has namespaces_table tables) (has subtags_table tables)
      (has (codes "tag") columns)
      (has (codes "namespace_id") columns && has (codes "subtag_id") columns)

-- CREATE TABLE IF NOT EXISTS
abbrev pub create_table : Text → List Text → List Text
create_table name tables = if has name tables then tables else tables ++ (name ∷ [])

abbrev pub split_columns : List Text
split_columns = codes "tag_id" ∷ codes "namespace_id" ∷ codes "subtag_id" ∷ []

unfoldable pub has_duplicates : List (Row (ℕ × ℕ)) → Bool
has_duplicates [] = false
has_duplicates (x ∷ xs) = exists_row (has_key pair_eq x.key) xs || has_duplicates xs

abbrev pub null_namespace_id : ℕ
null_namespace_id = 1

abbrev pub created_tables : List Text → List Text
created_tables tables =
    create_table tags_table (create_table subtags_table (create_table namespaces_table tables))

abbrev pub with_schema : Master → Master
with_schema m = record m {
  tables = created_tables m.tables;
  tag_columns = if has tags_table m.tables then m.tag_columns else split_columns;
  indexed = true;
  namespaces = insert_row text_eq null_namespace_id [] m.namespaces;
}

-- `ensureMasterTagSchema`
unfoldable pub ensure_master_tag_schema : Master → Result IdError Master
ensure_master_tag_schema m =
    if not m.indexed && has_duplicates m.tags then err index_not_created else ok (with_schema m)

module _ (r : RowIds) where
  -- `ensureNamespaceID`
  abbrev pub ensure_namespace_id : Text → Master → Result IdError (ℕ × Master)
  ensure_namespace_id namespace m =
      ensure_key text_eq r namespace m.namespaces >>= λ p. ok (p.0, record m { namespaces = p.1 })

  -- `ensureSubtagID`
  abbrev pub ensure_subtag_id : Text → Master → Result IdError (ℕ × Master)
  ensure_subtag_id subtag m =
      ensure_key text_eq r subtag m.subtags >>= λ p. ok (p.0, record m { subtags = p.1 })

  -- `ensureMasterTagID`
  abbrev pub ensure_master_tag_id : ℕ → ℕ → Master → Result IdError (ℕ × Master)
  ensure_master_tag_id namespace_id subtag_id m =
      ensure_key pair_eq r (namespace_id, subtag_id) m.tags >>= λ p.
      ok (p.0, record m { tags = p.1 })

  unfoldable pub ensure_parts : Text × Text → Master → Result IdError (ℕ × Master)
  ensure_parts (namespace, subtag) m = ensure_namespace_id namespace m >>= λ p.
      ensure_subtag_id subtag p.1 >>= λ q. ensure_master_tag_id p.0 q.0 q.1

  abbrev pub ensure_in_mode : Text × Text → Master → SchemaMode → Result IdError (ℕ × Master)
  ensure_in_mode parts m legacy_flat = err schema_flat
  ensure_in_mode parts m schema_empty = ensure_master_tag_schema m >>= ensure_parts parts
  ensure_in_mode parts m schema_split = ensure_master_tag_schema m >>= ensure_parts parts

  abbrev pub ensure_tag_parts : Text × Text → Master → Result IdError (ℕ × Master)
  ensure_tag_parts parts m = schema_mode m.tables (lookup_tag_columns m) >>= ensure_in_mode parts m

  abbrev pub checked : Result TagError (Unit {0}) → Result IdError (Unit {0})
  checked (err e) = err empty_tag_given
  checked (ok tt) = ok tt

  -- `ensureTagIDTx`
  unfoldable pub ensure_tag_id_tx : Casing → Text → Master → Result IdError (ℕ × Master)
  ensure_tag_id_tx u tag m =
      checked (check_not_empty (clean u tag)) >>= λ _. ensure_tag_parts (split (clean u tag)) m

  -- `withImmediateMasterTx`: an error rolls the transaction back.
  abbrev pub commit_master : Master → Result IdError (ℕ × Master) → Result IdError ℕ × Master
  commit_master before (err e) = (err e, before)
  commit_master before (ok (id, after)) = (ok id, after)

  abbrev pub with_immediate_master_tx :
      Bool → (Master → Result IdError (ℕ × Master)) → Master → Result IdError ℕ × Master
  with_immediate_master_tx writable body m =
      if writable then commit_master m (body m) else (err read_only, m)

  abbrev pub ensure_checked :
      Bool → Text → Master → Result IdError (Unit {0}) → Result IdError ℕ × Master
  ensure_checked writable tag m (err e) = (err e, m)
  ensure_checked writable tag m (ok tt) =
      with_immediate_master_tx writable (ensure_tag_parts (split tag)) m

  -- `EnsureTagID`
  unfoldable pub ensure_tag_id : Casing → Bool → Text → Master → Result IdError ℕ × Master
  ensure_tag_id u writable tag m =
      ensure_checked writable (clean u tag) m (checked (check_not_empty (clean u tag)))

-- The namespace and the subtag that an id of a tag stands for.
abbrev pub both : Option Text → Option Text → Option (Text × Text)
both (some namespace) (some subtag) = some (namespace, subtag)
both _ _ = none

abbrev pub parts_of : Master → Option (ℕ × ℕ) → Option (Text × Text)
parts_of m none = none
parts_of m (some (n, s)) = both (find_key n m.namespaces) (find_key s m.subtags)

abbrev pub tag_parts : Master → ℕ → Option (Text × Text)
tag_parts m id = parts_of m (find_key id m.tags)
