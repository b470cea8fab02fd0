-- ===== src/Ids/Examples.antt =====
-- Ids of tags and hashes in concrete tables.
use hydrus_go.Base.{
  ℕ, suc, ◌<◌, ◌≡◌, refl, true, false, some, List, [], ◌∷◌, leb, if◌then◌else◌, arith, ◌⊎◌, ◌↔◌,
  inr,
}
use hydrus_go.Base.Strings.{Text, codes, text_eq, ascii_casing, trim_space, contains, is_control}
use hydrus_go.Base.Results.{Result, ok}
use hydrus_go.Tags.{
  clean, check_not_empty, split, truncate_runes, leading_single_colon, strip_text_of_gumpf, combine,
}
use hydrus_go.PtrSync.Tables.{exists_row}
use hydrus_go.Ids.Table.{
  Row, row, RowIds, IdError, has_id, ensure_key, find_id, insert_key, insert_row,
}
use hydrus_go.Ids.Table.Laws.{IsUnique}
use hydrus_go.Ids.Tags.{
  Master, schema_mode, ensure_master_tag_schema, ensure_parts, has_duplicates, ensure_tag_id,
  tag_parts,
}
use hydrus_go.Ids.Tags.Parts.{IsMaster, Keeps}
use hydrus_go.Ids.Tags.Schema.{IsUsable}
use hydrus_go.Ids.Tags.Stable.{ensure_tag_id_lem, ensure_tag_id_iff}
use hydrus_go.Ids.Hashes.{ensure_hash_ids}
use hydrus_go.Ids.Hashes.Resolved.{IsServed, IsRefused, ensure_hash_ids_lem}

-- SQLite's choice for a table without AUTOINCREMENT: one more than the highest id.
highest : {K : Type 0} → List (Row K) → ℕ
highest [] = 0
highest (x ∷ xs) = let rest = highest xs in if leb rest x.id then x.id else rest

above-fresh :
    {K : Type 0} (n : ℕ) (rows : List (Row K))
    → highest rows < n
    → exists_row (has_id n) rows ≡ false
unfolding exists_row highest
above-fresh n [] h = refl
above-fresh n (x ∷ xs) h = ground (arith, above-fresh n xs)

counting : RowIds
counting = record {
  next = λ rows. suc (highest rows);
  next-fresh = λ rows. above-fresh (suc (highest rows)) rows (omega arith);
}

abbrev empty_master : Master
empty_master = record {
  tables = [];
  tag_columns = [];
  indexed = false;
  namespaces = [];
  subtags = [];
  tags = [];
}

empty_master-IsMaster : IsMaster empty_master
unfolding IsMaster IsUnique
empty_master-IsMaster = (tt, tt, tt)

empty_master-IsUsable : IsUsable empty_master
unfolding IsUsable schema_mode exists_row
empty_master-IsUsable = inr refl

abbrev tag : Text
tag = codes "creator:abc"

abbrev other : Text
other = codes " ABC "

not_empty : check_not_empty (clean ascii_casing tag) ≡ ok tt
unfolding clean truncate_runes leading_single_colon contains strip_text_of_gumpf trim_space split
    combine is_control check_not_empty
not_empty = refl

other_not_empty : check_not_empty (clean ascii_casing other) ≡ ok tt
unfolding clean truncate_runes leading_single_colon contains strip_text_of_gumpf trim_space split
    combine is_control check_not_empty
other_not_empty = refl

ensure_tag_id_example :
    (id : ℕ) × (after : Master) × (ensure_tag_id counting ascii_casing true tag empty_master
      ≡ (ok id, after))
    × IsMaster after
    × IsUsable after
    × (tag_parts after id ≡ some (split (clean ascii_casing tag)))
    × Keeps empty_master after
    × (ensure_tag_id counting ascii_casing true tag after ≡ (ok id, after))
ensure_tag_id_example =
    ensure_tag_id_lem counting ascii_casing tag empty_master empty_master-IsMaster
      empty_master-IsUsable not_empty

abbrev first : Result IdError ℕ × Master
first = ensure_tag_id counting ascii_casing true tag empty_master

abbrev second : Result IdError ℕ × Master
second = ensure_tag_id counting ascii_casing true other first.1

first_given : first ≡ (ok 1, first.1)
unfolding ensure_tag_id clean truncate_runes leading_single_colon contains strip_text_of_gumpf
    trim_space split combine is_control check_not_empty schema_mode exists_row
    ensure_master_tag_schema ensure_parts ensure_key find_id insert_key insert_row text_eq highest
    has_duplicates counting
first_given = refl

second_given : second ≡ (ok 2, second.1)
unfolding ensure_tag_id clean truncate_runes leading_single_colon contains strip_text_of_gumpf
    trim_space split combine is_control check_not_empty schema_mode exists_row
    ensure_master_tag_schema ensure_parts ensure_key find_id insert_key insert_row text_eq highest
    has_duplicates counting
second_given = refl

ensure_tag_id_iff_example :
    ◌≡◌ {A = ℕ} 1 2 ↔ (split (clean ascii_casing tag) ≡ split (clean ascii_casing other))
ensure_tag_id_iff_example =
    ensure_tag_id_iff counting ascii_casing tag other empty_master first.1 second.1 1 2
      empty_master-IsMaster empty_master-IsUsable not_empty other_not_empty first_given second_given

abbrev hashes : List Text
hashes =
    codes "00112233445566778899AABBccddeeff00112233445566778899aabbccddeeff"
    ∷ codes "00112233445566778899aabbccddeeff00112233445566778899aabbccddeeff"
    ∷ []

abbrev rows : List (Row Text)
rows = row 4 (codes "ff") ∷ []

rows-IsUnique : IsUnique text_eq rows
unfolding IsUnique exists_row
rows-IsUnique = (refl, refl, tt)

ensure_hash_ids_example :
    IsServed ascii_casing hashes rows (ensure_hash_ids counting ascii_casing hashes rows)
    ⊎ IsRefused ascii_casing hashes rows (ensure_hash_ids counting ascii_casing hashes rows)
ensure_hash_ids_example = ensure_hash_ids_lem counting ascii_casing hashes rows rows-IsUnique
