-- ===== src/Ids/Tags/Schema.antt =====
-- What the creation of the tag tables leaves.
use hydrus_go.Base.{
  ℕ, ◌≡◌, refl, Bool, true, false, not, ◌&&◌, List, [], ◌∷◌, ◌⊎◌, inl, inr, Bool-cases, arith, ap,
  ap₂, sym, ◌∙◌, if◌then◌else◌,
}
use hydrus_go.Base.Strings.{Text, codes, text_eq, text_eq_sound, text_eq_refl}
use hydrus_go.Base.Results.{Result, ok, err}
use hydrus_go.PtrSync.Tables.{exists_row, exists_row-append}
use hydrus_go.Ids.Table.{Row, IdError, insert_row, index_not_created}
use hydrus_go.Ids.Table.Laws.{IsUnique, insert_row_lem}
use hydrus_go.Ids.Tags.{
  Master, pair_eq, schema_empty, schema_split, has, lookup_tag_columns, schema_mode, create_table,
  has_duplicates, ensure_master_tag_schema, with_schema, tags_table, namespaces_table,
  subtags_table, split_columns, created_tables, mode_of, null_namespace_id,
}
use hydrus_go.Ids.Tags.Parts.{IsMaster, Keeps, tag_parts-Keeps, Ready}

has-create_table : (name : Text) (tables : List Text) → has name (create_table name tables) ≡ true
unfolding exists_row
has-create_table name tables = elim (Bool-cases (has name tables)) [
  | inl there ↦ rw there there
  | inr missing ↦
      rw (missing, exists_row-append (text_eq name) tables (name ∷ []), missing, text_eq_refl name)
        refl
]

has-create_table_kept :
    (name other : Text) (tables : List Text)
    → has other tables ≡ true
    → has other (create_table name tables) ≡ true
has-create_table_kept name other tables h = elim (Bool-cases (has name tables)) [
  | inl there ↦ rw there h
  | inr missing ↦ rw (missing, exists_row-append (text_eq other) tables (name ∷ []), h) refl
]

has_duplicates-IsUnique :
    (rows : List (Row (ℕ × ℕ))) → IsUnique pair_eq rows → has_duplicates rows ≡ false
unfolding IsUnique has_duplicates
has_duplicates-IsUnique [] unique = refl
has_duplicates-IsUnique (x ∷ xs) (_, fresh, unique) =
    rw (fresh, has_duplicates-IsUnique xs unique) refl

-- The schema can be written: it is split or empty.
unfoldable pub IsUsable : Master → Type 0
IsUsable m =
    (schema_mode m.tables (lookup_tag_columns m) ≡ ok schema_split)
    ⊎ (schema_mode m.tables (lookup_tag_columns m) ≡ ok schema_empty)

mode_of-split :
    (a b c f s : Bool)
    → mode_of a b c f s ≡ ok schema_split
    → (a ≡ true) × (mode_of true true true f s ≡ ok schema_split)
mode_of-split true b c f s h = (refl, ground arith)
mode_of-split false b c f s h = ground arith

true_is_not_empty : (b c f s : Bool) → ¬ (mode_of true b c f s ≡ ok schema_empty)
true_is_not_empty b c f s h = ground arith

if_last :
    (c d : Bool) (m : Master)
    → d ≡ false
    → ◌≡◌ {A = Result IdError Master} (if c && d then err index_not_created else ok m) (ok m)
if_last true d m h = rw h refl
if_last false d m h = refl

-- All three tables are there once they were created.
HasTables : List Text → Type 0
HasTables tables =
    (has tags_table tables ≡ true)
    × (has namespaces_table tables ≡ true)
    × (has subtags_table tables ≡ true)

created_tables-HasTables : (tables : List Text) → HasTables (created_tables tables)
unfolding HasTables
created_tables-HasTables tables =
    let first = create_table namespaces_table tables in
    let second = create_table subtags_table first in
    (
      has-create_table tags_table second,
      has-create_table_kept tags_table namespaces_table second (
          has-create_table_kept subtags_table namespaces_table first
            (has-create_table namespaces_table tables)),
      has-create_table_kept tags_table subtags_table second (has-create_table subtags_table first),
    )

schema_mode-HasTables :
    (tables columns : List Text)
    → HasTables tables
    → schema_mode tables columns
      ≡ mode_of true true true
          (has (codes "tag") columns)
          (has (codes "namespace_id") columns && has (codes "subtag_id") columns)
unfolding schema_mode HasTables
schema_mode-HasTables tables columns (a, b, c) = rw (a, b, c) refl

split_columns-split :
    mode_of true true true
      (has (codes "tag") split_columns)
      (has (codes "namespace_id") split_columns && has (codes "subtag_id") split_columns)
    ≡ ok schema_split
unfolding exists_row text_eq
split_columns-split = refl

columns_split :
    (b : Bool) (columns : List Text) (x y : Bool)
    → (mode_of b x y (has (codes "tag") (if b then columns else [])) (
          has (codes "namespace_id") (if b then columns else [])
          && has (codes "subtag_id") (if b then columns else []))
        ≡ ok schema_split)
      ⊎ (mode_of b x y (has (codes "tag") (if b then columns else [])) (
            has (codes "namespace_id") (if b then columns else [])
            && has (codes "subtag_id") (if b then columns else []))
          ≡ ok schema_empty)
    → mode_of true true true (has (codes "tag") (if b then columns else split_columns)) (
        has (codes "namespace_id") (if b then columns else split_columns)
        && has (codes "subtag_id") (if b then columns else split_columns))
      ≡ ok schema_split
columns_split true columns x y (inl h) = (mode_of-split true x y _ _ h).1
columns_split true columns x y (inr h) = absurd (true_is_not_empty x y _ _ h)
columns_split false columns x y h = split_columns-split

schema_mode-with_schema :
    (m : Master)
    → IsUsable m
    → schema_mode (with_schema m).tables (with_schema m).tag_columns ≡ ok schema_split
unfolding IsUsable schema_mode
schema_mode-with_schema m usable =
    schema_mode-HasTables (created_tables m.tables) (with_schema m).tag_columns
      (created_tables-HasTables m.tables)
    ∙ columns_split (has tags_table m.tables) m.tag_columns (has namespaces_table m.tables)
        (has subtags_table m.tables) usable

pub ensure_master_tag_schema_lem :
    (m : Master)
    → IsMaster m
    → IsUsable m
    → (ensure_master_tag_schema m ≡ ok (with_schema m))
      × Ready (with_schema m)
      × IsMaster (with_schema m)
      × Keeps m (with_schema m)
unfolding ensure_master_tag_schema IsMaster Ready HasTables
ensure_master_tag_schema_lem m (names, subs, pairs) usable =
    let (unique, keep, there) =
      insert_row_lem text_eq text_eq_sound text_eq_refl null_namespace_id [] m.namespaces names in
    let (a, b, c) = created_tables-HasTables m.tables in
    (
      if_last (not m.indexed) (has_duplicates m.tags) (with_schema m)
          (has_duplicates-IsUnique m.tags pairs),
      (refl, a, b, c, schema_mode-with_schema m usable, there),
      (unique, subs, pairs),
      tag_parts-Keeps m (with_schema m) keep (λ i k h. h) (λ i k h. h),
    )

-- Once the schema is there, writing it again changes nothing.
pub ensure_master_tag_schema-Ready : (m : Master) → Ready m → ensure_master_tag_schema m ≡ ok m
unfolding Ready ensure_master_tag_schema insert_row
ensure_master_tag_schema-Ready m (indexed, a, b, c, mode, there) =
    if_first m.indexed (has_duplicates m.tags) indexed
    ∙ ap ok (
        ap₂ (λ t k. remade t k true (insert_row text_eq null_namespace_id [] m.namespaces))
          (created_again m.tables a b c) (if_true (has tags_table m.tables) split_columns a)
        ∙ ap₂ (λ i n. remade m.tables m.tag_columns i n) (sym indexed) (if_true _ _ there))
  where
    remade : List Text → List Text → Bool → List (Row Text) → Master
    remade t k i n = record m { tables = t; tag_columns = k; indexed = i; namespaces = n }

    if_true : {A : Type 0} {x : A} (b : Bool) (y : A) → b ≡ true → (if b then x else y) ≡ x
    if_true b y h = rw h refl

    if_first :
        (i d : Bool)
        → i ≡ true
        → ◌≡◌ {A = Result IdError Master}
            (if not i && d then err index_not_created else ok (with_schema m))
            (ok (with_schema m))
    if_first i d h = rw h refl

    created_again :
        (tables : List Text)
        → has tags_table tables ≡ true
        → has namespaces_table tables ≡ true
        → has subtags_table tables ≡ true
        → created_tables tables ≡ tables
    created_again tables a b c = rw (b, c, a) refl
