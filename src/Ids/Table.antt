-- ===== src/Ids/Table.antt =====
-- A table with an INTEGER PRIMARY KEY and a UNIQUE key, as tag_ids.go reads and extends it.
pub mod Laws
use hydrus_go.Base.{
  ℕ, ◌≡◌, Bool, true, false, ◌||◌, ◌==◌, Option, none, some, List, [], ◌∷◌, ◌++◌, if◌then◌else◌,
}
use hydrus_go.Base.Results.{Result, ok, err}
use hydrus_go.PtrSync.Tables.{exists_row}

pub record Row (K : Type 0) : Type 0 where
  pub id : ℕ
  pub key : K

abbrev pub row : {K : Type 0} → ℕ → K → Row K
row i k = record { id = i; key = k }

abbrev pub has_id : {K : Type 0} → ℕ → Row K → Bool
has_id i x = i == x.id

-- The ids that SQLite gives to rows that are inserted without one: an id that no row has.
pub record RowIds : Type 1 where
  pub next : {K : Type 0} → List (Row K) → ℕ
  pub next-fresh : {K : Type 0} (rows : List (Row K)) → exists_row (has_id (next rows)) rows ≡ false

-- SELECT key FROM ... WHERE id = ?
unfoldable pub find_key : {K : Type 0} → ℕ → List (Row K) → Option K
find_key i [] = none
find_key i (x ∷ xs) = let rest = find_key i xs in if i == x.id then some x.key else rest

pub data IdError : Type 0 where
  empty_tag_given : IdError
  read_only : IdError
  schema_incompatible : IdError
  schema_flat : IdError
  index_not_created : IdError
  row_not_readable : IdError
  invalid_hash : List ℕ → IdError

-- `same` is the equality of the key in SQL.
module _ {K : Type 0} (same : K → K → Bool) where
  abbrev pub has_key : K → Row K → Bool
  has_key k x = same k x.key

  -- SELECT id FROM ... WHERE key = ?
  unfoldable pub find_id : K → List (Row K) → Option ℕ
  find_id k [] = none
  find_id k (x ∷ xs) = let rest = find_id k xs in if same k x.key then some x.id else rest

  -- INSERT OR IGNORE INTO ... (key) VALUES (?)
  unfoldable pub insert_key : RowIds → K → List (Row K) → List (Row K)
  insert_key r k rows =
      if exists_row (has_key k) rows then rows else rows ++ (row (r.next rows) k ∷ [])

  -- INSERT OR IGNORE INTO ... (id, key) VALUES (?, ?)
  unfoldable pub insert_row : ℕ → K → List (Row K) → List (Row K)
  insert_row i k rows =
      if exists_row (has_id i) rows || exists_row (has_key k) rows
      then rows
      else rows ++ (row i k ∷ [])

  abbrev pub readable : Option ℕ → List (Row K) → Result IdError (ℕ × List (Row K))
  readable none rows = err row_not_readable
  readable (some i) rows = ok (i, rows)

  abbrev pub ensure_found : RowIds → K → List (Row K) → Option ℕ → Result IdError (ℕ × List (Row K))
  ensure_found r k rows (some i) = ok (i, rows)
  ensure_found r k rows none = readable (find_id k (insert_key r k rows)) (insert_key r k rows)

  -- The id of the row with the key, which is inserted if there is none.
  unfoldable pub ensure_key : RowIds → K → List (Row K) → Result IdError (ℕ × List (Row K))
  ensure_key r k rows = ensure_found r k rows (find_id k rows)
