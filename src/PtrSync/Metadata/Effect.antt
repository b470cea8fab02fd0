-- ===== src/PtrSync/Metadata/Effect.antt =====
-- What a slice of metadata does to each update hash.
use hydrus_go.Base.{
  Option, none, some, ◌⊎◌, sym, if◌then◌else◌, ◌++◌, ℕ, ◌≡◌, refl, Bool, true, false, not, ◌&&◌,
  ◌||◌, List, [], ◌∷◌, ◌==◌, ap, ◌∙◌, Bool-cases, inl, inr, arith, if_elim, ==_iff,
}
use hydrus_go.Base.Strings.{Text}
use hydrus_go.Base.Results.{Result, ok, err}
use hydrus_go.Base.Maps.{Map}
use hydrus_go.Base.Int.{ℤ}
use hydrus_go.PtrSync.{SyncError, update_hash_missing, UpdateRow, ProcessedRow, Store}
use hydrus_go.PtrSync.Tables.{
  exists_row, insert_or_ignore, exists_row-append, exists_row-delete_where, exists_row-delete_other,
}
use hydrus_go.PtrSync.Metadata.{
  MetadataUpdate, same_hash, same_id, row_has, processed_has, is_stale, prune_processed, cleared,
  insert_updates, insert_unregistered, inserted_rows, apply_repository_metadata,
}
use hydrus_go.PtrSync.Report.{next_update_index}
use hydrus_go.PtrSync.Metadata.Slice.{
  find_index, first_of, is_some, named_index, AllKnown, lists, AllRows, exists_row-find_index,
  update_rows-AllRows,
}

-- Where an update hash stands: its index if it is an update, whether it waits for its download, and
-- whether it has a processed row.
pub record Place : Type 0 where
  pub update_index : Option ℤ
  pub is_unregistered : Bool
  pub is_processed : Bool

abbrev pub place : ℕ → Store → Place
place id s = record {
  update_index = find_index id s.repository_updates;
  is_unregistered = exists_row (λ other. other == id) s.unregistered;
  is_processed = exists_row (processed_has id) s.processed;
}

eq_sound : (a b : ℕ) → (a == b) ≡ true → a ≡ b
eq_sound a b h = (==_iff a b).0 h

or_swap : (a b : Bool) → (a || (b || false)) ≡ (b || a)
or_swap a b = ground arith

absorb : (a b : Bool) → (a ≡ true → b ≡ true) → b ≡ (a || b)
absorb true b h = h refl
absorb false b h = refl

-- INSERT OR IGNORE adds what it inserts, if rows that are the same agree on the test.
exists-insert :
    {A : Type 0} (same : A → A → Bool) (test : A → Bool) (row : A) (rows : List A)
    → (test row ≡ true → exists_row (same row) rows ≡ true → exists_row test rows ≡ true)
    → exists_row test (insert_or_ignore same row rows) ≡ (test row || exists_row test rows)
unfolding insert_or_ignore exists_row
exists-insert same test row rows agree =
    if_elim (λ l. exists_row test l ≡ (test row || exists_row test rows))
      (exists_row (same row) rows) _ _
      (λ there. absorb (test row) (exists_row test rows) (λ h. agree h there))
      (λ _. exists_row-append test rows (row ∷ []) ∙ or_swap (exists_row test rows) (test row))

exists_row-implies :
    {A : Type 0} (test other : A → Bool) (rows : List A)
    → ((row : A) → test row ≡ true → other row ≡ true)
    → exists_row test rows ≡ true
    → exists_row other rows ≡ true
unfolding exists_row
exists_row-implies test other [] all h = cc
exists_row-implies test other (row ∷ rows) all h = elim (Bool-cases (test row)) [
  | inl e ↦ rw (all row e) refl
  | inr e ↦ ground (arith, exists_row-implies test other rows all (rw e at h))
]

find_index-append :
    (id : ℕ) (table : List UpdateRow) (row : UpdateRow)
    → find_index id (table ++ (row ∷ []))
      ≡ first_of (find_index id table) (if row.hash_id == id then some row.update_index else none)
unfolding find_index
find_index-append id [] row = refl
find_index-append id (x ∷ xs) row =
    ap (λ o. if x.hash_id == id then some x.update_index else o) (find_index-append id xs row)
    ∙ by_test (x.hash_id == id)
  where
    by_test :
        (b : Bool)
        → (if b
            then some x.update_index
            else first_of
                (find_index id xs)
                (if row.hash_id == id then some row.update_index else none))
          ≡ first_of
              (if b then some x.update_index else find_index id xs)
              (if row.hash_id == id then some row.update_index else none)
    by_test true = refl
    by_test false = refl

-- INSERT OR IGNORE gives a hash an index only if it has none.
find_index-insert :
    (id : ℕ) (row : UpdateRow) (table : List UpdateRow)
    → find_index id (insert_or_ignore same_hash row table)
      ≡ first_of (find_index id table) (if row.hash_id == id then some row.update_index else none)
unfolding insert_or_ignore
find_index-insert id row table =
    if_elim
      (λ l.
        find_index id l
        ≡ first_of (find_index id table)
            (if row.hash_id == id then some row.update_index else none))
      (exists_row (same_hash row) table) _ _
      (λ there. ignored (row.hash_id == id) (find_index id table) (λ same.
        sym (exists_row-find_index id table)
        ∙ exists_row-implies (same_hash row) (row_has id) table
            (λ r e. ground (arith, eq_sound row.hash_id id same)) there))
      (λ _. find_index-append id table row)
  where
    ignored :
        (b : Bool) (o : Option ℤ)
        → (b ≡ true → is_some o ≡ true)
        → o ≡ first_of o (if b then some row.update_index else none)
    ignored b (some index) h = refl
    ignored false none h = refl
    ignored true none h = let taken = h refl in cc

find_index-insert_updates :
    (id : ℕ) (rows table : List UpdateRow)
    → find_index id (insert_updates rows table)
      ≡ first_of (find_index id table) (find_index id rows)
unfolding insert_updates find_index
find_index-insert_updates id [] table = nothing (find_index id table)
  where
    nothing : (o : Option ℤ) → o ≡ first_of o none
    nothing none = refl
    nothing (some index) = refl
find_index-insert_updates id (row ∷ rows) table =
    find_index-insert_updates id rows (insert_or_ignore same_hash row table)
    ∙ ap (λ o. first_of o (find_index id rows)) (find_index-insert id row table)
    ∙ nested (find_index id table) (row.hash_id == id)
  where
    nested :
        (o : Option ℤ) (b : Bool)
        → first_of (first_of o (if b then some row.update_index else none)) (find_index id rows)
          ≡ first_of o (if b then some row.update_index else find_index id rows)
    nested none true = refl
    nested none false = refl
    nested (some index) b = refl

exists-insert_unregistered :
    (id : ℕ) (rows : List UpdateRow) (table : List ℕ)
    → exists_row (λ other. other == id) (insert_unregistered rows table)
      ≡ (exists_row (row_has id) rows || exists_row (λ other. other == id) table)
unfolding insert_unregistered exists_row
exists-insert_unregistered id [] table = refl
exists-insert_unregistered id (row ∷ rows) table =
    exists-insert_unregistered id rows (insert_or_ignore same_id row.hash_id table)
    ∙ ap (λ b. exists_row (row_has id) rows || b)
        (exists-insert same_id (λ other. other == id) row.hash_id table
          (λ h there.
            exists_row-implies (same_id row.hash_id) (λ other. other == id) table
              (λ r e. ground (arith, eq_sound row.hash_id id h)) there))
    ∙ shuffle (exists_row (row_has id) rows) (row_has id row)
        (exists_row (λ other. other == id) table)
  where
    shuffle : (a b c : Bool) → (a || (b || c)) ≡ ((b || a) || c)
    shuffle a b c = ground arith

-- Pruning keeps the processed rows of the hashes that are named.
exists-prune_processed :
    (id : ℕ) (rows : List UpdateRow) (processed : List ProcessedRow)
    → exists_row (processed_has id) (prune_processed rows processed)
      ≡ (exists_row (row_has id) rows && exists_row (processed_has id) processed)
unfolding prune_processed exists_row
exists-prune_processed id [] processed = refl
exists-prune_processed id (first ∷ rest) processed =
    elim (Bool-cases (exists_row (row_has id) (first ∷ rest))) [
      | inl named ↦ rw named (
          exists_row-delete_other (processed_has id) (is_stale (first ∷ rest)) processed
            (λ row h. ap not (kept row h ∙ named)))
      | inr unnamed ↦ rw unnamed (
          exists_row-delete_where (processed_has id) (is_stale (first ∷ rest)) processed
            (λ row h. ap not (kept row h ∙ unnamed)))
    ]
  where
    kept :
        (row : ProcessedRow)
        → processed_has id row ≡ true
        → exists_row (row_has row.hash_id) (first ∷ rest) ≡ exists_row (row_has id) (first ∷ rest)
    kept row h = ap (λ i. exists_row (row_has i) (first ∷ rest)) (eq_sound row.hash_id id h)

-- What becomes of a hash that the slice names with an index, or does not name.
abbrev pub placed : Bool → Option ℤ → Place → Place
placed replace named before = record {
  update_index = first_of (if replace then none else before.update_index) named;
  is_unregistered = is_some named || (not replace && before.is_unregistered);
  is_processed = (not replace || is_some named) && before.is_processed;
}

place_ext :
    {o o' : Option ℤ} {b c b' c' : Bool}
    → o ≡ o'
    → b ≡ b'
    → c ≡ c'
    → ◌≡◌ {A = Place}
        (record { update_index = o; is_unregistered = b; is_processed = c })
        (record { update_index = o'; is_unregistered = b'; is_processed = c' })
place_ext ho hb hc = cc

place-inserted_rows :
    (id : ℕ) (replace : Bool) (rows : List UpdateRow) (s : Store)
    → place id (inserted_rows rows (cleared replace rows s))
      ≡ placed replace (find_index id rows) (place id s)
unfolding exists_row find_index
place-inserted_rows id true rows s =
    place_ext (find_index-insert_updates id rows [])
      (exists-insert_unregistered id rows [] ∙ ap (λ b. b || false) (exists_row-find_index id rows))
      (exists-prune_processed id rows s.processed
        ∙ ap (λ b. b && exists_row (processed_has id) s.processed) (exists_row-find_index id rows))
place-inserted_rows id false rows s =
    place_ext (find_index-insert_updates id rows s.repository_updates)
      (exists-insert_unregistered id rows s.unregistered
        ∙ ap (λ b. b || exists_row (λ other. other == id) s.unregistered)
            (exists_row-find_index id rows))
      refl

-- What a slice with an id for each of its hashes does to every hash; the other tables stay.
abbrev pub IsApplied :
    Map ℕ → List MetadataUpdate → Bool → Store → Result SyncError (ℤ × Store) → Type 0
IsApplied hash_ids updates replace s result =
    (out : ℤ × Store) × (result ≡ ok out)
    × AllKnown hash_ids updates
    × ((id : ℕ) → place id out.1 ≡ placed replace (named_index hash_ids id updates) (place id s))
    × (out.1 ≡ record s {
      repository_updates = out.1.repository_updates;
      unregistered = out.1.unregistered;
      processed = out.1.processed;
    })

-- What one returns that names a hash without an id.
abbrev pub IsMissing : Map ℕ → List MetadataUpdate → Result SyncError (ℤ × Store) → Type 0
IsMissing hash_ids updates result =
    (hash : Text) × (lists hash updates ≡ true)
    × (hash_ids hash ≡ none)
    × (result ≡ err (update_hash_missing hash))

inserted_rows-rest :
    (replace : Bool) (rows : List UpdateRow) (s : Store)
    → inserted_rows rows (cleared replace rows s) ≡ record s {
      repository_updates = (inserted_rows rows (cleared replace rows s)).repository_updates;
      unregistered = (inserted_rows rows (cleared replace rows s)).unregistered;
      processed = (inserted_rows rows (cleared replace rows s)).processed;
    }
inserted_rows-rest true rows s = refl
inserted_rows-rest false rows s = refl

-- `applyPTRRepositoryMetadata` fails with a hash of the slice that has no id, or every hash of the
-- slice has one. Then every hash that the slice names waits for its download and is an update, with
-- the index that it had or else that of the first update of the slice that names it. A slice that
-- replaces the metadata forgets the index that it had, every other update, waiting hash and processed
-- row; one that does not leaves them. Neither adds a processed row, and the other tables stay.
pub apply_repository_metadata_lem :
    (hash_ids : Map ℕ) (updates : List MetadataUpdate) (replace : Bool) (s : Store)
    → IsApplied hash_ids updates replace s (apply_repository_metadata hash_ids updates replace s)
      ⊎ IsMissing hash_ids updates (apply_repository_metadata hash_ids updates replace s)
unfolding apply_repository_metadata AllRows
apply_repository_metadata_lem hash_ids updates replace s =
    elim (update_rows-AllRows hash_ids updates) [
      | inl (rows, made, known, found) ↦ inl (
          rw made (
            (
              next_update_index (inserted_rows rows (cleared replace rows s)).repository_updates,
              inserted_rows rows (cleared replace rows s),
            ),
            refl,
            known,
            λ id.
                place-inserted_rows id replace rows s
                ∙ ap (λ o. placed replace o (place id s)) (found id),
            inserted_rows-rest replace rows s,
          ))
      | inr (hash, there, missing, failed) ↦ inr (hash, there, missing, rw failed refl)
    ]
