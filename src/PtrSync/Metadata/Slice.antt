-- ===== src/PtrSync/Metadata/Slice.antt =====
-- The hashes that a slice of metadata names, and the rows that are made of them.
use hydrus_go.Base.{
  ℕ, ◌≡◌, refl, Bool, true, false, ◌||◌, Option, none, some, List, [], ◌∷◌, ◌++◌, ◌==◌, All, ◌⊎◌,
  inl, inr, ap, ◌∙◌, arith, if◌then◌else◌,
}
use hydrus_go.Base.Strings.{Text, text_eq, text_eq_refl}
use hydrus_go.Base.Results.{Result, ok, err}
use hydrus_go.Base.Maps.{Map}
use hydrus_go.Base.Int.{ℤ}
use hydrus_go.PtrSync.{SyncError, update_hash_missing, UpdateRow}
use hydrus_go.PtrSync.Tables.{exists_row}
use hydrus_go.PtrSync.Metadata.{MetadataUpdate, rows_of_update, update_rows, row_has}

-- The index under which a table has an update.
unfoldable pub find_index : ℕ → List UpdateRow → Option ℤ
find_index id [] = none
find_index id (row ∷ rows) =
    let rest = find_index id rows in if row.hash_id == id then some row.update_index else rest

abbrev pub first_of : Option ℤ → Option ℤ → Option ℤ
first_of none other = other
first_of (some index) other = some index

abbrev pub is_some : Option ℤ → Bool
is_some none = false
is_some (some index) = true

abbrev is_id : ℕ → Option ℕ → Bool
is_id id none = false
is_id id (some other) = other == id

-- Some of these hashes has the id.
abbrev pub names_id : Map ℕ → ℕ → List Text → Bool
names_id hash_ids id hashes = exists_row (λ hash. is_id id (hash_ids hash)) hashes

-- The index of the first update that names the id.
unfoldable pub named_index : Map ℕ → ℕ → List MetadataUpdate → Option ℤ
named_index hash_ids id [] = none
named_index hash_ids id (update ∷ updates) =
    let rest = named_index hash_ids id updates in
    if names_id hash_ids id update.update_hashes then some update.update_index else rest

abbrev pub IsKnown : Map ℕ → Text → Type 0
IsKnown hash_ids hash = (id : ℕ) × (hash_ids hash ≡ some id)

-- Every hash of the updates has an id.
abbrev pub AllKnown : Map ℕ → List MetadataUpdate → Type 0
AllKnown hash_ids updates = All (λ update. All (IsKnown hash_ids) update.update_hashes) updates

abbrev pub lists : Text → List MetadataUpdate → Bool
lists hash updates = exists_row (λ update. exists_row (text_eq hash) update.update_hashes) updates

first_of_assoc : (a b c : Option ℤ) → first_of (first_of a b) c ≡ first_of a (first_of b c)
first_of_assoc none b c = refl
first_of_assoc (some index) b c = refl

find_index-append :
    (id : ℕ) (xs ys : List UpdateRow)
    → find_index id (xs ++ ys) ≡ first_of (find_index id xs) (find_index id ys)
unfolding find_index
find_index-append id [] ys = refl
find_index-append id (x ∷ xs) ys =
    ap (λ o. if x.hash_id == id then some x.update_index else o) (find_index-append id xs ys)
    ∙ by_test (x.hash_id == id)
  where
    by_test :
        (b : Bool)
        → (if b then some x.update_index else first_of (find_index id xs) (find_index id ys))
          ≡ first_of (if b then some x.update_index else find_index id xs) (find_index id ys)
    by_test true = refl
    by_test false = refl

pub exists_row-find_index :
    (id : ℕ) (rows : List UpdateRow) → exists_row (row_has id) rows ≡ is_some (find_index id rows)
unfolding exists_row find_index
exists_row-find_index id [] = refl
exists_row-find_index id (row ∷ rows) =
    ap (λ b. (row.hash_id == id) || b) (exists_row-find_index id rows) ∙ by_test (row.hash_id == id)
  where
    by_test :
        (b : Bool)
        → (b || is_some (find_index id rows))
          ≡ is_some (if b then some row.update_index else find_index id rows)
    by_test true = refl
    by_test false = refl

-- The rows of one update, or the hash without an id.
Rows : Map ℕ → ℤ → List Text → Result SyncError (List UpdateRow) → Type 0
Rows hash_ids index hashes result =
    ((rows : List UpdateRow) × (result ≡ ok rows)
      × All (IsKnown hash_ids) hashes
      × ((id : ℕ)
          → find_index id rows ≡ (if names_id hash_ids id hashes then some index else none)))
    ⊎ ((hash : Text) × (exists_row (text_eq hash) hashes ≡ true)
        × (hash_ids hash ≡ none)
        × (result ≡ err (update_hash_missing hash)))

rows_of_update-Rows :
    (hash_ids : Map ℕ) (index : ℤ) (hashes : List Text)
    → Rows hash_ids index hashes (rows_of_update hash_ids index hashes)
unfolding Rows rows_of_update find_index exists_row
rows_of_update-Rows hash_ids index [] = inl ([], refl, tt, λ id. refl)
rows_of_update-Rows hash_ids index (hash ∷ hashes) =
    by_id (hash_ids hash) refl (rows_of_update-Rows hash_ids index hashes)
  where
    either :
        (a b : Bool)
        → (if a then some index else if b then some index else none)
          ≡ (if a || b then some index else none)
    either true b = refl
    either false b = refl

    by_id :
        (o : Option ℕ)
        → hash_ids hash ≡ o
        → Rows hash_ids index hashes (rows_of_update hash_ids index hashes)
        → Rows hash_ids index (hash ∷ hashes) (rows_of_update hash_ids index (hash ∷ hashes))
    by_id none e _ = inr (hash, rw (text_eq_refl hash) refl, e, rw e refl)
    by_id (some i) e (inl (rows, done, known, found)) = inl (
      record { update_index = index; hash_id = i } ∷ rows,
      rw (e, done) refl,
      ((i, e), known),
      λ id. rw (e, found id) (either (i == id) (names_id hash_ids id hashes)),
    )
    by_id (some i) e (inr (bad, there, missing, failed)) =
        inr (bad, ground (arith, there), missing, rw (e, failed) refl)

-- The rows of all updates, or the hash without an id.
unfoldable pub AllRows : Map ℕ → List MetadataUpdate → Result SyncError (List UpdateRow) → Type 0
AllRows hash_ids updates result =
    ((rows : List UpdateRow) × (result ≡ ok rows)
      × AllKnown hash_ids updates
      × ((id : ℕ) → find_index id rows ≡ named_index hash_ids id updates))
    ⊎ ((hash : Text) × (lists hash updates ≡ true)
        × (hash_ids hash ≡ none)
        × (result ≡ err (update_hash_missing hash)))

pub update_rows-AllRows :
    (hash_ids : Map ℕ) (updates : List MetadataUpdate)
    → AllRows hash_ids updates (update_rows hash_ids updates)
unfolding Rows AllRows update_rows find_index named_index exists_row
update_rows-AllRows hash_ids [] = inl ([], refl, tt, λ id. refl)
update_rows-AllRows hash_ids (update ∷ updates) =
    by_parts (rows_of_update-Rows hash_ids update.update_index update.update_hashes)
      (update_rows-AllRows hash_ids updates)
  where
    chosen :
        (b : Bool) (rest : Option ℤ)
        → first_of (if b then some update.update_index else none) rest
          ≡ (if b then some update.update_index else rest)
    chosen true rest = refl
    chosen false rest = refl

    by_parts :
        Rows hash_ids update.update_index update.update_hashes
          (rows_of_update hash_ids update.update_index update.update_hashes)
        → AllRows hash_ids updates (update_rows hash_ids updates)
        → AllRows hash_ids (update ∷ updates) (update_rows hash_ids (update ∷ updates))
    by_parts (inr (bad, there, missing, failed)) _ =
        inr (bad, rw there refl, missing, rw failed refl)
    by_parts (inl (first, made, known, found)) (inr (bad, there, missing, failed)) =
        inr (bad, ground (arith, there), missing, rw (made, failed) refl)
    by_parts (inl (first, made, known, found)) (inl (rest, made', known', found')) = inl (
      first ++ rest,
      rw (made, made') refl,
      (known, known'),
      λ id.
          find_index-append id first rest
          ∙ rw (found id, found' id)
              (chosen (names_id hash_ids id update.update_hashes)
                (named_index hash_ids id updates)),
    )
