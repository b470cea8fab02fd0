-- ===== src/PtrSync/Tables.antt =====
-- The SQL statements of ptrsync.go on a table as a list of rows, and what they do to the rows that
-- a later statement asks for.
use hydrus_go.Base.{
  ℕ, suc, ◌≤◌, ◌≡◌, refl, Bool, true, false, ◌||◌, List, [], ◌∷◌, ◌++◌, if◌then◌else◌, length,
  arith,
}

module _ {ℓ} {A : Type ℓ} where
  -- SELECT 1 ... WHERE test
  unfoldable pub exists_row : (A → Bool) → List A → Bool
  exists_row test [] = false
  exists_row test (row ∷ rows) = test row || exists_row test rows

  -- SELECT COUNT(*) ... WHERE test
  unfoldable pub count_where : (A → Bool) → List A → ℕ
  count_where test [] = 0
  count_where test (row ∷ rows) =
      let rest = count_where test rows in if test row then suc rest else rest

  -- DELETE ... WHERE test
  unfoldable pub delete_where : (A → Bool) → List A → List A
  delete_where test [] = []
  delete_where test (row ∷ rows) =
      let rest = delete_where test rows in if test row then rest else row ∷ rest

  -- UPDATE ... SET set WHERE test
  unfoldable pub update_where : (A → Bool) → (A → A) → List A → List A
  update_where test set [] = []
  update_where test set (row ∷ rows) =
      (if test row then set row else row) ∷ update_where test set rows

  -- INSERT OR IGNORE, for rows that are the same if `same` says so.
  unfoldable pub insert_or_ignore : (A → A → Bool) → A → List A → List A
  insert_or_ignore same row rows = if exists_row (same row) rows then rows else rows ++ (row ∷ [])

  pub exists_row-append :
      (test : A → Bool) (xs ys : List A)
      → exists_row test (xs ++ ys) ≡ (exists_row test xs || exists_row test ys)
  unfolding exists_row
  exists_row-append test [] ys = refl
  exists_row-append test (x ∷ xs) ys = ground (arith, exists_row-append test xs ys)

  pub exists_row-delete_where :
      (test drop : A → Bool) (rows : List A)
      → ((row : A) → test row ≡ true → drop row ≡ true)
      → exists_row test (delete_where drop rows) ≡ false
  unfolding exists_row delete_where
  exists_row-delete_where test drop [] all = refl
  exists_row-delete_where test drop (row ∷ rows) all =
      ground (arith, all row, exists_row-delete_where test drop rows all)

  pub exists_row-delete_other :
      (test drop : A → Bool) (rows : List A)
      → ((row : A) → test row ≡ true → drop row ≡ false)
      → exists_row test (delete_where drop rows) ≡ exists_row test rows
  unfolding exists_row delete_where
  exists_row-delete_other test drop [] none_of = refl
  exists_row-delete_other test drop (row ∷ rows) none_of =
      ground (arith, none_of row, exists_row-delete_other test drop rows none_of)

  pub count_where-update_where_le :
      (test which : A → Bool) (set : A → A) (rows : List A)
      → ((row : A) → test row ≡ true → test (set row) ≡ true)
      → count_where test rows ≤ count_where test (update_where which set rows)
  unfolding count_where update_where
  count_where-update_where_le test which set [] keeps = omega arith
  count_where-update_where_le test which set (row ∷ rows) keeps =
      ground (arith, keeps row, count_where-update_where_le test which set rows keeps)

  pub length-update_where :
      (which : A → Bool) (set : A → A) (rows : List A)
      → length (update_where which set rows) ≡ length rows
  unfolding update_where
  length-update_where which set [] = refl
  length-update_where which set (row ∷ rows) = omega (arith, length-update_where which set rows)
