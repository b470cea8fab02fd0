-- ===== src/Ids/Table/Laws.antt =====
-- What an id stands for, before and after a row was inserted.
use hydrus_go.Base.{
  ℕ, ◌≡◌, refl, Bool, true, false, ◌||◌, ◌==◌, Option, none, some, List, [], ◌∷◌, ◌++◌, inl, inr,
  Bool-cases, arith, sym, ◌∙◌, subst,
}
use hydrus_go.Base.Results.{ok}
use hydrus_go.PtrSync.Tables.{exists_row, exists_row-append}
use hydrus_go.Ids.Table.{
  Row, row, has_id, RowIds, find_key, has_key, find_id, insert_key, insert_row, ensure_found,
  ensure_key,
}

pub find_key-append :
    {K : Type 0} (i : ℕ) (k : K) (xs ys : List (Row K))
    → find_key i xs ≡ some k
    → find_key i (xs ++ ys) ≡ some k
unfolding find_key
find_key-append i k [] ys h = cc
find_key-append i k (x ∷ xs) ys h = ground (arith, find_key-append i k xs ys)

pub find_key-fresh :
    {K : Type 0} (i : ℕ) (k : K) (xs : List (Row K))
    → exists_row (has_id i) xs ≡ false
    → find_key i (xs ++ (row i k ∷ [])) ≡ some k
unfolding find_key exists_row
find_key-fresh i k [] h = ground arith
find_key-fresh i k (x ∷ xs) h = ground (arith, find_key-fresh i k xs)

module _ {K : Type 0} (same : K → K → Bool) where
  -- No two rows have the same id or the same key.
  unfoldable pub IsUnique : List (Row K) → Type 0
  IsUnique [] = Unit
  IsUnique (x ∷ xs) =
      (exists_row (has_id x.id) xs ≡ false)
      × (exists_row (has_key same x.key) xs ≡ false)
      × IsUnique xs

  -- What the insertion or finding of a key has done.
  abbrev pub Ensured : K → List (Row K) → ℕ × List (Row K) → Type 0
  Ensured k rows (i, after) =
      IsUnique after
      × (find_key i after ≡ some k)
      × (find_id same k after ≡ some i)
      × ((j : ℕ) (old : K) → find_key j rows ≡ some old → find_key j after ≡ some old)
      × ((test : Row K → Bool) → exists_row test rows ≡ true → exists_row test after ≡ true)

module _ {K : Type 0} (same : K → K → Bool) (same-sound : (a b : K) → same a b ≡ true → a ≡ b)
    (same-refl : (a : K) → same a a ≡ true) where
  exists_row-find_id :
      (k : K) (rows : List (Row K))
      → find_id same k rows ≡ none
      → exists_row (has_key same k) rows ≡ false
  unfolding exists_row find_id
  exists_row-find_id k [] h = refl
  exists_row-find_id k (x ∷ xs) h = ground (arith, exists_row-find_id k xs)

  find_id-exists :
      (k : K) (i : ℕ) (rows : List (Row K))
      → find_id same k rows ≡ some i
      → exists_row (has_id i) rows ≡ true
  unfolding exists_row find_id
  find_id-exists k i [] h = cc
  find_id-exists k i (x ∷ xs) h = ground (arith, find_id-exists k i xs)

  pub find_id-find_key :
      (k : K) (i : ℕ) (rows : List (Row K))
      → IsUnique same rows
      → find_id same k rows ≡ some i
      → find_key i rows ≡ some k
  unfolding IsUnique exists_row find_id find_key
  find_id-find_key k i [] unique h = cc
  find_id-find_key k i (x ∷ xs) (fresh, _, unique) h = elim (Bool-cases (same k x.key)) [
    | inl found ↦
        let at : x.id ≡ i = ground (arith, found) in
        let key : x.key ≡ k = sym (same-sound k x.key found) in ground (arith, at, key)
    | inr other ↦
        let below : find_id same k xs ≡ some i = ground (arith, other) in
        elsewhere (find_id-exists k i xs below) (find_id-find_key k i xs unique below)
  ]
    where
      elsewhere :
          exists_row (has_id i) xs ≡ true → find_key i xs ≡ some k → find_key i (x ∷ xs) ≡ some k
      elsewhere there found = elim (Bool-cases (i == x.id)) [
        | inl here ↦
            let at : i ≡ x.id = ground arith in
            cc (subst (λ j. exists_row (has_id j) xs ≡ true) at there, fresh)
        | inr not_here ↦ rw not_here found
      ]

  find_id-append :
      (k : K) (i : ℕ) (rows : List (Row K))
      → find_id same k rows ≡ none
      → find_id same k (rows ++ (row i k ∷ [])) ≡ some i
  unfolding find_id
  find_id-append k i [] h = ground (arith, same-refl k)
  find_id-append k i (x ∷ xs) h = ground (arith, find_id-append k i xs)

  same-other : (a b : K) → same a b ≡ false → same b a ≡ false
  same-other a b other = elim (Bool-cases (same b a)) [
    | inl found ↦
        cc (other, subst (λ c. same a c ≡ true) (sym (same-sound b a found)) (same-refl a))
    | inr h ↦ h
  ]

  IsUnique-append :
      (k : K) (i : ℕ) (rows : List (Row K))
      → exists_row (has_id i) rows ≡ false
      → exists_row (has_key same k) rows ≡ false
      → IsUnique same rows
      → IsUnique same (rows ++ (row i k ∷ []))
  unfolding IsUnique exists_row
  IsUnique-append k i [] no_id no_key unique = (refl, refl, tt)
  IsUnique-append k i (x ∷ xs) no_id no_key (id_fresh, key_fresh, unique) = (
    exists_row-append (has_id x.id) xs (row i k ∷ []) ∙ ground (arith, id_fresh),
    exists_row-append (has_key same x.key) xs (row i k ∷ [])
        ∙ ground (arith, key_fresh, same-other k x.key (ground arith)),
    IsUnique-append k i xs (ground arith) (ground arith) unique,
  )

  -- It always succeeds.
  pub ensure_key_lem :
      (r : RowIds) (k : K) (rows : List (Row K))
      → IsUnique same rows
      → (out : ℕ × List (Row K)) × (ensure_key same r k rows ≡ ok out) × Ensured same k rows out
  unfolding ensure_key insert_key
  ensure_key_lem r k rows unique = by_found (find_id same k rows) refl
    where
      by_found :
          (o : Option ℕ)
          → find_id same k rows ≡ o
          → (out : ℕ × List (Row K)) × (ensure_found same r k rows o ≡ ok out)
            × Ensured same k rows out
      by_found (some i) e = (
        (i, rows),
        refl,
        (unique, find_id-find_key k i rows unique e, e, λ j old h. h, λ test h. h),
      )
      by_found none e =
          let missing = exists_row-find_id k rows e in
          let id = r.next rows in
          let fresh = r.next-fresh rows in
          (
            (id, rows ++ (row id k ∷ [])),
            rw (missing, find_id-append k id rows e) refl,
            (
              IsUnique-append k id rows fresh missing unique,
              find_key-fresh id k rows fresh,
              find_id-append k id rows e,
              λ j old h. find_key-append j old rows (row id k ∷ []) h,
              λ test h. exists_row-append test rows (row id k ∷ []) ∙ rw h refl,
            ),
          )

  pub insert_row_lem :
      (i : ℕ) (k : K) (rows : List (Row K))
      → IsUnique same rows
      → IsUnique same (insert_row same i k rows)
        × ((j : ℕ) (old : K)
            → find_key j rows ≡ some old
            → find_key j (insert_row same i k rows) ≡ some old)
        × ((exists_row (has_id i) (insert_row same i k rows)
              || exists_row (has_key same k) (insert_row same i k rows))
            ≡ true)
  unfolding insert_row exists_row
  insert_row_lem i k rows unique =
      elim (Bool-cases (exists_row (has_id i) rows || exists_row (has_key same k) rows)) [
        | inl there ↦ rw there (unique, λ j old h. h, there)
        | inr missing ↦ rw missing (
          IsUnique-append k i rows (ground (arith, missing)) (ground (arith, missing)) unique,
          λ j old h. find_key-append j old rows (row i k ∷ []) h,
          ground (arith, exists_row-append (has_id i) rows (row i k ∷ [])),
        )
      ]

  -- A key that has an id is found and not inserted.
  pub ensure_key-found :
      (r : RowIds) (k : K) (i : ℕ) (rows : List (Row K))
      → find_id same k rows ≡ some i
      → ensure_key same r k rows ≡ ok (i, rows)
  unfolding ensure_key
  ensure_key-found r k i rows h = rw h refl
