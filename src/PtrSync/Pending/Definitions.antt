-- ===== src/PtrSync/Pending/Definitions.antt =====
-- Which content updates succeed, and that no change of the mapping tables defines an id anew.
use hydrus_go.Base.{
  ℕ, ◌≡◌, refl, Bool, true, false, ◌&&◌, List, [], ◌∷◌, ap, sym, ◌∙◌, if_elim, length, ◌==◌,
}
use hydrus_go.Base.Results.{Result, ok, err, ◌>>=◌}
use hydrus_go.PtrSync.{SyncError, Mapping, Store}
use hydrus_go.PtrSync.Tables.{exists_row}
use hydrus_go.PtrSync.Mappings.{
  UpdatedMappings, MappingsUpdate, mapping, mapping_eq, normalize_mapping_row, add_mapping,
  delete_mapping, change_all, change_rows, apply_mappings,
}
use hydrus_go.PtrSync.Mappings.Tables.{added, removed, add_mapping-Changes, delete_mapping-Changes}
use hydrus_go.PtrSync.Mappings.Effect.{
  SameDefinitions, standing-change_rows, add_mapping-definitions, delete_mapping-definitions,
}
use hydrus_go.PtrSync.Pending.{stage_mapping, stage_hashes, stage_tags, commit_pending}
use hydrus_go.PtrSync.Pending.History.{Change, update, stage, commit, or_before, make}

abbrev pub is_ok {ℓ} : {A : Type ℓ} → Result SyncError A → Bool
is_ok (ok a) = true
is_ok (err e) = false

-- Every id of the rows is defined.
abbrev pub resolves : Store → List UpdatedMappings → Bool
resolves s [] = true
resolves s (row ∷ rows) = is_ok (normalize_mapping_row s row) && resolves s rows

pub resolves-same :
    (s t : Store) (rows : List UpdatedMappings)
    → SameDefinitions s t
    → resolves t rows ≡ resolves s rows
resolves-same s t [] same = refl
resolves-same s t (row ∷ rows) same = rw (same row, resolves-same s t rows same) refl

-- Rows are changed exactly if their ids are defined.
module _ (change : Mapping → Store → Store)
    (kept : (n : Mapping) (s : Store) → SameDefinitions s (change n s)) where
  change_all-definitions :
      (tag_id : ℕ) (hash_ids : List ℕ) (s : Store)
      → SameDefinitions s (change_all change tag_id hash_ids s)
  unfolding change_all
  change_all-definitions tag_id [] s row = refl
  change_all-definitions tag_id (hash_id ∷ hash_ids) s row =
      change_all-definitions tag_id hash_ids (change (mapping tag_id hash_id) s) row
      ∙ kept (mapping tag_id hash_id) s row

  is_ok-change_rows :
      (rows : List UpdatedMappings) (s : Store)
      → is_ok (change_rows change rows s) ≡ resolves s rows
  unfolding change_rows
  is_ok-change_rows [] s = refl
  is_ok-change_rows (row ∷ rows) s =
      by_row (normalize_mapping_row s row) (λ t. is_ok-change_rows rows t)
    where
      by_row :
          (r : Result SyncError (ℕ × List ℕ))
          → ((t : Store) → is_ok (change_rows change rows t) ≡ resolves t rows)
          → is_ok (r >>= λ p. change_rows change rows (change_all change p.0 p.1 s))
            ≡ (is_ok r && resolves s rows)
      by_row (err e) rest = refl
      by_row (ok p) rest =
          rest (change_all change p.0 p.1 s)
          ∙ resolves-same s (change_all change p.0 p.1 s) rows (change_all-definitions p.0 p.1 s)

-- What adding and deleting rows leaves of the definitions.
added_rows-definitions :
    (rows : List UpdatedMappings) (s after : Store)
    → change_rows add_mapping rows s ≡ ok after
    → SameDefinitions s after
added_rows-definitions rows s after h =
    (standing-change_rows add_mapping added add_mapping-Changes (λ w. refl) add_mapping-definitions
      (mapping 0 0) rows s after h).1

deleted_rows-definitions :
    (rows : List UpdatedMappings) (s after : Store)
    → change_rows delete_mapping rows s ≡ ok after
    → SameDefinitions s after
deleted_rows-definitions rows s after h =
    (standing-change_rows delete_mapping removed delete_mapping-Changes (λ w. refl)
      delete_mapping-definitions (mapping 0 0) rows s after h).1

-- A content update succeeds exactly if every id of its adds and of its deletes is defined, and leaves
-- the definitions as they are.
pub is_ok-apply_mappings :
    (u : MappingsUpdate) (s : Store)
    → is_ok (apply_mappings u s) ≡ (resolves s u.adds && resolves s u.deletes)
unfolding apply_mappings
is_ok-apply_mappings u s =
    by_adds (change_rows add_mapping u.adds s) refl
      (is_ok-change_rows add_mapping add_mapping-definitions u.adds s)
  where
    by_adds :
        (r : Result SyncError Store)
        → change_rows add_mapping u.adds s ≡ r
        → is_ok r ≡ resolves s u.adds
        → is_ok (r >>= change_rows delete_mapping u.deletes)
          ≡ (resolves s u.adds && resolves s u.deletes)
    by_adds (err e) h k = rw (sym k) refl
    by_adds (ok middle) h k =
        is_ok-change_rows delete_mapping delete_mapping-definitions u.deletes middle
        ∙ resolves-same s middle u.deletes (added_rows-definitions u.adds s middle h)
        ∙ ap (λ b. b && resolves s u.deletes) k

apply_mappings-definitions :
    (u : MappingsUpdate) (s after : Store) → apply_mappings u s ≡ ok after → SameDefinitions s after
unfolding apply_mappings
apply_mappings-definitions u s after h row = by_adds (change_rows add_mapping u.adds s) refl h
  where
    by_adds :
        (r : Result SyncError Store)
        → change_rows add_mapping u.adds s ≡ r
        → (r >>= change_rows delete_mapping u.deletes) ≡ ok after
        → normalize_mapping_row after row ≡ normalize_mapping_row s row
    by_adds (err e) a d = cc
    by_adds (ok middle) a d =
        deleted_rows-definitions u.deletes middle after d row
        ∙ added_rows-definitions u.adds s middle a row

stage_mapping-definitions :
    (m : Mapping) (p : ℕ × Store) → SameDefinitions p.1 (stage_mapping m p).1
unfolding normalize_mapping_row
stage_mapping-definitions m p row =
    if_elim {A = ℕ × Store}
      (λ (q : ℕ × Store). normalize_mapping_row q.1 row ≡ normalize_mapping_row p.1 row)
      (exists_row (mapping_eq m) p.1.current_mappings) _ _ (λ _. refl) (λ _. refl)

stage_hashes-definitions :
    (tag_id : ℕ) (hash_ids : List ℕ) (p : ℕ × Store)
    → SameDefinitions p.1 (stage_hashes tag_id hash_ids p).1
unfolding stage_hashes
stage_hashes-definitions tag_id [] p row = refl
stage_hashes-definitions tag_id (hash_id ∷ hash_ids) p row =
    stage_hashes-definitions tag_id hash_ids (stage_mapping (mapping tag_id hash_id) p) row
    ∙ stage_mapping-definitions (mapping tag_id hash_id) p row

stage_tags-definitions :
    (tag_ids hash_ids : List ℕ) (p : ℕ × Store)
    → SameDefinitions p.1 (stage_tags tag_ids hash_ids p).1
unfolding stage_tags
stage_tags-definitions [] hash_ids p row = refl
stage_tags-definitions (tag_id ∷ tag_ids) hash_ids p row =
    stage_tags-definitions tag_ids hash_ids (stage_hashes tag_id hash_ids p) row
    ∙ stage_hashes-definitions tag_id hash_ids p row

commit_pending-definitions : (s : Store) → SameDefinitions s (commit_pending s).1
unfolding commit_pending normalize_mapping_row
commit_pending-definitions s row =
    if_elim {A = ℕ × Store}
      (λ (q : ℕ × Store). normalize_mapping_row q.1 row ≡ normalize_mapping_row s row)
      (length s.pending_mappings == 0) _ _ (λ _. refl) (λ _. refl)

or_before-definitions :
    (u : MappingsUpdate) (s : Store) (r : Result SyncError Store)
    → apply_mappings u s ≡ r
    → SameDefinitions s (or_before s r)
or_before-definitions u s (err e) h row = refl
or_before-definitions u s (ok after) h row = apply_mappings-definitions u s after h row

pub make-definitions : (c : Change) (s : Store) → SameDefinitions s (make c s)
unfolding make
make-definitions (update u) s = or_before-definitions u s (apply_mappings u s) refl
make-definitions (stage tag_ids hash_ids) s = stage_tags-definitions tag_ids hash_ids (0, s)
make-definitions commit s = commit_pending-definitions s
