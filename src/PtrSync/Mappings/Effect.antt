-- ===== src/PtrSync/Mappings/Effect.antt =====
-- What a content update does to each mapping, whatever the order of its rows.
use hydrus_go.Base.{
  ℕ, ◌≡◌, refl, Bool, true, false, ◌||◌, List, [], ◌∷◌, ap, sym, subst, ◌∙◌, if◌then◌else◌, ap₂,
}
use hydrus_go.Base.Results.{Result, ok, err, >>=-eq-ok}
use hydrus_go.PtrSync.{SyncError, Mapping, Store}
use hydrus_go.PtrSync.Transactions.{ok-injective}
use hydrus_go.PtrSync.Tables.{exists_row}
use hydrus_go.PtrSync.Mappings.{
  UpdatedMappings, MappingsUpdate, mapping_eq, mapping, normalize_mapping_row, add_mapping,
  delete_mapping, change_all, change_rows, apply_mappings,
}
use hydrus_go.PtrSync.Mappings.Tables.{
  Standing, standing, added, removed, Changes, add_mapping-Changes, delete_mapping-Changes,
}

-- The mappings that a row of an update names, and those that its rows name.
abbrev pub names_in : ℕ → List ℕ → Mapping → Bool
names_in tag_id hash_ids m = exists_row (λ hash_id. mapping_eq m (mapping tag_id hash_id)) hash_ids

abbrev pub names_result : Result SyncError (ℕ × List ℕ) → Mapping → Bool
names_result (err e) m = false
names_result (ok (tag_id, hash_ids)) m = names_in tag_id hash_ids m

abbrev pub names : Store → List UpdatedMappings → Mapping → Bool
names s rows m = exists_row (λ row. names_result (normalize_mapping_row s row) m) rows

-- The stores define the same ids of the service.
abbrev pub SameDefinitions : Store → Store → Type 0
SameDefinitions s t =
    (row : UpdatedMappings) → normalize_mapping_row t row ≡ normalize_mapping_row s row

pub names-same :
    (s t : Store) (rows : List UpdatedMappings) (m : Mapping)
    → SameDefinitions s t
    → names t rows m ≡ names s rows m
unfolding exists_row
names-same s t [] m same = refl
names-same s t (row ∷ rows) m same =
    ap₂ (λ a b. a || b) (ap (λ r. names_result r m) (same row)) (names-same s t rows m same)

pub twice :
    (effect : Standing → Standing) (a b : Bool) (v : Standing)
    → ((w : Standing) → effect (effect w) ≡ effect w)
    → (if b then effect (if a then effect v else v) else (if a then effect v else v))
      ≡ (if a || b then effect v else v)
twice effect true true v again = again v
twice effect true false v again = refl
twice effect false true v again = refl
twice effect false false v again = refl

module _ (change : Mapping → Store → Store) (effect : Standing → Standing)
    (changes : Changes change effect) (again : (w : Standing) → effect (effect w) ≡ effect w)
    (same_definitions : (n : Mapping) (s : Store) (row : UpdatedMappings)
      → normalize_mapping_row (change n s) row ≡ normalize_mapping_row s row) where
  standing-change_all :
      (m : Mapping) (tag_id : ℕ) (hash_ids : List ℕ) (s : Store)
      → standing m (change_all change tag_id hash_ids s)
        ≡ (if names_in tag_id hash_ids m then effect (standing m s) else standing m s)
  unfolding change_all exists_row
  standing-change_all m tag_id [] s = refl
  standing-change_all m tag_id (hash_id ∷ hash_ids) s =
      standing-change_all m tag_id hash_ids (change (mapping tag_id hash_id) s)
      ∙ ap (λ v. if names_in tag_id hash_ids m then effect v else v)
          (changes m (mapping tag_id hash_id) s)
      ∙ twice effect (mapping_eq m (mapping tag_id hash_id)) (names_in tag_id hash_ids m)
          (standing m s) again

  normalize-change_all :
      (tag_id : ℕ) (hash_ids : List ℕ) (s : Store) (row : UpdatedMappings)
      → normalize_mapping_row (change_all change tag_id hash_ids s) row
        ≡ normalize_mapping_row s row
  unfolding change_all
  normalize-change_all tag_id [] s row = refl
  normalize-change_all tag_id (hash_id ∷ hash_ids) s row =
      normalize-change_all tag_id hash_ids (change (mapping tag_id hash_id) s) row
      ∙ same_definitions (mapping tag_id hash_id) s row

  pub standing-change_rows :
      (m : Mapping) (rows : List UpdatedMappings) (s after : Store)
      → change_rows change rows s ≡ ok after
      → (standing m after ≡ (if names s rows m then effect (standing m s) else standing m s))
        × ((row : UpdatedMappings) → normalize_mapping_row after row ≡ normalize_mapping_row s row)
  unfolding change_rows exists_row
  standing-change_rows m [] s after h =
      subst
        (λ t.
          (standing m t ≡ standing m s)
          × ((row : UpdatedMappings) → normalize_mapping_row t row ≡ normalize_mapping_row s row))
        (ok-injective h) (refl, λ row. refl)
  standing-change_rows m (row ∷ rows) s after h =
      let (p, known, rest) = >>=-eq-ok (normalize_mapping_row s row) _ h in
      let next = change_all change p.0 p.1 s in
      let same = normalize-change_all p.0 p.1 s in
      let (stood, kept) = standing-change_rows m rows next after rest in
      (
        stood
            ∙ ap (λ b. if b then effect (standing m next) else standing m next)
                (names-same s next rows m same)
            ∙ ap (λ v. if names s rows m then effect v else v) (standing-change_all m p.0 p.1 s)
            ∙ twice effect (names_in p.0 p.1 m) (names s rows m) (standing m s) again
            ∙ ap (λ b. if b || names s rows m then effect (standing m s) else standing m s)
                (sym (ap (λ r. names_result r m) known)),
        λ other. kept other ∙ same other,
      )

pub add_mapping-definitions :
    (n : Mapping) (s : Store) (row : UpdatedMappings)
    → normalize_mapping_row (add_mapping n s) row ≡ normalize_mapping_row s row
unfolding normalize_mapping_row
add_mapping-definitions n s row = refl

pub delete_mapping-definitions :
    (n : Mapping) (s : Store) (row : UpdatedMappings)
    → normalize_mapping_row (delete_mapping n s) row ≡ normalize_mapping_row s row
unfolding normalize_mapping_row
delete_mapping-definitions n s row = refl

abbrev pub if_named : Bool → (Standing → Standing) → Standing → Standing
if_named b effect v = if b then effect v else v

pub apply_mappings_lem :
    (update : MappingsUpdate) (s after : Store) (m : Mapping)
    → apply_mappings update s ≡ ok after
    → standing m after
      ≡ if_named
          (names s update.deletes m)
          removed
          (if_named (names s update.adds m) added (standing m s))
unfolding apply_mappings
apply_mappings_lem update s after m h =
    let (middle, adds, deletes) = >>=-eq-ok (change_rows add_mapping update.adds s) _ h in
    let (stood, same) =
      standing-change_rows add_mapping added add_mapping-Changes (λ w. refl) add_mapping-definitions
        m update.adds s middle adds in
    let (stood', _) =
      standing-change_rows delete_mapping removed delete_mapping-Changes (λ w. refl)
        delete_mapping-definitions m update.deletes middle after deletes in
    stood'
    ∙ ap (λ b. if_named b removed (standing m middle)) (names-same s middle update.deletes m same)
    ∙ ap (if_named (names s update.deletes m) removed) stood
