-- ===== src/PtrSync/Mappings/Tables.antt =====
-- Where a mapping stands, and what one statement group of a content update does to it.
use hydrus_go.Base.{
  ◌≡◌, refl, Bool, true, false, not, ◌&&◌, ◌||◌, List, [], ◌∷◌, sym, subst, ◌∙◌, if◌then◌else◌,
  Bool-cases, inl, inr, arith, ◌⊎◌, ◌++◌, if_elim,
}
use hydrus_go.PtrSync.{Mapping, Store}
use hydrus_go.PtrSync.Tables.{
  exists_row, delete_where, insert_or_ignore, exists_row-append, exists_row-delete_where,
  exists_row-delete_other,
}
use hydrus_go.PtrSync.Mappings.{mapping_eq, add_mapping, delete_mapping}

-- In which of the four tables a mapping stands.
pub record Standing : Type 0 where
  pub current : Bool
  pub deleted : Bool
  pub pending : Bool
  pub petitioned : Bool

abbrev pub stands : Mapping → List Mapping → Bool
stands m rows = exists_row (mapping_eq m) rows

abbrev pub standing : Mapping → Store → Standing
standing m s = record {
  current = stands m s.current_mappings;
  deleted = stands m s.deleted_mappings;
  pending = stands m s.pending_mappings;
  petitioned = stands m s.petitioned_mappings;
}

abbrev pub added : Standing → Standing
added v = record v { current = true; deleted = false; pending = false }

abbrev pub removed : Standing → Standing
removed v = record v { current = false; deleted = true; petitioned = false }

pub mapping_eq_sound : (m n : Mapping) → mapping_eq m n ≡ true → m ≡ n
mapping_eq_sound m n h = ground arith

pub mapping_eq_refl : (m : Mapping) → mapping_eq m m ≡ true
mapping_eq_refl m = ground arith

mapping_eq_comm : (m n : Mapping) → mapping_eq m n ≡ mapping_eq n m
mapping_eq_comm m n = ground arith

mapping_eq-other :
    (m n row : Mapping)
    → mapping_eq m n ≡ false
    → mapping_eq m row ≡ true
    → mapping_eq n row ≡ false
mapping_eq-other m n row other e =
    subst (λ r. mapping_eq n r ≡ false) (mapping_eq_sound m row e) (mapping_eq_comm n m ∙ other)

stands-append :
    (m n : Mapping) (rows : List Mapping)
    → stands m (rows ++ (n ∷ [])) ≡ (mapping_eq m n || stands m rows)
unfolding exists_row
stands-append m n rows =
    exists_row-append (mapping_eq m) rows (n ∷ []) ∙ swapped (stands m rows) (mapping_eq m n)
  where
    swapped : (a b : Bool) → (a || (b || false)) ≡ (b || a)
    swapped a b = ground arith

pub stands-insert :
    (m n : Mapping) (rows : List Mapping)
    → stands m (insert_or_ignore mapping_eq n rows) ≡ (mapping_eq m n || stands m rows)
unfolding insert_or_ignore
stands-insert m n rows =
    if_elim (λ l. stands m l ≡ (mapping_eq m n || stands m rows)) (stands n rows) _ _
      (λ there. ignored (Bool-cases (mapping_eq m n)) there) (λ _. stands-append m n rows)
  where
    ignored :
        (mapping_eq m n ≡ true) ⊎ (mapping_eq m n ≡ false)
        → stands n rows ≡ true
        → stands m rows ≡ (mapping_eq m n || stands m rows)
    ignored (inl e) there =
        rw e (subst (λ k. stands k rows ≡ true) (sym (mapping_eq_sound m n e)) there)
    ignored (inr e) there = rw e refl

pub stands-delete :
    (m n : Mapping) (rows : List Mapping)
    → stands m (delete_where (mapping_eq n) rows) ≡ (not (mapping_eq m n) && stands m rows)
stands-delete m n rows = elim (Bool-cases (mapping_eq m n)) [
  | inl e ↦ rw e (
      exists_row-delete_where (mapping_eq m) (mapping_eq n) rows
        (λ row h. subst (λ k. mapping_eq k row ≡ true) (mapping_eq_sound m n e) h))
  | inr e ↦ rw e (
      exists_row-delete_other (mapping_eq m) (mapping_eq n) rows
        (λ row. mapping_eq-other m n row e))
]

pub standing_ext :
    {c d p q c' d' p' q' : Bool}
    → c ≡ c'
    → d ≡ d'
    → p ≡ p'
    → q ≡ q'
    → ◌≡◌ {A = Standing}
        (record { current = c; deleted = d; pending = p; petitioned = q })
        (record { current = c'; deleted = d'; pending = p'; petitioned = q' })
standing_ext hc hd hp hq = cc

-- One statement group changes the mapping that it names and no other.
abbrev pub Changes : (Mapping → Store → Store) → (Standing → Standing) → Type 0
Changes change effect =
    (m n : Mapping) (s : Store)
    → standing m (change n s) ≡ (if mapping_eq m n then effect (standing m s) else standing m s)

pub add_mapping-Changes : Changes add_mapping added
add_mapping-Changes m n s =
    standing_ext (stands-insert m n s.current_mappings) (stands-delete m n s.deleted_mappings)
      (stands-delete m n s.pending_mappings) refl
    ∙ by_case (mapping_eq m n)
  where
    by_case :
        (b : Bool)
        → ◌≡◌ {A = Standing}
            (record {
              current = b || stands m s.current_mappings;
              deleted = not b && stands m s.deleted_mappings;
              pending = not b && stands m s.pending_mappings;
              petitioned = stands m s.petitioned_mappings;
            })
            (if b then added (standing m s) else standing m s)
    by_case true = refl
    by_case false = refl

pub delete_mapping-Changes : Changes delete_mapping removed
delete_mapping-Changes m n s =
    standing_ext (stands-delete m n s.current_mappings) (stands-insert m n s.deleted_mappings) refl
      (stands-delete m n s.petitioned_mappings)
    ∙ by_case (mapping_eq m n)
  where
    by_case :
        (b : Bool)
        → ◌≡◌ {A = Standing}
            (record {
              current = not b && stands m s.current_mappings;
              deleted = b || stands m s.deleted_mappings;
              pending = stands m s.pending_mappings;
              petitioned = not b && stands m s.petitioned_mappings;
            })
            (if b then removed (standing m s) else standing m s)
    by_case true = refl
    by_case false = refl
