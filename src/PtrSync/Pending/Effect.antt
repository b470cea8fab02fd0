-- ===== src/PtrSync/Pending/Effect.antt =====
-- What staging and committing do to each mapping.
use hydrus_go.Base.{
  ℕ, ◌+◌, ◌≡◌, refl, Bool, true, false, not, ◌&&◌, ◌||◌, List, [], ◌∷◌, ◌==◌, ap, sym, subst, ◌∙◌,
  if◌then◌else◌, Bool-cases, inl, inr, arith, if_elim, length, length-append,
}
use hydrus_go.PtrSync.{Mapping, Store}
use hydrus_go.PtrSync.Tables.{
  exists_row, delete_where, insert_or_ignore, exists_row-delete_where, exists_row-delete_other,
}
use hydrus_go.PtrSync.Mappings.{mapping_eq, mapping}
use hydrus_go.PtrSync.Mappings.Tables.{
  Standing, stands, standing, standing_ext, mapping_eq_sound, stands-insert, stands-delete,
}
use hydrus_go.PtrSync.Mappings.Effect.{names_in, twice}
use hydrus_go.PtrSync.Pending.{
  rows_affected, stage_mapping, stage_hashes, stage_tags, insert_all, is_pending, commit_pending,
}

-- A staged mapping: its removal is forgotten, and it is pending unless it is current.
abbrev pub staged : Standing → Standing
staged v = record v { deleted = false; petitioned = false; pending = v.pending || not v.current }

-- A committed mapping: a pending one is current and nothing else.
abbrev pub committed : Standing → Standing
committed v =
    if v.pending
    then record { current = true; deleted = false; pending = false; petitioned = false }
    else v

staged_twice : (v : Standing) → staged (staged v) ≡ staged v
staged_twice v = standing_ext refl refl (again v.pending v.current) refl
  where
    again : (p c : Bool) → ((p || not c) || not c) ≡ (p || not c)
    again true c = refl
    again false true = refl
    again false false = refl

stage_mapping-standing :
    (m n : Mapping) (p : ℕ × Store)
    → standing m (stage_mapping n p).1
      ≡ (if mapping_eq m n then staged (standing m p.1) else standing m p.1)
stage_mapping-standing m n p =
    if_elim {A = ℕ × Store}
      (λ (q : ℕ × Store).
        standing m q.1 ≡ (if mapping_eq m n then staged (standing m p.1) else standing m p.1))
      (stands n p.1.current_mappings) _ _
      (λ there.
        standing_ext refl (stands-delete m n p.1.deleted_mappings) refl
          (stands-delete m n p.1.petitioned_mappings)
        ∙ left_alone (mapping_eq m n) (standing m p.1) (λ same. same_current same ∙ there))
      (λ absent.
        standing_ext refl (stands-delete m n p.1.deleted_mappings)
          (stands-insert m n p.1.pending_mappings) (stands-delete m n p.1.petitioned_mappings)
        ∙ inserted (mapping_eq m n) (standing m p.1) (λ same. same_current same ∙ absent))
  where
    same_current :
        mapping_eq m n ≡ true → stands m p.1.current_mappings ≡ stands n p.1.current_mappings
    same_current same = ap (λ k. stands k p.1.current_mappings) (mapping_eq_sound m n same)

    left_alone :
        (b : Bool) (v : Standing)
        → (b ≡ true → v.current ≡ true)
        → ◌≡◌ {A = Standing}
            (record v { deleted = not b && v.deleted; petitioned = not b && v.petitioned })
            (if b then staged v else v)
    left_alone true v h =
        standing_ext refl refl (sym (unless_current v.pending v.current (h refl))) refl
      where
        unless_current : (p c : Bool) → c ≡ true → (p || not c) ≡ p
        unless_current p c e = ground arith
    left_alone false v h = refl

    inserted :
        (b : Bool) (v : Standing)
        → (b ≡ true → v.current ≡ false)
        → ◌≡◌ {A = Standing}
            (record v {
              deleted = not b && v.deleted;
              pending = b || v.pending;
              petitioned = not b && v.petitioned;
            })
            (if b then staged v else v)
    inserted true v h = standing_ext refl refl (sym (now_pending v.pending v.current (h refl))) refl
      where
        now_pending : (p c : Bool) → c ≡ false → (p || not c) ≡ true
        now_pending p c e = ground arith
    inserted false v h = refl

stands-insert_all :
    (m : Mapping) (rows table : List Mapping)
    → stands m (insert_all rows table) ≡ (stands m rows || stands m table)
unfolding insert_all exists_row
stands-insert_all m [] table = refl
stands-insert_all m (n ∷ rows) table =
    stands-insert_all m rows (insert_or_ignore mapping_eq n table)
    ∙ ap (λ b. stands m rows || b) (stands-insert m n table)
    ∙ shuffle (stands m rows) (mapping_eq m n) (stands m table)
  where
    shuffle : (a b c : Bool) → (a || (b || c)) ≡ ((b || a) || c)
    shuffle a b c = ground arith

stands-delete_pending :
    (m : Mapping) (s : Store) (rows : List Mapping)
    → stands m (delete_where (is_pending s) rows) ≡ (not (is_pending s m) && stands m rows)
stands-delete_pending m s rows = elim (Bool-cases (is_pending s m)) [
  | inl e ↦ rw e (
      exists_row-delete_where (mapping_eq m) (is_pending s) rows
        (λ row h. subst (λ k. is_pending s k ≡ true) (mapping_eq_sound m row h) e))
  | inr e ↦ rw e (
      exists_row-delete_other (mapping_eq m) (is_pending s) rows
        (λ row h. subst (λ k. is_pending s k ≡ false) (mapping_eq_sound m row h) e))
]

no_rows : (m : Mapping) (rows : List Mapping) → (length rows == 0) ≡ true → stands m rows ≡ false
unfolding exists_row
no_rows m [] h = refl
no_rows m (n ∷ rows) h = ground arith

-- `commitPTRPendingMappingsSuccessTx` makes every mapping that is pending when it runs current, and
-- neither deleted, pending nor petitioned, and leaves every other mapping where it was.
pub commit_pending_lem :
    (m : Mapping) (s : Store) → standing m (commit_pending s).1 ≡ committed (standing m s)
unfolding commit_pending exists_row
commit_pending_lem m s =
    if_elim {A = ℕ × Store} (λ (p : ℕ × Store). standing m p.1 ≡ committed (standing m s))
      (length s.pending_mappings == 0) _ _ (λ e. rw (no_rows m s.pending_mappings e) refl)
      (λ _.
        standing_ext (stands-insert_all m s.pending_mappings s.current_mappings)
          (stands-delete_pending m s s.deleted_mappings) refl
          (stands-delete_pending m s s.petitioned_mappings)
        ∙ moved (is_pending s m) (stands m s.current_mappings) (stands m s.deleted_mappings)
            (stands m s.petitioned_mappings))
  where
    moved :
        (b c d q : Bool)
        → ◌≡◌ {A = Standing}
            (record {
              current = b || c;
              deleted = not b && d;
              pending = false;
              petitioned = not b && q;
            })
            (committed (record { current = c; deleted = d; pending = b; petitioned = q }))
    moved true c d q = refl
    moved false c d q = refl

length-insert_or_ignore :
    (m : Mapping) (rows : List Mapping)
    → length (insert_or_ignore mapping_eq m rows) ≡ rows_affected m rows + length rows
unfolding insert_or_ignore
length-insert_or_ignore m rows = elim (Bool-cases (stands m rows)) [
  | inl e ↦ rw e (omega arith)
  | inr e ↦ rw e (omega (arith, length-append rows (m ∷ [])))
]

-- The counter grows with the table.
abbrev pub Counted : ℕ × Store → ℕ × Store → Type 0
Counted p q = q.0 + length p.1.pending_mappings ≡ p.0 + length q.1.pending_mappings

stage_mapping-Counted : (m : Mapping) (p : ℕ × Store) → Counted p (stage_mapping m p)
stage_mapping-Counted m p =
    if_elim {A = ℕ × Store} (Counted p) (stands m p.1.current_mappings) _ _ (λ _. refl)
      (λ _. omega (arith, length-insert_or_ignore m p.1.pending_mappings))

stage_hashes_lem :
    (m : Mapping) (tag_id : ℕ) (hash_ids : List ℕ) (p : ℕ × Store)
    → (standing m (stage_hashes tag_id hash_ids p).1
        ≡ (if names_in tag_id hash_ids m then staged (standing m p.1) else standing m p.1))
      × Counted p (stage_hashes tag_id hash_ids p)
unfolding stage_hashes exists_row
stage_hashes_lem m tag_id [] p = (refl, refl)
stage_hashes_lem m tag_id (hash_id ∷ hash_ids) p =
    let (stood, counted) =
      stage_hashes_lem m tag_id hash_ids (stage_mapping (mapping tag_id hash_id) p) in
    (
      stood
          ∙ ap (λ v. if names_in tag_id hash_ids m then staged v else v)
              (stage_mapping-standing m (mapping tag_id hash_id) p)
          ∙ twice staged (mapping_eq m (mapping tag_id hash_id)) (names_in tag_id hash_ids m)
              (standing m p.1) staged_twice,
      omega (arith, counted, stage_mapping-Counted (mapping tag_id hash_id) p),
    )

-- The mappings that a request names.
abbrev pub requested : List ℕ → List ℕ → Mapping → Bool
requested tag_ids hash_ids m = exists_row (λ tag_id. names_in tag_id hash_ids m) tag_ids

-- Staging forgets the removal of every mapping that the request names and makes it pending unless it
-- is current, leaves every other mapping where it was, and counts the pending mappings that it adds.
pub stage_tags_lem :
    (m : Mapping) (tag_ids hash_ids : List ℕ) (p : ℕ × Store)
    → (standing m (stage_tags tag_ids hash_ids p).1
        ≡ (if requested tag_ids hash_ids m then staged (standing m p.1) else standing m p.1))
      × Counted p (stage_tags tag_ids hash_ids p)
unfolding stage_tags exists_row
stage_tags_lem m [] hash_ids p = (refl, refl)
stage_tags_lem m (tag_id ∷ tag_ids) hash_ids p =
    let next = stage_hashes tag_id hash_ids p in
    let (stood, counted) = stage_tags_lem m tag_ids hash_ids next in
    let (stood', counted') = stage_hashes_lem m tag_id hash_ids p in
    (
      stood
          ∙ ap (λ v. if requested tag_ids hash_ids m then staged v else v) stood'
          ∙ twice staged (names_in tag_id hash_ids m) (requested tag_ids hash_ids m)
              (standing m p.1) staged_twice,
      omega (arith, counted, counted'),
    )

-- A commit takes along what was staged since the pending mappings were read: whatever a request names
-- is current after a commit that follows it, and not pending any more.
pub commit_pending-stage_tags :
    (m : Mapping) (tag_ids hash_ids : List ℕ) (s : Store)
    → requested tag_ids hash_ids m ≡ true
    → (stands m (commit_pending (stage_tags tag_ids hash_ids (0, s)).1).1.current_mappings ≡ true)
      × (stands m (commit_pending (stage_tags tag_ids hash_ids (0, s)).1).1.pending_mappings
          ≡ false)
commit_pending-stage_tags m tag_ids hash_ids s named =
    let (stood, _) = stage_tags_lem m tag_ids hash_ids (0, s) in
    let view =
      commit_pending_lem m (stage_tags tag_ids hash_ids (0, s)).1
      ∙ ap committed (stood ∙ ap (λ b. if b then staged (standing m s) else standing m s) named) in
    (
      ap (λ v. v.current) view ∙ settled at.pending at.current at.deleted at.petitioned,
      ap (λ v. v.pending) view ∙ emptied at.pending at.current at.deleted at.petitioned,
    )
  where
    at : Standing
    at = standing m s

    settled :
        (p c d q : Bool)
        → (committed
            (staged (record { current = c; deleted = d; pending = p; petitioned = q }))).current
          ≡ true
    settled true c d q = refl
    settled false true d q = refl
    settled false false d q = refl

    emptied :
        (p c d q : Bool)
        → (committed
            (staged (record { current = c; deleted = d; pending = p; petitioned = q }))).pending
          ≡ false
    emptied true c d q = refl
    emptied false true d q = refl
    emptied false false d q = refl
