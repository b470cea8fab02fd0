-- ===== src/PtrSync/Pending/History.antt =====
-- The four mapping tables over any sequence of content updates, staged requests and commits.
use hydrus_go.Base.{
  ℕ, ◌≡◌, refl, Bool, true, false, not, ◌&&◌, ◌||◌, List, [], ◌∷◌, sym, subst, arith,
}
use hydrus_go.Base.Results.{Result, ok, err}
use hydrus_go.PtrSync.{SyncError, Mapping, Store}
use hydrus_go.PtrSync.Mappings.{MappingsUpdate, apply_mappings}
use hydrus_go.PtrSync.Mappings.Tables.{Standing, standing, added, removed}
use hydrus_go.PtrSync.Mappings.Effect.{if_named, names, apply_mappings_lem}
use hydrus_go.PtrSync.Pending.{stage_tags, commit_pending}
use hydrus_go.PtrSync.Pending.Effect.{
  staged, committed, requested, stage_tags_lem, commit_pending_lem,
}

pub data Change : Type 0 where
  update : MappingsUpdate → Change
  stage : List ℕ → List ℕ → Change
  commit : Change

-- An update that fails is rolled back.
abbrev pub or_before : Store → Result SyncError Store → Store
or_before before (err e) = before
or_before before (ok after) = after

unfoldable pub make : Change → Store → Store
make (update u) s = or_before s (apply_mappings u s)
make (stage tag_ids hash_ids) s = (stage_tags tag_ids hash_ids (0, s)).1
make commit s = (commit_pending s).1

unfoldable pub history : List Change → Store → Store
history [] s = s
history (c ∷ cs) s = history cs (make c s)

-- A current mapping is neither deleted nor pending.
abbrev pub IsTidy : Standing → Type 0
IsTidy v = ((v.current && v.deleted) ≡ false) × ((v.current && v.pending) ≡ false)

added-IsTidy : (b : Bool) (v : Standing) → IsTidy v → IsTidy (if_named b added v)
added-IsTidy true v h = (refl, refl)
added-IsTidy false v h = h

removed-IsTidy : (b : Bool) (v : Standing) → IsTidy v → IsTidy (if_named b removed v)
removed-IsTidy true v h = (refl, refl)
removed-IsTidy false v h = h

staged-IsTidy : (b : Bool) (v : Standing) → IsTidy v → IsTidy (if_named b staged v)
staged-IsTidy false v h = h
staged-IsTidy true v (_, apart) = (nowhere v.current, unless_current v.current v.pending apart)
  where
    nowhere : (c : Bool) → (c && false) ≡ false
    nowhere c = ground arith

    unless_current : (c p : Bool) → (c && p) ≡ false → (c && (p || not c)) ≡ false
    unless_current c p h = ground arith

committed-IsTidy : (v : Standing) → IsTidy v → IsTidy (committed v)
committed-IsTidy v h = by_case v.pending v.current v.deleted v.petitioned h
  where
    by_case :
        (p c d q : Bool)
        → IsTidy (record { current = c; deleted = d; pending = p; petitioned = q })
        → IsTidy (committed (record { current = c; deleted = d; pending = p; petitioned = q }))
    by_case true c d q h = (refl, refl)
    by_case false c d q h = h

updated-IsTidy :
    (m : Mapping) (u : MappingsUpdate) (s : Store) (r : Result SyncError Store)
    → apply_mappings u s ≡ r
    → IsTidy (standing m s)
    → IsTidy (standing m (or_before s r))
updated-IsTidy m u s (err e) h before = before
updated-IsTidy m u s (ok after) h before = subst IsTidy (sym (apply_mappings_lem u s after m h)) (
    removed-IsTidy (names s u.deletes m) (if_named (names s u.adds m) added (standing m s))
      (added-IsTidy (names s u.adds m) (standing m s) before))

make-IsTidy :
    (m : Mapping) (c : Change) (s : Store) → IsTidy (standing m s) → IsTidy (standing m (make c s))
unfolding make
make-IsTidy m (update u) s before = updated-IsTidy m u s (apply_mappings u s) refl before
make-IsTidy m (stage tag_ids hash_ids) s before =
    subst IsTidy (sym (stage_tags_lem m tag_ids hash_ids (0, s)).0)
      (staged-IsTidy (requested tag_ids hash_ids m) (standing m s) before)
make-IsTidy m commit s before =
    subst IsTidy (sym (commit_pending_lem m s)) (committed-IsTidy (standing m s) before)

-- If a mapping that is current is neither deleted nor pending, that stays so over any sequence of
-- content updates, of which those that fail change nothing, staged requests and commits.
pub history-IsTidy :
    (m : Mapping) (cs : List Change) (s : Store)
    → IsTidy (standing m s)
    → IsTidy (standing m (history cs s))
unfolding history
history-IsTidy m [] s before = before
history-IsTidy m (c ∷ cs) s before = history-IsTidy m cs (make c s) (make-IsTidy m c s before)
