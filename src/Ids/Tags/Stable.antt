-- ===== src/Ids/Tags/Stable.antt =====
-- EnsureTagID gives a tag an id that stands for it from then on.
use hydrus_go.Base.{ℕ, ◌≡◌, refl, true, some, inl, inr, ap, sym, ◌∙◌, subst, ◌↔◌}
use hydrus_go.Base.Strings.{Text, Casing}
use hydrus_go.Base.Results.{Result, ok, err, ◌>>=◌}
use hydrus_go.Tags.{clean, check_not_empty, split}
use hydrus_go.Ids.Table.{RowIds, IdError}
use hydrus_go.Ids.Tags.{
  Master, ensure_master_tag_schema, ensure_parts, ensure_tag_parts, checked, ensure_tag_id_tx,
  commit_master, ensure_checked, with_schema, ensure_tag_id, tag_parts,
}
use hydrus_go.Ids.Tags.Parts.{IsMaster, Keeps, Ready, Settled, ensure_parts_lem}
use hydrus_go.Ids.Tags.Schema.{
  IsUsable, ensure_master_tag_schema_lem, ensure_master_tag_schema-Ready,
}

ensure_in_mode-usable :
    (r : RowIds) (parts : Text × Text) (m : Master)
    → IsUsable m
    → ensure_tag_parts r parts m ≡ (ensure_master_tag_schema m >>= ensure_parts r parts)
unfolding IsUsable
ensure_in_mode-usable r parts m (inl split_mode) = rw split_mode refl
ensure_in_mode-usable r parts m (inr empty_mode) = rw empty_mode refl

Ready-IsUsable : (m : Master) → Ready m → IsUsable m
unfolding Ready IsUsable
Ready-IsUsable m (indexed, a, b, c, mode, there) = inl (rw a mode)

-- A tag that is not empty and a schema that can be written give an id, and the same one again.
ensure_tag_parts_lem :
    (r : RowIds) (parts : Text × Text) (m : Master)
    → IsMaster m
    → IsUsable m
    → (out : ℕ × Master) × (ensure_tag_parts r parts m ≡ ok out)
      × IsMaster out.1
      × IsUsable out.1
      × (tag_parts out.1 out.0 ≡ some parts)
      × Keeps m out.1
      × (ensure_tag_parts r parts out.1 ≡ ok out)
unfolding Settled
ensure_tag_parts_lem r parts m sound usable =
    let (made, ready, sound', kept) = ensure_master_tag_schema_lem m sound usable in
    let ((id, after), done, (sound'', stands, kept', again, readies)) =
      ensure_parts_lem r parts (with_schema m) sound' in
    let ready' = readies ready in
    let usable' = Ready-IsUsable after ready' in
    (
      (id, after),
      ensure_in_mode-usable r parts m usable ∙ rw made done,
      sound'',
      usable',
      stands,
      λ j p h. kept' j p (kept j p h),
      ensure_in_mode-usable r parts after usable'
          ∙ rw (ensure_master_tag_schema-Ready after ready') again,
    )

-- EnsureTagID on a writable bundle succeeds for every tag that is not empty when it is cleaned, if the
-- tag schema is split or missing and no table has two rows for one key. The id then stands for the
-- namespace and the subtag of the cleaned tag, every other id of a tag stands for what it stood for, the
-- tables still have no two rows for one key, and the same call returns the same id again and changes
-- nothing.
pub ensure_tag_id_lem :
    (r : RowIds) (u : Casing) (tag : Text) (m : Master)
    → IsMaster m
    → IsUsable m
    → check_not_empty (clean u tag) ≡ ok tt
    → (id : ℕ) × (after : Master) × (ensure_tag_id r u true tag m ≡ (ok id, after))
      × IsMaster after
      × IsUsable after
      × (tag_parts after id ≡ some (split (clean u tag)))
      × Keeps m after
      × (ensure_tag_id r u true tag after ≡ (ok id, after))
unfolding ensure_tag_id
ensure_tag_id_lem r u tag m sound usable named =
    let ((id, after), done, sound', usable', stands, kept, again) =
      ensure_tag_parts_lem r (split (clean u tag)) m sound usable in
    (id, after, rw (named, done) refl, sound', usable', stands, kept, rw (named, again) refl)

pair-injective :
    {a b : ℕ} {m n : Master}
    → ◌≡◌ {A = Result IdError ℕ × Master} (ok a, m) (ok b, n)
    → (a ≡ b) × (m ≡ n)
pair-injective p = (cc (ap (λ r. r.0) p), ap (λ r. r.1) p)

Given : RowIds → Casing → Text → Master → ℕ → Master → Type 0
Given r u tag m a after =
    IsMaster after
    × IsUsable after
    × (tag_parts after a ≡ some (split (clean u tag)))
    × Keeps m after
    × (ensure_tag_id r u true tag after ≡ (ok a, after))

ensure_tag_id-Given :
    (r : RowIds) (u : Casing) (tag : Text) (m after : Master) (a : ℕ)
    → IsMaster m
    → IsUsable m
    → check_not_empty (clean u tag) ≡ ok tt
    → ensure_tag_id r u true tag m ≡ (ok a, after)
    → Given r u tag m a after
unfolding Given
ensure_tag_id-Given r u tag m after a sound usable named given =
    let (id, made, done, one, two, three, four, five) =
      ensure_tag_id_lem r u tag m sound usable named in
    let (same_id, same) = pair-injective (sym done ∙ given) in
    subst (Given r u tag m a) same
      (subst (λ i. Given r u tag m i made) same_id (one, two, three, four, five))

-- If EnsureTagID has given an id for a tag and then one for another, under the conditions of
-- `ensure_tag_id_lem`, the ids are equal exactly if the cleaned tags have the same namespace and the
-- same subtag.
pub ensure_tag_id_iff :
    (r : RowIds) (u : Casing) (tag other : Text) (m after last : Master) (a b : ℕ)
    → IsMaster m
    → IsUsable m
    → check_not_empty (clean u tag) ≡ ok tt
    → check_not_empty (clean u other) ≡ ok tt
    → ensure_tag_id r u true tag m ≡ (ok a, after)
    → ensure_tag_id r u true other after ≡ (ok b, last)
    → (a ≡ b) ↔ (split (clean u tag) ≡ split (clean u other))
unfolding Given ensure_tag_id
ensure_tag_id_iff r u tag other m after last a b sound usable named named' first second =
    let (sound', usable', stands, _, again) =
      ensure_tag_id-Given r u tag m after a sound usable named first in
    let (_, _, stands', kept, _) =
      ensure_tag_id-Given r u other after last b sound' usable' named' second in
    (
      λ same. cc (kept a (split (clean u tag)) stands, stands', same),
      λ same. (pair-injective (sym again ∙ by_parts same ∙ second)).0,
    )
  where
    by_parts :
        split (clean u tag) ≡ split (clean u other)
        → ensure_tag_id r u true tag after ≡ ensure_tag_id r u true other after
    by_parts same =
        rw (named, named') (ap (λ p. commit_master r after (ensure_tag_parts r p after)) same)

-- On a writable bundle EnsureTagID is ensureTagIDTx in a transaction of its own.
pub ensure_tag_id-ensure_tag_id_tx :
    (r : RowIds) (u : Casing) (tag : Text) (m : Master)
    → ensure_tag_id r u true tag m ≡ commit_master r m (ensure_tag_id_tx r u tag m)
unfolding ensure_tag_id ensure_tag_id_tx
ensure_tag_id-ensure_tag_id_tx r u tag m = by_check (checked r (check_not_empty (clean u tag)))
  where
    by_check :
        (c : Result IdError (Unit {0}))
        → ensure_checked r true (clean u tag) m c
          ≡ commit_master r m (c >>= λ _. ensure_tag_parts r (split (clean u tag)) m)
    by_check (err e) = refl
    by_check (ok tt) = refl
