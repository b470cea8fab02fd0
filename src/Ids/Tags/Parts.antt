-- ===== src/Ids/Tags/Parts.antt =====
-- The ids of the parts of a tag, and what the ids of tags stand for.
use hydrus_go.Base.{ℕ, ◌≡◌, refl, Bool, true, ◌||◌, Option, none, some, [], arith, ap₂}
use hydrus_go.Base.Strings.{Text, codes, text_eq, text_eq_sound, text_eq_refl}
use hydrus_go.Base.Results.{ok}
use hydrus_go.PtrSync.Tables.{exists_row}
use hydrus_go.Ids.Table.{RowIds, has_id, has_key, find_key}
use hydrus_go.Ids.Table.Laws.{IsUnique, ensure_key_lem, ensure_key-found}
use hydrus_go.Ids.Tags.{
  Master, pair_eq, schema_split, has, schema_mode, ensure_parts, tag_parts, parts_of, both,
  null_namespace_id,
}

pub pair_eq_sound : (a b : ℕ × ℕ) → pair_eq a b ≡ true → a ≡ b
pair_eq_sound (a, b) (c, d) h =
    let first : a ≡ c = ground arith in
    let second : b ≡ d = ground arith in ap₂ (λ x y. (x, y)) first second

pub pair_eq_refl : (a : ℕ × ℕ) → pair_eq a a ≡ true
pair_eq_refl (a, b) = ground arith

-- No table has two rows with the same id or for the same key.
unfoldable pub IsMaster : Master → Type 0
IsMaster m = IsUnique text_eq m.namespaces × IsUnique text_eq m.subtags × IsUnique pair_eq m.tags

-- Every id of a tag stands for the parts that it stood for.
abbrev pub Keeps : Master → Master → Type 0
Keeps m after =
    (id : ℕ) (parts : Text × Text) → tag_parts m id ≡ some parts → tag_parts after id ≡ some parts

parts_of-keeps :
    (m after : Master)
    → ((i : ℕ) (k : Text) → find_key i m.namespaces ≡ some k → find_key i after.namespaces ≡ some k)
    → ((i : ℕ) (k : Text) → find_key i m.subtags ≡ some k → find_key i after.subtags ≡ some k)
    → (o : Option (ℕ × ℕ)) (parts : Text × Text) → parts_of m o ≡ some parts
    → parts_of after o ≡ some parts
parts_of-keeps m after names subs none parts h = cc
parts_of-keeps m after names subs (some (n, s)) parts h =
    from (find_key n m.namespaces) (find_key s m.subtags) refl refl h
  where
    from :
        (a b : Option Text)
        → find_key n m.namespaces ≡ a
        → find_key s m.subtags ≡ b
        → both a b ≡ some parts
        → both (find_key n after.namespaces) (find_key s after.subtags) ≡ some parts
    from none b p q h = cc
    from (some a) none p q h = cc
    from (some a) (some b) p q h = rw (names n a p, subs s b q) h

pub tag_parts-Keeps :
    (m after : Master)
    → ((i : ℕ) (k : Text) → find_key i m.namespaces ≡ some k → find_key i after.namespaces ≡ some k)
    → ((i : ℕ) (k : Text) → find_key i m.subtags ≡ some k → find_key i after.subtags ≡ some k)
    → ((i : ℕ) (k : ℕ × ℕ) → find_key i m.tags ≡ some k → find_key i after.tags ≡ some k)
    → Keeps m after
tag_parts-Keeps m after names subs tags id parts h = from (find_key id m.tags) refl h
  where
    from :
        (o : Option (ℕ × ℕ))
        → find_key id m.tags ≡ o
        → parts_of m o ≡ some parts
        → parts_of after (find_key id after.tags) ≡ some parts
    from none p h = cc
    from (some key) p h = rw (tags id key p) (parts_of-keeps m after names subs (some key) parts h)

-- The schema is there, and the row of the null namespace or another one in its place.
unfoldable pub Ready : Master → Type 0
Ready m =
    (m.indexed ≡ true)
    × (has (codes "tags") m.tables ≡ true)
    × (has (codes "namespaces") m.tables ≡ true)
    × (has (codes "subtags") m.tables ≡ true)
    × (schema_mode m.tables m.tag_columns ≡ ok schema_split)
    × ((exists_row (has_id null_namespace_id) m.namespaces
          || exists_row (has_key text_eq []) m.namespaces)
        ≡ true)

-- What the tables give for the parts of a tag.
unfoldable pub Settled : RowIds → Text × Text → Master → ℕ × Master → Type 0
Settled r parts m (id, after) =
    IsMaster after
    × (tag_parts after id ≡ some parts)
    × Keeps m after
    × (ensure_parts r parts after ≡ ok (id, after))
    × (Ready m → Ready after)

either_kept :
    {a b c d : Bool}
    → (a ≡ true → c ≡ true)
    → (b ≡ true → d ≡ true)
    → (a || b) ≡ true
    → (c || d) ≡ true
either_kept f g h = ground arith

pub ensure_parts_lem :
    (r : RowIds) (parts : Text × Text) (m : Master)
    → IsMaster m
    → (out : ℕ × Master) × (ensure_parts r parts m ≡ ok out) × Settled r parts m out
unfolding ensure_parts IsMaster Settled Ready
ensure_parts_lem r (namespace, subtag) m (names, subs, pairs) =
    let ((n, ns), made_n, (unique_n, key_n, id_n, keep_n, rows_n)) =
      ensure_key_lem text_eq text_eq_sound text_eq_refl r namespace m.namespaces names in
    let ((s, ss), made_s, (unique_s, key_s, id_s, keep_s, rows_s)) =
      ensure_key_lem text_eq text_eq_sound text_eq_refl r subtag m.subtags subs in
    let ((t, ts), made_t, (unique_t, key_t, id_t, keep_t, rows_t)) =
      ensure_key_lem pair_eq pair_eq_sound pair_eq_refl r (n, s) m.tags pairs in
    let after = record m { namespaces = ns; subtags = ss; tags = ts } in
    (
      (t, after),
      rw (made_n, made_s, made_t) refl,
      (
        (unique_n, unique_s, unique_t),
        rw (key_t, key_n, key_s) refl,
        tag_parts-Keeps m after keep_n keep_s keep_t,
        rw
            (
              ensure_key-found text_eq text_eq_sound text_eq_refl r namespace n ns id_n,
              ensure_key-found text_eq text_eq_sound text_eq_refl r subtag s ss id_s,
              ensure_key-found pair_eq pair_eq_sound pair_eq_refl r (n, s) t ts id_t,
            )
            refl,
        λ (indexed, a, b, c, mode, there). (
          indexed,
          a,
          b,
          c,
          mode,
          either_kept (rows_n (has_id null_namespace_id)) (rows_n (has_key text_eq [])) there,
        ),
      ),
    )
