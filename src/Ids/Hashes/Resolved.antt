-- ===== src/Ids/Hashes/Resolved.antt =====
-- Every hash that was asked for has an id, and the ids that were there stay.
use hydrus_go.Base.{
  ℕ, ◌≡◌, refl, true, Option, some, List, [], ◌∷◌, inl, inr, Bool-cases, All, ◌⊎◌, sym, subst, ap,
}
use hydrus_go.Base.Strings.{Text, Casing, text_eq, text_eq_sound, text_eq_refl}
use hydrus_go.Base.Results.{Result, ok, err, ◌>>=◌, >>=-eq-ok}
use hydrus_go.Base.Maps
use hydrus_go.Base.Maps.{Map}
use hydrus_go.PtrSync.Tables.{exists_row, exists_row-append}
use hydrus_go.Ids.Table.{Row, RowIds, IdError, invalid_hash, find_key}
use hydrus_go.Ids.Table.Laws.{IsUnique, ensure_key_lem}
use hydrus_go.Ids.Hashes.{
  normalize, add_new, normalize_hashes, Resolution, resolve_all, ensure_hash_ids_tx, commit_hashes,
  ensure_hash_ids,
}
use hydrus_go.Ids.Hashes.Forms.{
  HasForm, normalize_form, normalize_refused, normalize_hashes_refused,
}

abbrev pub KeepsHashes : List (Row Text) → List (Row Text) → Type 0
KeepsHashes rows after =
    (id : ℕ) (hash : Text) → find_key id rows ≡ some hash → find_key id after ≡ some hash

-- What the map has under a hash is the id of the hash.
IsRight : Resolution → Type 0
IsRight (resolved, rows) =
    (hash : Text) (id : ℕ) → resolved hash ≡ some id → find_key id rows ≡ some hash

HasHash : Text → Resolution → Type 0
HasHash hash (resolved, rows) = (id : ℕ) × (resolved hash ≡ some id)

some-injective : {a b : ℕ} → ◌≡◌ {A = Option ℕ} (some a) (some b) → a ≡ b
some-injective p = cc

insert-IsRight :
    (hash : Text) (id : ℕ) (resolved : Map ℕ) (rows after : List (Row Text))
    → IsRight (resolved, rows)
    → KeepsHashes rows after
    → find_key id after ≡ some hash
    → IsRight (Maps.insert hash id resolved, after)
unfolding IsRight
insert-IsRight hash id resolved rows after right keeps at other i h =
    elim (Bool-cases (text_eq hash other)) [
      | inl same ↦
          let here : id ≡ i = some-injective (rw same at h) in
          let key : hash ≡ other = text_eq_sound hash other same in
          subst (λ j. find_key j after ≡ some other) here
            (subst (λ k. find_key id after ≡ some k) key at)
      | inr differs ↦ keeps i other (right other i (rw differs at h))
    ]

insert-HasHash :
    (hash wanted : Text) (id : ℕ) (resolved : Map ℕ) (rows after : List (Row Text))
    → HasHash wanted (resolved, rows)
    → HasHash wanted (Maps.insert hash id resolved, after)
unfolding HasHash
insert-HasHash hash wanted id resolved rows after (i, h) = elim (Bool-cases (text_eq hash wanted)) [
  | inl same ↦ (id, rw same refl)
  | inr differs ↦ (i, rw differs h)
]

insert_self-HasHash :
    (hash : Text) (id : ℕ) (resolved : Map ℕ) (after : List (Row Text))
    → HasHash hash (Maps.insert hash id resolved, after)
unfolding HasHash
insert_self-HasHash hash id resolved after = (id, Maps.insert_self hash id resolved)

nothing-IsRight : (rows : List (Row Text)) → IsRight (Maps.empty, rows)
unfolding IsRight
nothing-IsRight rows hash id h = cc

has_id_of :
    (hash : Text) (resolved : Map ℕ) (rows : List (Row Text))
    → HasHash hash (resolved, rows)
    → (id : ℕ) × (resolved hash ≡ some id)
unfolding HasHash
has_id_of hash resolved rows h = h

right_at :
    (resolved : Map ℕ) (rows : List (Row Text))
    → IsRight (resolved, rows)
    → (hash : Text) (id : ℕ) → resolved hash ≡ some id
    → find_key id rows ≡ some hash
unfolding IsRight
right_at resolved rows right = right

resolve_all_lem :
    (r : RowIds) (hashes : List Text) (p : Resolution)
    → IsUnique text_eq p.1
    → IsRight p
    → (out : Resolution) × (resolve_all r hashes p ≡ ok out)
      × IsUnique text_eq out.1
      × IsRight out
      × KeepsHashes p.1 out.1
      × ((hash : Text) → HasHash hash p → HasHash hash out)
      × ((hash : Text) → exists_row (text_eq hash) hashes ≡ true → HasHash hash out)
unfolding resolve_all exists_row
resolve_all_lem r [] p unique right =
    (p, refl, unique, right, λ id hash h. h, λ hash h. h, λ hash h. cc)
resolve_all_lem r (hash ∷ hashes) (resolved, rows) unique right =
    let ((id, after), done, (unique', at, _, keeps, _)) =
      ensure_key_lem text_eq text_eq_sound text_eq_refl r hash rows unique in
    let next : Resolution = (Maps.insert hash id resolved, after) in
    let (out, rest, unique'', right', keeps', had, new) =
      resolve_all_lem r hashes next unique'
        (insert-IsRight hash id resolved rows after right keeps at) in
    (
      out,
      rw done rest,
      unique'',
      right',
      λ i h e. keeps' i h (keeps i h e),
      λ wanted h. had wanted (insert-HasHash hash wanted id resolved rows after h),
      λ wanted h. elim (Bool-cases (text_eq wanted hash)) [
        | inl same ↦
            subst (λ k. HasHash k out) (sym (text_eq_sound wanted hash same))
              (had hash (insert_self-HasHash hash id resolved after))
        | inr differs ↦ new wanted (rw differs at h)
      ],
    )

add_new-exists :
    (hash : Text) (seen : List Text) → exists_row (text_eq hash) (add_new hash seen) ≡ true
unfolding exists_row
add_new-exists hash seen = elim (Bool-cases (exists_row (text_eq hash) seen)) [
  | inl there ↦ rw there there
  | inr missing ↦
      rw (missing, exists_row-append (text_eq hash) seen (hash ∷ []), text_eq_refl hash, missing)
        refl
]

add_new-keeps :
    (hash other : Text) (seen : List Text)
    → exists_row (text_eq other) seen ≡ true
    → exists_row (text_eq other) (add_new hash seen) ≡ true
add_new-keeps hash other seen h = elim (Bool-cases (exists_row (text_eq hash) seen)) [
  | inl there ↦ rw there h
  | inr missing ↦ rw (missing, exists_row-append (text_eq other) seen (hash ∷ []), h) refl
]

-- A hash has a normal form, which is one of these.
abbrev pub IsListed : Casing → List Text → Text → Type 0
IsListed u normal hash =
    (text : Text) × (normalize u hash ≡ ok text) × (exists_row (text_eq text) normal ≡ true)

normalize_hashes_lem :
    (u : Casing) (hashes seen normal : List Text)
    → normalize_hashes u hashes seen ≡ ok normal
    → ((text : Text)
        → exists_row (text_eq text) seen ≡ true
        → exists_row (text_eq text) normal ≡ true)
      × All (IsListed u normal) hashes
unfolding normalize_hashes
normalize_hashes_lem u [] seen normal h =
    (λ text there. subst (λ n. exists_row (text_eq text) n ≡ true) (ok-seen h) there, tt)
  where
    ok-seen : ◌≡◌ {A = Result IdError (List Text)} (ok seen) (ok normal) → seen ≡ normal
    ok-seen p = cc
normalize_hashes_lem u (hash ∷ hashes) seen normal h =
    let (text, spelled, rest) = >>=-eq-ok (normalize u hash) _ h in
    let (kept, listed) = normalize_hashes_lem u hashes (add_new text seen) normal rest in
    (
      λ other there. kept other (add_new-keeps text other seen there),
      ((text, spelled, kept text (add_new-exists text seen)), listed),
    )

-- A hash has an id under its normal form, and the id is that of a row with the hash.
abbrev pub IsResolved : Casing → Map ℕ → List (Row Text) → Text → Type 0
IsResolved u resolved after hash =
    (text : Text) × (id : ℕ) × HasForm u hash text
    × (resolved text ≡ some id)
    × (find_key id after ≡ some text)

-- What a request with a hash that has no normal form returns.
abbrev pub IsRefused :
    Casing → List Text → List (Row Text) → Result IdError (Map ℕ) × List (Row Text) → Type 0
IsRefused u hashes rows result =
    (hash : Text) × (exists_row (text_eq hash) hashes ≡ true)
    × ((text : Text) → ¬ HasForm u hash text)
    × (result ≡ (err (invalid_hash hash), rows))

All-map : {P Q : Text → Type 0} (xs : List Text) → ((x : Text) → P x → Q x) → All P xs → All Q xs
All-map [] f _ = tt
All-map (x ∷ xs) f (p, ps) = (f x p, All-map xs f ps)

-- What a request returns whose hashes all have a normal form.
abbrev pub IsServed :
    Casing → List Text → List (Row Text) → Result IdError (Map ℕ) × List (Row Text) → Type 0
IsServed u hashes rows result =
    (resolved : Map ℕ) × (result.0 ≡ ok resolved)
    × All (IsResolved u resolved result.1) hashes
    × KeepsHashes rows result.1
    × IsUnique text_eq result.1

-- In a table without two rows for one hash or one id, ensureHashIDs returns a map, or one of the
-- hashes is not 64 hex digits without the white space around it and in lower case. A map that it
-- returns has under the normal form of every hash the id of the row of that hash; every id stands for
-- the hash that it stood for; and the table still has no two rows for one hash or one id. Otherwise
-- the error names such a hash, and the table stays as it was.
pub ensure_hash_ids_lem :
    (r : RowIds) (u : Casing) (hashes : List Text) (rows : List (Row Text))
    → IsUnique text_eq rows
    → IsServed u hashes rows (ensure_hash_ids r u hashes rows)
      ⊎ IsRefused u hashes rows (ensure_hash_ids r u hashes rows)
unfolding ensure_hash_ids ensure_hash_ids_tx
ensure_hash_ids_lem r u hashes rows unique = by_normal (normalize_hashes u hashes []) refl
  where
    result : Result IdError (List Text) → Result IdError (Map ℕ) × List (Row Text)
    result n = commit_hashes rows (n >>= λ normal. resolve_all r normal (Maps.empty, rows))

    by_normal :
        (n : Result IdError (List Text))
        → normalize_hashes u hashes [] ≡ n
        → IsServed u hashes rows (result n) ⊎ IsRefused u hashes rows (result n)
    by_normal (err e) h =
        let (hash, there, refused) = normalize_hashes_refused u hashes [] e h in
        let (named, formless) = normalize_refused u hash e refused in
        inr (hash, there, formless, ap (λ d. (err d, rows)) named)
    by_normal (ok normal) h =
        let ((resolved, after), done, unique', right, keeps, _, new) =
          resolve_all_lem r normal (Maps.empty, rows) unique (nothing-IsRight rows) in
        let (_, listed) = normalize_hashes_lem u hashes [] normal h in
        inl (
          rw done (
            resolved,
            refl,
            All-map hashes
                (λ hash (text, spelled, there).
                  let (id, found) = has_id_of text resolved after (new text there) in
                  (
                    text,
                    id,
                    normalize_form u hash text spelled,
                    found,
                    right_at resolved after right text id found,
                  ))
                listed,
            keeps,
            unique',
          ))
