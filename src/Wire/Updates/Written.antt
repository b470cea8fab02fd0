-- ===== src/Wire/Updates/Written.antt =====
-- Content updates as the repository writes them, and that they are read back.
use hydrus_go.Base.{
  ℕ, ◌≡◌, refl, ap, sym, ◌∙◌, Bool, true, false, List, [], ◌∷◌, ◌++◌, append_assoc, append-nil,
  ◌&&◌, if◌then◌else◌, All, arith,
}
use hydrus_go.Base.Results.{ok}
use hydrus_go.Base.Int.{ℤ, pos, eqb_ℤ}
use hydrus_go.PtrSync.Mappings.{UpdatedMappings, MappingsUpdate}
use hydrus_go.Wire.{Value, list, Items, end, item, Codec}
use hydrus_go.Wire.Requests.{pair, triple}
use hydrus_go.Wire.Numbers.Laws.{IsInt64, wire_int, any_to_int64-wire_int}
use hydrus_go.Wire.Body.{decode_tuple_bytes}
use hydrus_go.Wire.Body.Carried.{Carries, decode_network_bytes_iff}
use hydrus_go.Wire.Serialisable.{as_tuple}
use hydrus_go.Wire.Updates.{
  no_mappings, decode_mappings_update_payload, hash_ids, mapping_row, record_row, action_rows,
  actions_loop, contents_loop,
}

-- A content of the update: the rows of mappings under each action, or what this client passes over.
pub data Content : Type 0 where
  mappings : List (ℤ × List UpdatedMappings) → Content
  other : ℤ → Value → Content

abbrev pub write_ids : List ℤ → Items
write_ids [] = end
write_ids (id ∷ ids) = item (wire_int id) (write_ids ids)

abbrev pub write_rows : List UpdatedMappings → Items
write_rows [] = end
write_rows (row ∷ rows) =
    item (pair (wire_int row.service_tag_id) (list (write_ids row.service_hash_ids)))
      (write_rows rows)

abbrev pub write_actions : List (ℤ × List UpdatedMappings) → Items
write_actions [] = end
write_actions ((action, rows) ∷ actions) =
    item (pair (wire_int action) (list (write_rows rows))) (write_actions actions)

abbrev pub write_content : Content → Value
write_content (mappings actions) = pair (wire_int (pos 0)) (list (write_actions actions))
write_content (other type v) = pair (wire_int type) v

abbrev pub write_contents : List Content → Items
write_contents [] = end
write_contents (content ∷ contents) = item (write_content content) (write_contents contents)

-- The numbers are int64, and only a content of mappings has the type of one.
abbrev pub IsRow : UpdatedMappings → Type 0
IsRow row = IsInt64 row.service_tag_id × All IsInt64 row.service_hash_ids

abbrev pub IsAction : ℤ × List UpdatedMappings → Type 0
IsAction a = IsInt64 a.0 × All IsRow a.1

abbrev pub IsContent : Content → Type 0
IsContent (mappings actions) = All IsAction actions
IsContent (other type v) = IsInt64 type × (eqb_ℤ type (pos 0) ≡ false)

-- All rows of an action, in the order of the file.
abbrev pub rows_under : ℤ → List (ℤ × List UpdatedMappings) → List UpdatedMappings
rows_under action [] = []
rows_under action ((a, rows) ∷ actions) =
    (if eqb_ℤ a action then rows else []) ++ rows_under action actions

abbrev pub rows_of : ℤ → List Content → List UpdatedMappings
rows_of action [] = []
rows_of action (mappings actions ∷ contents) = rows_under action actions ++ rows_of action contents
rows_of action (other type v ∷ contents) = rows_of action contents

abbrev pub extended : MappingsUpdate → List UpdatedMappings → List UpdatedMappings → MappingsUpdate
extended d added deleted = record { adds = d.adds ++ added; deletes = d.deletes ++ deleted }

abbrev when : Bool → List UpdatedMappings → List UpdatedMappings
when b rows = if b then rows else []

-- The rows of an action added to what was read before.
abbrev recorded : ℤ → List UpdatedMappings → MappingsUpdate → MappingsUpdate
recorded action rows d =
    extended d (when (eqb_ℤ action (pos 0)) rows) (when (eqb_ℤ action (pos 1)) rows)

extended_nil : (d : MappingsUpdate) → extended d [] [] ≡ d
extended_nil d = simp append-nil

extended_twice :
    (d : MappingsUpdate) (a b a' b' : List UpdatedMappings)
    → extended (extended d a b) a' b' ≡ extended d (a ++ a') (b ++ b')
extended_twice d a b a' b' = simp append_assoc

record_first :
    (adding deleting : Bool) (row : UpdatedMappings) (rows : List UpdatedMappings)
    (d : MappingsUpdate)
    → (adding && deleting) ≡ false
    → extended
        (if adding
          then record d { adds = d.adds ++ (row ∷ []) }
          else if deleting
          then record d { deletes = d.deletes ++ (row ∷ []) }
          else d)
        (when adding rows)
        (when deleting rows)
      ≡ extended d (when adding (row ∷ rows)) (when deleting (row ∷ rows))
record_first true true row rows d h = cc
record_first true false row rows d h = simp append_assoc
record_first false true row rows d h = simp append_assoc
record_first false false row rows d h = refl

recorded_first :
    (action : ℤ) (row : UpdatedMappings) (rows : List UpdatedMappings) (d : MappingsUpdate)
    → recorded action rows (record_row action row d) ≡ recorded action (row ∷ rows) d
recorded_first action row rows d =
    record_first (eqb_ℤ action (pos 0)) (eqb_ℤ action (pos 1)) row rows d (ground arith)

module _ (c : Codec) where
  hash_ids-write_ids : (ids : List ℤ) → All IsInt64 ids → hash_ids c (write_ids ids) ≡ ok ids
  unfolding hash_ids
  hash_ids-write_ids [] h = refl
  hash_ids-write_ids (id ∷ ids) (h, hs) =
      rw (any_to_int64-wire_int c id h, hash_ids-write_ids ids hs) refl

  mapping_row-written :
      (row : UpdatedMappings)
      → IsRow row
      → mapping_row c (pair (wire_int row.service_tag_id) (list (write_ids row.service_hash_ids)))
        ≡ ok row
  unfolding mapping_row
  mapping_row-written row (h, hs) =
      rw (any_to_int64-wire_int c row.service_tag_id h, hash_ids-write_ids row.service_hash_ids hs)
        refl

  action_rows-written :
      (action : ℤ) (rows : List UpdatedMappings) (d : MappingsUpdate)
      → All IsRow rows
      → action_rows c action (write_rows rows) d ≡ ok (recorded action rows d)
  unfolding action_rows
  action_rows-written action [] d h =
      ap ok (sym (nothing (eqb_ℤ action (pos 0)) (eqb_ℤ action (pos 1))))
    where
      nothing : (a b : Bool) → extended d (when a []) (when b []) ≡ d
      nothing true true = extended_nil d
      nothing true false = extended_nil d
      nothing false true = extended_nil d
      nothing false false = extended_nil d
  action_rows-written action (row ∷ rows) d (h, hs) = rw (mapping_row-written row h) (
      action_rows-written action rows (record_row action row d) hs
      ∙ ap ok (recorded_first action row rows d))

  actions_loop-written :
      (actions : List (ℤ × List UpdatedMappings)) (d : MappingsUpdate)
      → All IsAction actions
      → actions_loop c (write_actions actions) d
        ≡ ok (extended d (rows_under (pos 0) actions) (rows_under (pos 1) actions))
  unfolding actions_loop
  actions_loop-written [] d h = ap ok (sym (extended_nil d))
  actions_loop-written ((action, rows) ∷ actions) d ((ha, hr), hs) =
      rw (any_to_int64-wire_int c action ha, action_rows-written action rows d hr)
        (actions_loop-written actions (recorded action rows d) hs
          ∙ ap ok (
              extended_twice d (when (eqb_ℤ action (pos 0)) rows) (when (eqb_ℤ action (pos 1)) rows)
                (rows_under (pos 0) actions) (rows_under (pos 1) actions)))

  contents_loop-written :
      (contents : List Content) (d : MappingsUpdate)
      → All IsContent contents
      → contents_loop c (write_contents contents) d
        ≡ ok (extended d (rows_of (pos 0) contents) (rows_of (pos 1) contents))
  unfolding contents_loop
  contents_loop-written [] d h = ap ok (sym (extended_nil d))
  contents_loop-written (other type v ∷ contents) d ((ht, hn), hs) =
      rw (any_to_int64-wire_int c type ht, hn) (contents_loop-written contents d hs)
  contents_loop-written (mappings actions ∷ contents) d (h, hs) =
      rw (any_to_int64-wire_int c (pos 0) (omega arith), actions_loop-written actions d h)
        (contents_loop-written contents
            (extended d (rows_under (pos 0) actions) (rows_under (pos 1) actions)) hs
          ∙ ap ok (
              extended_twice d (rows_under (pos 0) actions) (rows_under (pos 1) actions)
                (rows_of (pos 0) contents) (rows_of (pos 1) contents)))

abbrev pub write_mappings_update : List Content → Value
write_mappings_update contents =
    triple (wire_int (pos 34)) (wire_int (pos 1)) (list (write_contents contents))

-- A body that carries a content file whose numbers are int64 is decoded: the adds are all its rows of
-- mappings under action 0, the deletes those under action 1, each in the order of the file; rows
-- under other actions and contents of other types leave nothing.
pub decode_mappings-written :
    (c : Codec) (body : List ℕ) (contents : List Content)
    → Carries c body (write_mappings_update contents)
    → All IsContent contents
    → decode_mappings_update_payload c body
      ≡ ok (record { adds = rows_of (pos 0) contents; deletes = rows_of (pos 1) contents })
unfolding decode_mappings_update_payload decode_tuple_bytes as_tuple
decode_mappings-written c body contents carried h =
    rw
      (
        (decode_network_bytes_iff c body _).1 carried,
        any_to_int64-wire_int c (pos 34) (omega arith),
      )
      (contents_loop-written c contents no_mappings h)
