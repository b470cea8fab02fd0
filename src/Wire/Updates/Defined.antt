-- ===== src/Wire/Updates/Defined.antt =====
-- Definitions as the repository writes them, and what they define when they are read.
use hydrus_go.Base.{
  ℕ, ◌≡◌, refl, ap, sym, ◌∙◌, Bool, true, false, Option, none, some, List, [], ◌∷◌, ◌++◌,
  if◌then◌else◌, All, arith,
}
use hydrus_go.Base.Strings.{Text, Casing, to_lower, trim_space}
use hydrus_go.Base.Results.{ok}
use hydrus_go.Base.Int.{ℤ, pos, eqb_ℤ}
use hydrus_go.Wire.{Value, str, list, Items, end, item, Codec}
use hydrus_go.Wire.Requests.{pair, triple}
use hydrus_go.Wire.Numbers.Laws.{IsInt64, wire_int, any_to_int64-wire_int}
use hydrus_go.Wire.Updates.{
  DefinitionsUpdate, insert_id, no_definitions, hash_rows, tag_rows, definitions_loop,
  decode_definitions_update_payload,
}
use hydrus_go.Wire.Body.{decode_tuple_bytes}
use hydrus_go.Wire.Body.Carried.{Carries, decode_network_bytes_iff}
use hydrus_go.Wire.Serialisable.{as_tuple}

-- The definitions of one type, of which this client knows those of hashes and of tags.
pub data Block : Type 0 where
  hashes : List (ℤ × Text) → Block
  tags : List (ℤ × Text) → Block
  unknown : ℤ → Items → Block

abbrev pub write_definitions : List (ℤ × Text) → Items
write_definitions [] = end
write_definitions ((id, text) ∷ rows) =
    item (pair (wire_int id) (str text)) (write_definitions rows)

abbrev pub write_block : Block → Value
write_block (hashes rows) = pair (wire_int (pos 0)) (list (write_definitions rows))
write_block (tags rows) = pair (wire_int (pos 1)) (list (write_definitions rows))
write_block (unknown type rows) = pair (wire_int type) (list rows)

abbrev pub write_blocks : List Block → Items
write_blocks [] = end
write_blocks (block ∷ blocks) = item (write_block block) (write_blocks blocks)

abbrev pub IsDefinition : ℤ × Text → Type 0
IsDefinition row = IsInt64 row.0

abbrev pub IsBlock : Block → Type 0
IsBlock (hashes rows) = All IsDefinition rows
IsBlock (tags rows) = All IsDefinition rows
IsBlock (unknown type rows) =
    IsInt64 type × (eqb_ℤ type (pos 0) ≡ false) × (eqb_ℤ type (pos 1) ≡ false)

-- All definitions of hashes in the order of the file, and those of tags.
abbrev pub hash_definitions : List Block → List (ℤ × Text)
hash_definitions [] = []
hash_definitions (hashes rows ∷ blocks) = rows ++ hash_definitions blocks
hash_definitions (tags rows ∷ blocks) = hash_definitions blocks
hash_definitions (unknown type rows ∷ blocks) = hash_definitions blocks

abbrev pub tag_definitions : List Block → List (ℤ × Text)
tag_definitions [] = []
tag_definitions (hashes rows ∷ blocks) = tag_definitions blocks
tag_definitions (tags rows ∷ blocks) = rows ++ tag_definitions blocks
tag_definitions (unknown type rows ∷ blocks) = tag_definitions blocks

-- The first of two, if it is there.
abbrev pub or_else : Option Text → Option Text → Option Text
or_else none o = o
or_else (some t) o = some t

-- The last definition of an id, as `read` makes of its text.
abbrev pub last_definition : (Text → Text) → ℤ → List (ℤ × Text) → Option Text
last_definition read id [] = none
last_definition read id ((j, text) ∷ rows) =
    or_else (last_definition read id rows) (if eqb_ℤ j id then some (read text) else none)

abbrev pub as_hash : Casing → Text → Text
as_hash u text = to_lower u (trim_space text)

abbrev pub as_tag : Text → Text
as_tag text = text

-- The rows put into a map one after the other.
abbrev insert_rows : (Text → Text) → List (ℤ × Text) → (ℤ → Option Text) → ℤ → Option Text
insert_rows read [] m = m
insert_rows read ((id, text) ∷ rows) m = insert_rows read rows (insert_id id (read text) m)

insert_rows-append :
    (read : Text → Text) (rows rest : List (ℤ × Text)) (m : ℤ → Option Text)
    → insert_rows read (rows ++ rest) m ≡ insert_rows read rest (insert_rows read rows m)
insert_rows-append read [] rest m = refl
insert_rows-append read ((id, text) ∷ rows) rest m =
    insert_rows-append read rows rest (insert_id id (read text) m)

insert_rows-last :
    (read : Text → Text) (rows : List (ℤ × Text)) (m : ℤ → Option Text) (id : ℤ)
    → insert_rows read rows m id ≡ or_else (last_definition read id rows) (m id)
insert_rows-last read [] m id = refl
insert_rows-last read ((j, text) ∷ rows) m id =
    insert_rows-last read rows (insert_id j (read text) m) id
    ∙ behind (last_definition read id rows) (eqb_ℤ j id)
  where
    behind :
        (o : Option Text) (same : Bool)
        → or_else o (if same then some (read text) else m id)
          ≡ or_else (or_else o (if same then some (read text) else none)) (m id)
    behind none true = refl
    behind none false = refl
    behind (some t) same = refl

-- The definitions after the blocks.
abbrev after_blocks : Casing → List Block → DefinitionsUpdate → DefinitionsUpdate
after_blocks u blocks d = record {
  service_hash_ids_to_hashes =
      insert_rows (as_hash u) (hash_definitions blocks) d.service_hash_ids_to_hashes;
  service_tag_ids_to_tags = insert_rows as_tag (tag_definitions blocks) d.service_tag_ids_to_tags;
}

module _ (c : Codec) (u : Casing) where
  hash_rows-written :
      (rows : List (ℤ × Text)) (d : DefinitionsUpdate)
      → All IsDefinition rows
      → hash_rows c u (write_definitions rows) d
        ≡ ok (record d {
          service_hash_ids_to_hashes = insert_rows (as_hash u) rows d.service_hash_ids_to_hashes;
        })
  unfolding hash_rows
  hash_rows-written [] d h = refl
  hash_rows-written ((id, text) ∷ rows) d (h, hs) =
      rw (any_to_int64-wire_int c id h) (hash_rows-written rows _ hs)

  tag_rows-written :
      (rows : List (ℤ × Text)) (d : DefinitionsUpdate)
      → All IsDefinition rows
      → tag_rows c (write_definitions rows) d
        ≡ ok (record d {
          service_tag_ids_to_tags = insert_rows as_tag rows d.service_tag_ids_to_tags;
        })
  unfolding tag_rows
  tag_rows-written [] d h = refl
  tag_rows-written ((id, text) ∷ rows) d (h, hs) =
      rw (any_to_int64-wire_int c id h) (tag_rows-written rows _ hs)

  definitions_loop-written :
      (blocks : List Block) (d : DefinitionsUpdate)
      → All IsBlock blocks
      → definitions_loop c u (write_blocks blocks) d ≡ ok (after_blocks u blocks d)
  unfolding definitions_loop
  definitions_loop-written [] d h = refl
  definitions_loop-written (hashes rows ∷ blocks) d (h, hs) =
      rw (any_to_int64-wire_int c (pos 0) (omega arith), hash_rows-written rows d h)
        (definitions_loop-written blocks _ hs
          ∙ ap (λ m. ok (record (after_blocks u blocks d) { service_hash_ids_to_hashes = m }))
              (sym (
                insert_rows-append (as_hash u) rows (hash_definitions blocks)
                  d.service_hash_ids_to_hashes)))
  definitions_loop-written (tags rows ∷ blocks) d (h, hs) =
      rw (any_to_int64-wire_int c (pos 1) (omega arith), tag_rows-written rows d h)
        (definitions_loop-written blocks _ hs
          ∙ ap (λ m. ok (record (after_blocks u blocks d) { service_tag_ids_to_tags = m }))
              (sym (
                insert_rows-append as_tag rows (tag_definitions blocks) d.service_tag_ids_to_tags)))
  definitions_loop-written (unknown type rows ∷ blocks) d ((ht, n0, n1), hs) =
      rw (any_to_int64-wire_int c type ht, n0, n1) (definitions_loop-written blocks d hs)

abbrev pub write_definitions_update : List Block → Value
write_definitions_update blocks =
    triple (wire_int (pos 36)) (wire_int (pos 1)) (list (write_blocks blocks))

-- A body that carries a definitions file whose numbers are int64 is decoded, whatever other blocks
-- the file has. An id of a hash, or of a tag, gets what its last definition in the file says, a hash
-- trimmed and in lower case, and no other id is defined.
pub decode_definitions-written :
    (c : Codec) (u : Casing) (body : List ℕ) (blocks : List Block)
    → Carries c body (write_definitions_update blocks)
    → All IsBlock blocks
    → (d : DefinitionsUpdate) × (decode_definitions_update_payload c u body ≡ ok d)
      × ((id : ℤ)
          → d.service_hash_ids_to_hashes id
            ≡ last_definition (as_hash u) id (hash_definitions blocks))
      × ((id : ℤ)
          → d.service_tag_ids_to_tags id ≡ last_definition as_tag id (tag_definitions blocks))
unfolding decode_definitions_update_payload decode_tuple_bytes as_tuple
decode_definitions-written c u body blocks carried h = (
  after_blocks u blocks no_definitions,
  rw ((decode_network_bytes_iff c body _).1 carried, any_to_int64-wire_int c (pos 36) (omega arith))
      (definitions_loop-written c u blocks no_definitions h),
  λ id. insert_rows-last (as_hash u) (hash_definitions blocks) (λ j. none) id ∙ or_none _,
  λ id. insert_rows-last as_tag (tag_definitions blocks) (λ j. none) id ∙ or_none _,
)
  where
    or_none : (o : Option Text) → or_else o none ≡ o
    or_none none = refl
    or_none (some t) = refl
