-- ===== src/Wire/Updates.antt =====
-- wire.go: the update files of the repository (`decodeDefinitionsUpdatePayload`,
-- `decodeMappingsUpdatePayload`).
pub mod Written
pub mod Kinds
pub mod Defined
use hydrus_go.Base.{ℕ, true, false, Option, none, some, List, [], ◌∷◌, ◌++◌, if◌then◌else◌}
use hydrus_go.Base.Strings.{Text, Casing, to_lower, trim_space}
use hydrus_go.Base.Results.{Result, ok, err, ◌>>=◌}
use hydrus_go.Base.Int.{ℤ, pos, eqb_ℤ}
use hydrus_go.PtrSync.Mappings.{UpdatedMappings, MappingsUpdate}
use hydrus_go.Wire.{
  Value, Items, end, item, WireError, unsupported_type, Codec, as_items, as_text, as_pair,
}
use hydrus_go.Wire.Numbers.{any_to_int64}
use hydrus_go.Wire.Body.{decode_tuple_bytes, definitions_update_type, content_update_type}

-- `PTRDefinitionsUpdate`
pub record DefinitionsUpdate : Type 0 where
  pub service_hash_ids_to_hashes : ℤ → Option Text
  pub service_tag_ids_to_tags : ℤ → Option Text

-- `m[id] = text` on a map with int64 keys
abbrev pub insert_id : ℤ → Text → (ℤ → Option Text) → ℤ → Option Text
insert_id id text m j = if eqb_ℤ id j then some text else m j

abbrev pub no_definitions : DefinitionsUpdate
no_definitions = record {
  service_hash_ids_to_hashes = λ id. none;
  service_tag_ids_to_tags = λ id. none;
}

-- The rows of hash definitions, and of tag definitions.
unfoldable pub hash_rows :
    Codec → Casing → Items → DefinitionsUpdate → Result WireError DefinitionsUpdate
hash_rows c u end d = ok d
hash_rows c u (item v vs) d = as_pair "hash definition row" v >>= λ row.
    any_to_int64 c row.0 >>= λ id. as_text "hash definition value" row.1 >>= λ hash_hex.
    hash_rows c u vs (record d {
      service_hash_ids_to_hashes =
          insert_id id (to_lower u (trim_space hash_hex)) d.service_hash_ids_to_hashes;
    })

unfoldable pub tag_rows : Codec → Items → DefinitionsUpdate → Result WireError DefinitionsUpdate
tag_rows c end d = ok d
tag_rows c (item v vs) d = as_pair "tag definition row" v >>= λ row. any_to_int64 c row.0 >>= λ id.
    as_text "tag definition value" row.1 >>= λ tag.
    tag_rows c vs
      (record d { service_tag_ids_to_tags = insert_id id tag d.service_tag_ids_to_tags })

abbrev pub definition_rows :
    Codec → Casing → ℤ → Items → DefinitionsUpdate → Result WireError DefinitionsUpdate
definition_rows c u type rows d =
    if eqb_ℤ type (pos 0)
    then hash_rows c u rows d
    else if eqb_ℤ type (pos 1)
    then tag_rows c rows d
    else ok d

unfoldable pub definitions_loop :
    Codec → Casing → Items → DefinitionsUpdate → Result WireError DefinitionsUpdate
definitions_loop c u end d = ok d
definitions_loop c u (item v vs) d = as_pair "definition row" v >>= λ p.
    any_to_int64 c p.0 >>= λ type. as_items "definition rows" p.1 >>= λ rows.
    definition_rows c u type rows d >>= definitions_loop c u vs

-- The payload of a tuple that must have the type.
abbrev pub typed_payload : Codec → ℤ → Value × Value → Result WireError Value
typed_payload c wanted p =
    any_to_int64 c p.0 >>= λ type. if eqb_ℤ type wanted then ok p.1 else err (unsupported_type type)

-- `decodeDefinitionsUpdatePayload`
unfoldable pub decode_definitions_update_payload :
    Codec → Casing → List ℕ → Result WireError DefinitionsUpdate
decode_definitions_update_payload c u body = decode_tuple_bytes c body >>= λ p.
    typed_payload c definitions_update_type p >>= λ info.
    as_items "definitions payload" info >>= λ definitions.
    definitions_loop c u definitions no_definitions

unfoldable pub hash_ids : Codec → Items → Result WireError (List ℤ)
hash_ids c end = ok []
hash_ids c (item v vs) = any_to_int64 c v >>= λ id. hash_ids c vs >>= λ ids. ok (id ∷ ids)

-- `decodePTRMappingUpdateRow`
unfoldable pub mapping_row : Codec → Value → Result WireError UpdatedMappings
mapping_row c v = as_pair "mapping update row" v >>= λ row. any_to_int64 c row.0 >>= λ tag_id.
    as_items "mapping service hash ids" row.1 >>= λ values.
    hash_ids c values >>= λ ids. ok (record { service_tag_id = tag_id; service_hash_ids = ids })

-- `switch action`
abbrev pub record_row : ℤ → UpdatedMappings → MappingsUpdate → MappingsUpdate
record_row action row d =
    if eqb_ℤ action (pos 0)
    then record d { adds = d.adds ++ (row ∷ []) }
    else if eqb_ℤ action (pos 1)
    then record d { deletes = d.deletes ++ (row ∷ []) }
    else d

unfoldable pub action_rows : Codec → ℤ → Items → MappingsUpdate → Result WireError MappingsUpdate
action_rows c action end d = ok d
action_rows c action (item v vs) d =
    mapping_row c v >>= λ row. action_rows c action vs (record_row action row d)

unfoldable pub actions_loop : Codec → Items → MappingsUpdate → Result WireError MappingsUpdate
actions_loop c end d = ok d
actions_loop c (item v vs) d = as_pair "mappings action row" v >>= λ p.
    any_to_int64 c p.0 >>= λ action. as_items "mappings action rows" p.1 >>= λ rows.
    action_rows c action rows d >>= actions_loop c vs

-- A content that is not of mappings is passed over unread.
abbrev pub content_row : Codec → Value × Value → MappingsUpdate → Result WireError MappingsUpdate
content_row c p d = any_to_int64 c p.0 >>= λ type.
    if eqb_ℤ type (pos 0)
    then (as_items "mappings actions payload" p.1 >>= λ actions. actions_loop c actions d)
    else ok d

unfoldable pub contents_loop : Codec → Items → MappingsUpdate → Result WireError MappingsUpdate
contents_loop c end d = ok d
contents_loop c (item v vs) d =
    as_pair "content update row" v >>= λ p. content_row c p d >>= contents_loop c vs

abbrev pub no_mappings : MappingsUpdate
no_mappings = record { adds = []; deletes = [] }

-- `decodeMappingsUpdatePayload`
unfoldable pub decode_mappings_update_payload : Codec → List ℕ → Result WireError MappingsUpdate
decode_mappings_update_payload c body = decode_tuple_bytes c body >>= λ p.
    typed_payload c content_update_type p >>= λ info.
    as_items "content update payload" info >>= λ contents. contents_loop c contents no_mappings
