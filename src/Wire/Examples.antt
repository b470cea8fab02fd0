-- ===== src/Wire/Examples.antt =====
-- The theorems about the wire format on concrete bodies.
use hydrus_go.Base.{
  ℕ, ◌≡◌, ◌↔◌, refl, false, none, some, List, [], ◌∷◌, if◌then◌else◌, map, arith, All,
}
use hydrus_go.Base.Strings.{codes, text_eq, trim_space, ascii_casing}
use hydrus_go.Base.Results.{ok}
use hydrus_go.Base.Int.{ℤ, pos, negsuc}
use hydrus_go.PtrSync.Mappings.{UpdatedMappings}
use hydrus_go.Wire.{Value, nil, str, MetadataSlice, Codec}
use hydrus_go.Wire.Numbers.{decode_hex, hex_value}
use hydrus_go.Wire.Serialisable.Dictionary.{Entry, write_json}
use hydrus_go.Wire.Body.{decode_network_bytes}
use hydrus_go.Wire.Body.Carried.{Carries, decode_network_bytes_iff}
use hydrus_go.Wire.Updates.{
  DefinitionsUpdate, decode_definitions_update_payload, decode_mappings_update_payload,
}
use hydrus_go.Wire.Updates.Written.{
  Content, write_mappings_update, rows_of, decode_mappings-written,
}
use hydrus_go.Wire.Updates.Defined.{
  Block, write_definitions_update, as_hash, as_tag, hash_definitions, tag_definitions,
  last_definition, decode_definitions-written,
}
use hydrus_go.Wire.Responses.{decode_metadata_response}
use hydrus_go.Wire.Responses.Metadata.{write_response, decode_metadata_response-written}
use hydrus_go.Wire.Requests.{PendingGroup, client_to_server_update}
use hydrus_go.Wire.Requests.Upload.{
  IsSendable, normal_group, is_nil, read_upload, client_to_server_update-read,
  client_to_server_update-sent,
}

abbrev json_text : List ℕ
json_text = codes "[34, 1, [[0, [[0, [[7, [1, 2]]]]]]]]"

-- A codec that knows one document, which stands for the value.
abbrev codec_of : Value → Codec
codec_of v = record {
  inflate = λ body. some body;
  deflate = λ payload. payload;
  parse_json = λ payload. if text_eq payload json_text then some v else none;
  marshal = λ w. json_text;
  utf8 = λ s. s;
  float_int64 = λ s. none;
}

known : (v : Value) → Carries (codec_of v) json_text v
unfolding text_eq
known v = (json_text, refl, omega arith, refl)

decode_network_bytes_example :
    (decode_network_bytes (codec_of nil) json_text ≡ ok nil) ↔ Carries (codec_of nil) json_text nil
decode_network_bytes_example = decode_network_bytes_iff (codec_of nil) json_text nil

abbrev row : ℤ → List ℤ → UpdatedMappings
row tag_id hash_ids = record { service_tag_id = tag_id; service_hash_ids = hash_ids }

abbrev contents : List Content
contents =
    Content.mappings (
      (pos 0, row (pos 7) (pos 1 ∷ pos 2 ∷ []) ∷ [])
      ∷ (pos 1, row (pos 8) (negsuc 0 ∷ []) ∷ [])
      ∷ (pos 5, row (pos 9) [] ∷ [])
      ∷ [])
    ∷ Content.other (pos 3) nil
    ∷ []

decode_mappings_example :
    decode_mappings_update_payload (codec_of (write_mappings_update contents)) json_text
    ≡ ok (record { adds = rows_of (pos 0) contents; deletes = rows_of (pos 1) contents })
decode_mappings_example =
    decode_mappings-written (codec_of (write_mappings_update contents)) json_text contents
      (known (write_mappings_update contents)) (ground arith)

read_adds : rows_of (pos 0) contents ≡ row (pos 7) (pos 1 ∷ pos 2 ∷ []) ∷ []
read_adds = refl

abbrev blocks : List Block
blocks =
    Block.hashes ((pos 1, codes "00FF") ∷ (pos 1, codes "aa") ∷ [])
    ∷ Block.tags ((pos 4, codes "blue eyes") ∷ [])
    ∷ []

abbrev definitions_codec : Codec
definitions_codec = codec_of (write_definitions_update blocks)

decode_definitions_example :
    (d : DefinitionsUpdate) × (decode_definitions_update_payload definitions_codec ascii_casing
        json_text
      ≡ ok d)
    × ((id : ℤ)
        → d.service_hash_ids_to_hashes id
          ≡ last_definition (as_hash ascii_casing) id (hash_definitions blocks))
    × ((id : ℤ) → d.service_tag_ids_to_tags id ≡ last_definition as_tag id (tag_definitions blocks))
decode_definitions_example =
    decode_definitions-written definitions_codec ascii_casing json_text blocks
      (known (write_definitions_update blocks)) (omega arith)

abbrev slice : MetadataSlice
slice = record {
  updates =
      record {
        update_index = pos 3;
        update_hashes = (0 ∷ 255 ∷ []) ∷ [];
        begin_at = pos 1600000000;
        end_at = pos 1600086400;
      }
      ∷ [];
  next_update_due = pos 1600090000;
}

decode_metadata_example :
    decode_metadata_response (codec_of (write_response slice)) json_text ≡ ok slice
decode_metadata_example =
    decode_metadata_response-written (codec_of (write_response slice)) json_text slice
      (known (write_response slice)) (omega arith)

abbrev entries : List Entry
entries =
    record { key = codes "a"; meta = write_json nil; holds = nil }
    ∷ record { key = codes "a"; meta = write_json (str []); holds = str [] }
    ∷ []

abbrev group : PendingGroup
group = record { tag = codes " blue eyes "; hashes = codes "00FF" ∷ codes " aa" ∷ [] }

group-IsSendable : All (IsSendable ascii_casing) (group ∷ [])
unfolding trim_space decode_hex hex_value
group-IsSendable =
    ((refl, refl, ((refl, (0 ∷ 255 ∷ [], refl)), ((refl, (170 ∷ [], refl)), tt))), tt)

client_to_server_update_example :
    (v : Value) × (client_to_server_update ascii_casing (group ∷ []) ≡ ok v)
    × (read_upload v ≡ some (map (normal_group ascii_casing) (group ∷ [])))
client_to_server_update_example =
    client_to_server_update-read ascii_casing group [] group-IsSendable

sent_example : All (IsSendable ascii_casing) (group ∷ []) × (is_nil (group ∷ []) ≡ false)
sent_example =
    client_to_server_update-sent ascii_casing (group ∷ []) client_to_server_update_example.0
      client_to_server_update_example.1
