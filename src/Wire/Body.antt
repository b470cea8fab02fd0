-- ===== src/Wire/Body.antt =====
-- wire.go: a body as the value that it holds, and the kind of an update file.
pub mod Carried
use hydrus_go.Base.{ℕ, true, false, Option, none, some, List, [], ◌∷◌, length, if◌then◌else◌}
use hydrus_go.Base.Results.{Result, ok, err, ◌>>=◌}
use hydrus_go.Base.Int.{ℤ, pos, eqb_ℤ, leb_ℤ, ltb_ℤ}
use hydrus_go.Wire.{
  Value, dict, Fields, WireError, unexpected_type, unsupported_type, bad_body, too_large, bad_json,
  Codec, from_option,
}
use hydrus_go.Wire.Numbers.{any_to_int64}
use hydrus_go.Wire.Serialisable.{as_tuple, decode_serialisable}

-- `ptrSyncMaxDecompressedResponseBytes`
abbrev pub max_decompressed_bytes : ℤ
max_decompressed_bytes = pos 134217728

-- `readLimitedBytes`, of a reader that yields these bytes or fails; without a positive limit it reads
-- all.
unfoldable pub read_limited_bytes : Option (List ℕ) → ℤ → Result WireError (List ℕ)
read_limited_bytes none max_bytes = err bad_body
read_limited_bytes (some payload) max_bytes =
    if leb_ℤ max_bytes (pos 0)
    then ok payload
    else if ltb_ℤ max_bytes (pos (length payload))
    then err too_large
    else ok payload

-- `decodeJSONAny`
abbrev pub decode_json : Codec → List ℕ → Result WireError Value
decode_json c payload = from_option bad_json (c.parse_json payload)

-- `decodeHydrusNetworkBytes`
unfoldable pub decode_network_bytes : Codec → List ℕ → Result WireError Value
decode_network_bytes c body =
    read_limited_bytes (c.inflate body) max_decompressed_bytes >>= decode_json c

abbrev pub as_args : Value → Result WireError Fields
as_args (dict args) = ok args
as_args _ = err (unexpected_type "Hydrus args")

-- `decodeHydrusArgsBytes`
unfoldable pub decode_args_bytes : Codec → List ℕ → Result WireError Fields
decode_args_bytes c body = decode_network_bytes c body >>= decode_serialisable c >>= as_args

-- `decodeHydrusSerialisableTuple`
unfoldable pub decode_tuple_bytes : Codec → List ℕ → Result WireError (Value × Value)
decode_tuple_bytes c body = decode_network_bytes c body >>= as_tuple

abbrev pub definitions_update_type : ℤ
definitions_update_type = pos 36

abbrev pub content_update_type : ℤ
content_update_type = pos 34

-- `classifyUpdatePayload`: the number of the media type of an update file
abbrev pub update_mime : ℤ → Result WireError ℕ
update_mime type =
    if eqb_ℤ type definitions_update_type
    then ok 28
    else if eqb_ℤ type content_update_type
    then ok 29
    else err (unsupported_type type)

unfoldable pub classify_update_payload : Codec → List ℕ → Result WireError ℕ
classify_update_payload c body =
    decode_tuple_bytes c body >>= λ p. any_to_int64 c p.0 >>= update_mime
