-- ===== src/Wire/Responses.antt =====
-- wire.go: the answers of the repository about the account, its options, its tag filter and the
-- metadata of its updates.
pub mod Metadata
use hydrus_go.Base.{ℕ, true, false, Option, none, some, List, [], ◌∷◌, if◌then◌else◌}
use hydrus_go.Base.Strings.{Text, codes, trim_space, text_eq}
use hydrus_go.Base.Results.{Result, ok, err, ◌>>=◌}
use hydrus_go.Base.Maps.{Map}
use hydrus_go.Base.Int.{ℤ, pos, eqb_ℤ}
use Prim.Native.String.{String}
use hydrus_go.Wire.{
  MetadataSlice, Value, nil, str, list, metadata, tag_filter, Items, end, item, Fields, WireError,
  missing, unexpected_type, unexpected_shape, unsupported_type, Codec, as_items, as_text, as_pair,
  from_option,
}
use hydrus_go.Wire.Numbers.{any_to_int64, any_to_optional_int64}
use hydrus_go.Wire.Serialisable.{get_field, as_tuple, hex_bytes, decode_meta}
use hydrus_go.Wire.Body.{decode_json, decode_args_bytes}

-- `AccountSnapshot`
pub record AccountSnapshot : Type 0 where
  pub account_key : List ℕ
  pub created : ℤ
  pub expires : Option ℤ
  pub message : Text
  pub message_created : ℤ
  pub banned_reason : Text
  pub banned_created : Option ℤ
  pub banned_expires : Option ℤ

-- `ServiceOptions`
pub record ServiceOptions : Type 0 where
  pub update_period : ℤ
  pub nullification_period : ℤ

-- The field decoders of `decodeAccountDictionaryString`, on what a meta tuple holds.
abbrev pub put_message : Value → AccountSnapshot → Result WireError AccountSnapshot
put_message nil a = ok (record a { message = [] })
put_message v a = as_text "message" v >>= λ text. ok (record a { message = text })

abbrev pub put_message_created : Codec → Value → AccountSnapshot → Result WireError AccountSnapshot
put_message_created c v a =
    any_to_int64 c v >>= λ created. ok (record a { message_created = created })

abbrev pub put_banned_info : Codec → Value → AccountSnapshot → Result WireError AccountSnapshot
put_banned_info c nil a = ok a
put_banned_info c (list (item r (item b (item e end)))) a =
    as_text "banned_info reason" r >>= λ reason. any_to_int64 c b >>= λ created.
    any_to_optional_int64 c e >>= λ expires.
    ok
      (record a { banned_reason = reason; banned_created = some created; banned_expires = expires })
put_banned_info c _ a = err (unexpected_shape "banned_info")

abbrev pub FieldDecoder : Type 0
FieldDecoder = Value → AccountSnapshot → Result WireError AccountSnapshot

abbrev pub on_meta : Codec → FieldDecoder → FieldDecoder
on_meta c put meta a = decode_meta c meta >>= λ v. put v a

-- `fieldDecoders`
unfoldable pub field_decoders : Codec → Text → Option FieldDecoder
field_decoders c key =
    if text_eq key (codes "message")
    then some (on_meta c put_message)
    else if text_eq key (codes "message_created")
    then some (on_meta c (put_message_created c))
    else if text_eq key (codes "banned_info")
    then some (on_meta c (put_banned_info c))
    else none

abbrev pub run_decoder :
    Option FieldDecoder → Value → AccountSnapshot → Result WireError AccountSnapshot
run_decoder none meta a = ok a
run_decoder (some decoder) meta a = decoder meta a

-- `decodeHydrusDictionarySelective`
unfoldable pub decode_selective :
    Codec
    → (Text → Option FieldDecoder)
    → Items
    → AccountSnapshot
    → Result WireError AccountSnapshot
decode_selective c decoders end a = ok a
decode_selective c decoders (item v vs) a = as_pair "dictionary pair" v >>= λ pair.
    decode_meta c pair.0 >>= λ key_value. as_text "dictionary key" key_value >>= λ key.
    run_decoder (decoders key) pair.1 a >>= decode_selective c decoders vs

-- `decodeHydrusSerialisableDictionarySelective`
unfoldable pub decode_serialisable_selective :
    Codec
    → (Text → Option FieldDecoder)
    → Value
    → AccountSnapshot
    → Result WireError AccountSnapshot
decode_serialisable_selective c decoders v a = as_tuple v >>= λ p. any_to_int64 c p.0 >>= λ type.
    if eqb_ℤ type (pos 21)
    then (as_items "dictionary payload" p.1 >>= λ pairs. decode_selective c decoders pairs a)
    else err (unsupported_type type)

-- `decodeAccountDictionaryString`
unfoldable pub decode_account_dictionary :
    Codec → Text → AccountSnapshot → Result WireError AccountSnapshot
decode_account_dictionary c raw a = decode_json c (c.utf8 raw) >>= λ decoded.
    decode_serialisable_selective c (field_decoders c) decoded a

abbrev pub argument : String → Option Value → Result WireError Value
argument name o = from_option (missing name) o

-- `decodeAccountResponse`
unfoldable pub account_of_tuple : Codec → Value → Result WireError AccountSnapshot
account_of_tuple c (list (item k (item t (item b (item e (item d end)))))) =
    as_text "account key" k >>= λ key_hex. hex_bytes "account key" key_hex >>= λ key.
    any_to_int64 c b >>= λ created. any_to_optional_int64 c e >>= λ expires.
    as_text "account dictionary" d >>= λ dictionary.
    decode_account_dictionary c dictionary (record {
      account_key = key;
      created = created;
      expires = expires;
      message = [];
      message_created = pos 0;
      banned_reason = [];
      banned_created = none;
      banned_expires = none;
    })
account_of_tuple c _ = err (unexpected_shape "account payload")

unfoldable pub decode_account_response : Codec → List ℕ → Result WireError AccountSnapshot
decode_account_response c body = decode_args_bytes c body >>= λ args.
    argument "account" (get_field (codes "account") args) >>= account_of_tuple c

-- `mapInt64`
unfoldable pub map_int64 : Codec → Fields → Text → Result WireError ℤ
map_int64 c dictionary key =
    from_option (missing "dictionary key") (get_field key dictionary) >>= any_to_int64 c

abbrev pub as_options : Value → Result WireError Fields
as_options (Value.dict fields) = ok fields
as_options _ = err (unexpected_type "service_options")

-- `decodeOptionsResponse`
unfoldable pub decode_options_response : Codec → List ℕ → Result WireError ServiceOptions
decode_options_response c body = decode_args_bytes c body >>= λ args.
    argument "service_options" (get_field (codes "service_options") args)
    >>= as_options
    >>= λ options. map_int64 c options (codes "update_period") >>= λ update_period.
        map_int64 c options (codes "nullification_period") >>= λ nullification_period.
        ok (record { update_period = update_period; nullification_period = nullification_period })

abbrev pub as_tag_filter : Value → Result WireError (Map ℤ)
as_tag_filter (tag_filter rules) = ok rules
as_tag_filter _ = err (unexpected_type "tag_filter")

-- `decodeTagFilterResponse`
unfoldable pub decode_tag_filter_response : Codec → List ℕ → Result WireError (Map ℤ)
decode_tag_filter_response c body = decode_args_bytes c body >>= λ args.
    argument "tag_filter" (get_field (codes "tag_filter") args) >>= as_tag_filter

abbrev pub as_metadata : Value → Result WireError MetadataSlice
as_metadata (metadata slice) = ok slice
as_metadata _ = err (unexpected_type "metadata_slice")

-- `decodeMetadataResponse`
unfoldable pub decode_metadata_response : Codec → List ℕ → Result WireError MetadataSlice
decode_metadata_response c body = decode_args_bytes c body >>= λ args.
    argument "metadata_slice" (get_field (codes "metadata_slice") args) >>= as_metadata
