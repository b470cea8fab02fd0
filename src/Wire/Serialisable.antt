-- ===== src/Wire/Serialisable.antt =====
-- wire.go: Hydrus' serialisable tuples (`decodeHydrusSerialisable` and what it calls).
pub mod Dictionary
use hydrus_go.Base.{ℕ, Bool, Option, none, some, List, [], ◌∷◌, if◌then◌else◌}
use hydrus_go.Base.Strings.{Text, trim_space, text_eq}
use hydrus_go.Base.Results.{Result, ok, err, ◌>>=◌}
use hydrus_go.Base.Maps
use Prim.Native.String.{String}
use hydrus_go.Base.Maps.{Map}
use hydrus_go.Base.Int.{ℤ, pos, eqb_ℤ}
use hydrus_go.Wire.{
  MetadataUpdate, MetadataSlice, Value, bytes, list, dict, metadata, tag_filter, Items, end, item,
  Fields, none_left, field, WireError, unexpected_type, unexpected_shape, tuple_length,
  unsupported_type, unsupported_meta_type, bad_hex, Codec, as_items, as_text, as_pair, from_option,
}
use hydrus_go.Wire.Numbers.{any_to_int64, decode_hex}

-- `dictionary[key] = value`
unfoldable pub set_field : Text → Value → Fields → Fields
set_field k v none_left = field k v none_left
set_field k v (field j w fs) = if text_eq k j then field k v fs else field j w (set_field k v fs)

-- `dictionary[key]`
unfoldable pub get_field : Text → Fields → Option Value
get_field k none_left = none
get_field k (field j w fs) = if text_eq k j then some w else get_field k fs

-- `len(tuple) != 3 && len(tuple) != 4`, with the type of the tuple and its payload
unfoldable pub as_tuple : Value → Result WireError (Value × Value)
as_tuple (list (item t (item v (item info end)))) = ok (t, info)
as_tuple (list (item t (item v (item name (item info end))))) = ok (t, info)
as_tuple (list _) = err tuple_length
as_tuple _ = err (unexpected_type "serialisable tuple")

-- `hex.DecodeString(strings.TrimSpace(text))`
abbrev pub hex_bytes : String → Text → Result WireError (List ℕ)
hex_bytes what s = from_option (bad_hex what) (decode_hex (trim_space s))

unfoldable pub update_hashes : Items → Result WireError (List (List ℕ))
update_hashes end = ok []
update_hashes (item v vs) = as_text "metadata update hash" v >>= λ hash_hex.
    hex_bytes "metadata update hash" hash_hex >>= λ hash.
    update_hashes vs >>= λ hashes. ok (hash ∷ hashes)

unfoldable pub metadata_update : Codec → Value → Result WireError MetadataUpdate
metadata_update c (list (item i (item hs (item b (item e end))))) = any_to_int64 c i >>= λ index.
    as_items "metadata update hashes" hs >>= λ hash_values. update_hashes hash_values >>= λ hashes.
    any_to_int64 c b >>= λ begin_at. any_to_int64 c e >>= λ end_at.
    ok (record {
      update_index = index;
      update_hashes = hashes;
      begin_at = begin_at;
      end_at = end_at;
    })
metadata_update c _ = err (unexpected_shape "metadata row")

unfoldable pub metadata_updates : Codec → Items → Result WireError (List MetadataUpdate)
metadata_updates c end = ok []
metadata_updates c (item v vs) =
    metadata_update c v >>= λ update. metadata_updates c vs >>= λ updates. ok (update ∷ updates)

-- `decodeHydrusMetadata`
unfoldable pub decode_metadata : Codec → Value → Result WireError MetadataSlice
decode_metadata c v = as_pair "metadata payload" v >>= λ p. as_items "metadata rows" p.0 >>= λ rows.
    any_to_int64 c p.1 >>= λ due.
    metadata_updates c rows >>= λ updates. ok (record { updates = updates; next_update_due = due })

-- `decodeHydrusTagFilter`
unfoldable pub tag_rules : Codec → Items → Map ℤ → Result WireError (Map ℤ)
tag_rules c end rules = ok rules
tag_rules c (item v vs) rules = as_pair "tag filter rule" v >>= λ p.
    as_text "tag filter key" p.0 >>= λ tag_slice.
    any_to_int64 c p.1 >>= λ rule. tag_rules c vs (Maps.insert tag_slice rule rules)

unfoldable pub decode_tag_filter : Codec → Value → Result WireError (Map ℤ)
decode_tag_filter c v = as_items "tag filter payload" v >>= λ rules. tag_rules c rules Maps.empty

-- The cases of `switch serialisableType` and of `switch metaType`.
pub data TupleKind : Type 0 where
  dictionary_kind list_kind metadata_kind tag_filter_kind other_kind : TupleKind

abbrev pub tuple_kind : ℤ → TupleKind
tuple_kind t =
    if eqb_ℤ t (pos 21)
    then dictionary_kind
    else if eqb_ℤ t (pos 26)
    then list_kind
    else if eqb_ℤ t (pos 37)
    then metadata_kind
    else if eqb_ℤ t (pos 44)
    then tag_filter_kind
    else other_kind

pub data MetaKind : Type 0 where
  json_kind bytes_kind serialisable_kind other_meta : MetaKind

abbrev pub meta_kind : ℤ → MetaKind
meta_kind t =
    if eqb_ℤ t (pos 0)
    then json_kind
    else if eqb_ℤ t (pos 1)
    then bytes_kind
    else if eqb_ℤ t (pos 2)
    then serialisable_kind
    else other_meta

-- `switch serialisableType`, with what the payload is as a dictionary and as a list
abbrev pub payload :
    Codec → ℤ → Value → Result WireError Fields → Result WireError Items → Result WireError Value
payload c type info as_dictionary as_list = elim (tuple_kind type) [
  | dictionary_kind ↦ as_dictionary >>= λ fs. ok (dict fs)
  | list_kind ↦ as_list >>= λ vs. ok (list vs)
  | metadata_kind ↦ decode_metadata c info >>= λ slice. ok (metadata slice)
  | tag_filter_kind ↦ decode_tag_filter c info >>= λ rules. ok (tag_filter rules)
  | other_kind ↦ err (unsupported_type type)
]

unfoldable mutual
  pub decode_serialisable : Codec → Value → Result WireError Value
  decode_serialisable c (list (item t (item v (item info end)))) = any_to_int64 c t >>= λ type.
      payload c type info (decode_dictionary c info) (decode_list c info)
  decode_serialisable c (list (item t (item v (item name (item info end))))) =
      any_to_int64 c t >>= λ type.
      payload c type info (decode_dictionary c info) (decode_list c info)
  decode_serialisable c (list _) = err tuple_length
  decode_serialisable c _ = err (unexpected_type "serialisable tuple")

  pub decode_dictionary : Codec → Value → Result WireError Fields
  decode_dictionary c (list pairs) = decode_pairs c pairs none_left
  decode_dictionary c _ = err (unexpected_type "dictionary payload")

  pub decode_pairs : Codec → Items → Fields → Result WireError Fields
  decode_pairs c end fs = ok fs
  decode_pairs c (item (list (item k (item v end))) pairs) fs = decode_meta c k >>= λ key.
      as_text "dictionary key" key >>= λ name.
      decode_meta c v >>= λ value. decode_pairs c pairs (set_field name value fs)
  decode_pairs c (item _ pairs) fs = err (unexpected_shape "dictionary pair")

  pub decode_list : Codec → Value → Result WireError Items
  decode_list c (list vs) = decode_items c vs
  decode_list c _ = err (unexpected_type "list payload")

  pub decode_items : Codec → Items → Result WireError Items
  decode_items c end = ok end
  decode_items c (item v vs) =
      decode_meta c v >>= λ first. decode_items c vs >>= λ rest. ok (item first rest)

  -- `decodeHydrusMetaTuple`
  pub decode_meta : Codec → Value → Result WireError Value
  decode_meta c (list (item t (item x end))) = any_to_int64 c t >>= λ type. elim (meta_kind type) [
    | json_kind ↦ ok x
    | bytes_kind ↦ as_text "byte meta tuple" x >>= λ encoded.
        hex_bytes "meta bytes" encoded >>= λ bs. ok (bytes bs)
    | serialisable_kind ↦ decode_serialisable c x
    | other_meta ↦ err (unsupported_meta_type type)
  ]
  decode_meta c _ = err (unexpected_shape "meta tuple")
