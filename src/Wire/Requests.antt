-- ===== src/Wire/Requests.antt =====
-- wire.go: the upload of pending mappings (`encodeClientToServerUpdateBody`).
pub mod Upload
use hydrus_go.Base.{ℕ, true, false, Option, none, some, List, [], ◌∷◌, if◌then◌else◌}
use hydrus_go.Base.Strings.{Text, Casing, codes, to_lower, trim_space, is_empty}
use hydrus_go.Base.Results.{Result, ok, err, ◌>>=◌}
use hydrus_go.Base.Int.{ℤ, pos}
use hydrus_go.Wire.{
  Value, int, str, list, Items, end, item, WireError, bad_hex, no_groups, tag_required,
  hash_required, group_without_hash, Codec, from_option,
}
use hydrus_go.Wire.Numbers.{decode_hex}

-- `PTRPendingMappingGroup`
pub record PendingGroup : Type 0 where
  pub tag : Text
  pub hashes : List Text

abbrev pub pair : Value → Value → Value
pair a b = list (item a (item b end))

abbrev pub triple : Value → Value → Value → Value
triple a b d = list (item a (item b (item d end)))

-- `ptrMetaJSON`, `ptrMetaHydrus`
abbrev pub meta_json : Value → Value
meta_json v = pair (int (pos 0)) v

abbrev pub meta_hydrus : Value → Value
meta_hydrus v = pair (int (pos 2)) v

-- `ptrSerialisableDictionary`, of keys with their meta values
unfoldable pub dictionary_pairs : List (Text × Value) → Items
dictionary_pairs [] = end
dictionary_pairs ((key, meta_value) ∷ entries) =
    item (pair (meta_json (str key)) meta_value) (dictionary_pairs entries)

abbrev pub serialisable_dictionary : List (Text × Value) → Value
serialisable_dictionary entries =
    triple (int (pos 21)) (int (pos 2)) (list (dictionary_pairs entries))

-- A hash in lower case, which must be hex digits.
abbrev pub group_hash : Text → Result WireError Text
group_hash hash =
    if is_empty hash
    then err hash_required
    else from_option (bad_hex "pending mappings hash") (decode_hex hash) >>= λ bytes. ok hash

unfoldable pub hash_values : Casing → List Text → Result WireError Items
hash_values u [] = ok end
hash_values u (hash_hex ∷ hashes) = group_hash (to_lower u (trim_space hash_hex)) >>= λ hash.
    hash_values u hashes >>= λ values. ok (item (str hash) values)

abbrev pub some_hash : Text → Items → Result WireError Items
some_hash tag end = err (group_without_hash tag)
some_hash tag (item v vs) = ok (item v vs)

-- `contentTuple` with its empty reason
abbrev pub content_and_reason : Text → Items → Value
content_and_reason tag values =
    pair (triple (int (pos 23)) (int (pos 1)) (pair (int (pos 0)) (pair (str tag) (list values))))
      (str [])

abbrev pub group_content : Casing → Text → List Text → Result WireError Value
group_content u tag hashes =
    if is_empty tag
    then err tag_required
    else hash_values u hashes >>= some_hash tag >>= λ values. ok (content_and_reason tag values)

unfoldable pub group_contents : Casing → List PendingGroup → Result WireError Items
group_contents u [] = ok end
group_contents u (group ∷ groups) = group_content u (trim_space group.tag) group.hashes >>= λ first.
    group_contents u groups >>= λ rest. ok (item first rest)

abbrev pub update_tuple : Items → Value
update_tuple contents =
    triple (int (pos 40)) (int (pos 1)) (list (item (pair (int (pos 2)) (list contents)) end))

-- The value that is marshalled.
unfoldable pub client_to_server_update : Casing → List PendingGroup → Result WireError Value
client_to_server_update u [] = err no_groups
client_to_server_update u (group ∷ groups) = group_contents u (group ∷ groups) >>= λ contents. ok (
    serialisable_dictionary
      ((codes "client_to_server_update", meta_hydrus (update_tuple contents)) ∷ []))

-- `encodeHydrusNetworkBytes`
unfoldable pub encode_network_bytes : Codec → Value → List ℕ
encode_network_bytes c v = c.deflate (c.marshal v)

-- `encodeClientToServerUpdateBody`
unfoldable pub encode_client_to_server_update_body :
    Codec → Casing → List PendingGroup → Result WireError (List ℕ)
encode_client_to_server_update_body c u groups =
    client_to_server_update u groups >>= λ v. ok (encode_network_bytes c v)
