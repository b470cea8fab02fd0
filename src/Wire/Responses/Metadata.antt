-- ===== src/Wire/Responses/Metadata.antt =====
-- The metadata of the updates as the repository writes it, and that it is read back.
use hydrus_go.Base.{ℕ, ◌≡◌, refl, List, [], ◌∷◌, All, arith}
use hydrus_go.Base.Strings.{codes, text_eq}
use hydrus_go.Base.Results.{ok}
use hydrus_go.Base.Int.{pos}
use hydrus_go.Wire.{
  MetadataUpdate, MetadataSlice, Value, str, list, metadata, Items, end, item, Codec,
}
use hydrus_go.Wire.Numbers.Laws.{
  IsInt64, AreBytes, wire_int, wire_hex, any_to_int64-wire_int, decode_hex-trim_space,
}
use hydrus_go.Wire.Requests.{pair, triple}
use hydrus_go.Wire.Serialisable.{
  update_hashes, metadata_update, metadata_updates, decode_metadata, decode_meta,
  decode_serialisable,
}
use hydrus_go.Wire.Serialisable.Dictionary.{
  Entry, IsEntry, write_dictionary, decode_dictionary-written,
}
use hydrus_go.Wire.Body.{decode_args_bytes}
use hydrus_go.Wire.Body.Carried.{Carries, decode_network_bytes_iff}
use hydrus_go.Wire.Responses.{decode_metadata_response}

abbrev pub write_hashes : List (List ℕ) → Items
write_hashes [] = end
write_hashes (hash ∷ hashes) = item (str (wire_hex hash)) (write_hashes hashes)

abbrev pub write_update : MetadataUpdate → Value
write_update u = list (
    item (wire_int u.update_index) (
      item (list (write_hashes u.update_hashes))
        (item (wire_int u.begin_at) (item (wire_int u.end_at) end))))

abbrev pub write_updates : List MetadataUpdate → Items
write_updates [] = end
write_updates (u ∷ us) = item (write_update u) (write_updates us)

abbrev pub write_slice : MetadataSlice → Value
write_slice s = pair (wire_int (pos 2)) (
    triple (wire_int (pos 37)) (wire_int (pos 1))
      (pair (list (write_updates s.updates)) (wire_int s.next_update_due)))

-- The numbers are int64, and the hashes lists of bytes.
abbrev pub IsUpdate : MetadataUpdate → Type 0
IsUpdate u =
    IsInt64 u.update_index × All AreBytes u.update_hashes × IsInt64 u.begin_at × IsInt64 u.end_at

abbrev pub IsSlice : MetadataSlice → Type 0
IsSlice s = All IsUpdate s.updates × IsInt64 s.next_update_due

update_hashes-written :
    (hashes : List (List ℕ)) → All AreBytes hashes → update_hashes (write_hashes hashes) ≡ ok hashes
unfolding update_hashes
update_hashes-written [] h = refl
update_hashes-written (hash ∷ hashes) (h, hs) =
    rw (decode_hex-trim_space hash h, update_hashes-written hashes hs) refl

metadata_updates-written :
    (c : Codec) (us : List MetadataUpdate)
    → All IsUpdate us
    → metadata_updates c (write_updates us) ≡ ok us
unfolding metadata_updates metadata_update
metadata_updates-written c [] h = refl
metadata_updates-written c (u ∷ us) ((hi, hh, hb, he), hs) =
    rw
      (
        any_to_int64-wire_int c u.update_index hi,
        update_hashes-written u.update_hashes hh,
        any_to_int64-wire_int c u.begin_at hb,
        any_to_int64-wire_int c u.end_at he,
        metadata_updates-written c us hs,
      )
      refl

pub slice_entry : MetadataSlice → Entry
slice_entry s = record { key = codes "metadata_slice"; meta = write_slice s; holds = metadata s }

abbrev pub write_response : MetadataSlice → Value
unfolding slice_entry
write_response s = write_dictionary (slice_entry s ∷ [])

slice_entry-IsEntry : (c : Codec) (s : MetadataSlice) → IsSlice s → IsEntry c (slice_entry s)
unfolding decode_meta decode_serialisable decode_metadata slice_entry
slice_entry-IsEntry c s (hs, hd) =
    rw
      (
        any_to_int64-wire_int c (pos 2) (omega arith),
        any_to_int64-wire_int c (pos 37) (omega arith),
        any_to_int64-wire_int c s.next_update_due hd,
        metadata_updates-written c s.updates hs,
      )
      refl

-- A body that carries a slice of metadata is decoded to that slice, if its numbers are int64 and its
-- hashes are bytes in hex.
pub decode_metadata_response-written :
    (c : Codec) (body : List ℕ) (s : MetadataSlice)
    → Carries c body (write_response s)
    → IsSlice s
    → decode_metadata_response c body ≡ ok s
unfolding decode_metadata_response decode_args_bytes slice_entry text_eq
decode_metadata_response-written c body s carried h =
    let (fs, e, at) =
      decode_dictionary-written c (slice_entry s ∷ []) (slice_entry-IsEntry c s h, tt) in
    rw ((decode_network_bytes_iff c body _).1 carried, e, at (codes "metadata_slice")) refl
