-- ===== src/Wire/Serialisable/Dictionary.antt =====
-- A dictionary as the repository writes it, and what it holds when it is read.
use hydrus_go.Base.{
  ◌≡◌, refl, ap, ◌∙◌, Bool, true, false, Option, none, some, List, [], ◌∷◌, if◌then◌else◌, All,
  arith,
}
use hydrus_go.Base.Strings.{Text, text_eq, text_eq_iff}
use hydrus_go.Base.Results.{ok}
use hydrus_go.Base.Int.{pos}
use hydrus_go.Wire.{Value, str, list, dict, Items, end, item, Fields, none_left, field, Codec}
use hydrus_go.Wire.Numbers.Laws.{wire_int, any_to_int64-wire_int}
use hydrus_go.Wire.Requests.{pair, triple}
use hydrus_go.Wire.Serialisable.{
  set_field, get_field, decode_serialisable, decode_dictionary, decode_pairs, decode_meta,
}

-- A key with its meta tuple, and the value that the tuple stands for.
pub record Entry : Type 0 where
  pub key : Text
  pub meta : Value
  pub holds : Value

abbrev pub IsEntry : Codec → Entry → Type 0
IsEntry c e = decode_meta c e.meta ≡ ok e.holds

abbrev pub write_json : Value → Value
write_json v = pair (wire_int (pos 0)) v

abbrev pub write_entries : List Entry → Items
write_entries [] = end
write_entries (e ∷ es) = item (pair (write_json (str e.key)) e.meta) (write_entries es)

abbrev pub write_dictionary : List Entry → Value
write_dictionary es = triple (wire_int (pos 21)) (wire_int (pos 2)) (list (write_entries es))

abbrev first_of : Option Value → Option Value → Option Value
first_of none o = o
first_of (some v) o = some v

-- The value of the last entry with the key.
abbrev pub last_entry : Text → List Entry → Option Value
last_entry k [] = none
last_entry k (e ∷ es) = elim (last_entry k es) [
  | some v ↦ some v
  | none ↦ if text_eq e.key k then some e.holds else none
]

abbrev put_entries : List Entry → Fields → Fields
put_entries [] fs = fs
put_entries (e ∷ es) fs = put_entries es (set_field e.key e.holds fs)

pub get_field-set_field :
    (k j : Text) (v : Value) (fs : Fields)
    → get_field k (set_field j v fs) ≡ (if text_eq j k then some v else get_field k fs)
unfolding get_field set_field
get_field-set_field k j v none_left = ground (arith, text_eq_iff k j, text_eq_iff j k)
get_field-set_field k j v (field i w fs) = ground (
  arith,
  text_eq_iff k j,
  text_eq_iff j k,
  text_eq_iff k i,
  text_eq_iff j i,
  get_field-set_field k j v fs,
)

get_field-put_entries :
    (k : Text) (es : List Entry) (fs : Fields)
    → get_field k (put_entries es fs) ≡ first_of (last_entry k es) (get_field k fs)
get_field-put_entries k [] fs = refl
get_field-put_entries k (e ∷ es) fs =
    get_field-put_entries k es (set_field e.key e.holds fs)
    ∙ ap (first_of (last_entry k es)) (get_field-set_field k e.key e.holds fs)
    ∙ behind (last_entry k es) (text_eq e.key k)
  where
    behind :
        (o : Option Value) (same : Bool)
        → first_of o (if same then some e.holds else get_field k fs)
          ≡ first_of
              (elim o [ some v ↦ some v | none ↦ if same then some e.holds else none ])
              (get_field k fs)
    behind none true = refl
    behind none false = refl
    behind (some v) same = refl

pub decode_meta-write_json : (c : Codec) (v : Value) → decode_meta c (write_json v) ≡ ok v
unfolding decode_meta
decode_meta-write_json c v = rw (any_to_int64-wire_int c (pos 0) (omega arith)) refl

decode_pairs-write_entries :
    (c : Codec) (es : List Entry) (fs : Fields)
    → All (IsEntry c) es
    → decode_pairs c (write_entries es) fs ≡ ok (put_entries es fs)
unfolding decode_pairs
decode_pairs-write_entries c [] fs h = refl
decode_pairs-write_entries c (e ∷ es) fs (h, hs) =
    rw (decode_meta-write_json c (str e.key), h)
      (decode_pairs-write_entries c es (set_field e.key e.holds fs) hs)

-- A dictionary whose meta tuples can be read is read, and holds under each key the value of the last
-- entry with that key, and nothing else.
pub decode_dictionary-written :
    (c : Codec) (es : List Entry)
    → All (IsEntry c) es
    → (fs : Fields) × (decode_serialisable c (write_dictionary es) ≡ ok (dict fs))
      × ((k : Text) → get_field k fs ≡ last_entry k es)
unfolding decode_serialisable decode_dictionary get_field
decode_dictionary-written c es h = (
  put_entries es none_left,
  rw (any_to_int64-wire_int c (pos 21) (omega arith), decode_pairs-write_entries c es none_left h)
      refl,
  λ k. get_field-put_entries k es none_left ∙ or_none (last_entry k es),
)
  where
    or_none : (o : Option Value) → first_of o none ≡ o
    or_none none = refl
    or_none (some v) = refl
