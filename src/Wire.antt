-- ===== src/Wire.antt =====
-- internal/ptrsync/wire.go: what the repository sends and is sent. A body is JSON that zlib has
-- compressed; what Go's decoder makes of it is a `Value`, which is Go's `any`.
pub mod Numbers
pub mod Serialisable
pub mod Body
pub mod Updates
pub mod Responses
pub mod Requests
mod Examples
use hydrus_go.Base.{ℕ, Bool, Option, none, some, List, [], ◌∷◌}
use hydrus_go.Base.Strings.{Text}
use hydrus_go.Base.Results.{Result, ok, err}
use hydrus_go.Base.Maps.{Map}
use hydrus_go.Base.Int.{ℤ}
use Prim.Native.String.{String}

-- `MetadataUpdate` and `MetadataSlice`
pub record MetadataUpdate : Type 0 where
  pub update_index : ℤ
  pub update_hashes : List (List ℕ)
  pub begin_at : ℤ
  pub end_at : ℤ

pub record MetadataSlice : Type 0 where
  pub updates : List MetadataUpdate
  pub next_update_due : ℤ

-- `number` is a json.Number, kept as it was written, `int` an integer of the program, `list` is an
-- []any, `dict` a map[string]any; the others are what the decoders below put into an `any`.
mutual
  pub data Value : Type 0 where
    nil : Value
    bool : Bool → Value
    number : Text → Value
    int : ℤ → Value
    str : Text → Value
    bytes : List ℕ → Value
    list : Items → Value
    dict : Fields → Value
    metadata : MetadataSlice → Value
    tag_filter : Map ℤ → Value

  pub data Items : Type 0 where
    end : Items
    item : Value → Items → Items

  pub data Fields : Type 0 where
    none_left : Fields
    field : Text → Value → Fields → Fields

-- The text says what was read; an error of fmt.Errorf is told apart by its kind.
pub data WireError : Type 0 where
  missing : String → WireError
  unexpected_type : String → WireError
  unexpected_shape : String → WireError
  tuple_length : WireError
  unsupported_type : ℤ → WireError
  unsupported_meta_type : ℤ → WireError
  not_integral : WireError
  bad_hex : String → WireError
  bad_body : WireError
  too_large : WireError
  bad_json : WireError
  no_groups : WireError
  tag_required : WireError
  hash_required : WireError
  group_without_hash : Text → WireError

-- The packages compress/zlib and encoding/json on bytes, and what Go's floating point makes of a
-- number that is no int64: `none` where it cannot be parsed or is not integral.
pub record Codec : Type 0 where
  pub inflate : List ℕ → Option (List ℕ)
  pub deflate : List ℕ → List ℕ
  pub parse_json : List ℕ → Option Value
  pub marshal : Value → List ℕ
  pub utf8 : Text → List ℕ
  pub float_int64 : Text → Option ℤ

-- `typed, ok := value.([]any)`
abbrev pub as_items : String → Value → Result WireError Items
as_items what (list items) = ok items
as_items what _ = err (unexpected_type what)

-- `typed, ok := value.(string)`
abbrev pub as_text : String → Value → Result WireError Text
as_text what (str s) = ok s
as_text what _ = err (unexpected_type what)

-- `typed, ok := value.([]any); !ok || len(typed) != 2`
abbrev pub as_pair : String → Value → Result WireError (Value × Value)
as_pair what (list (item a (item b end))) = ok (a, b)
as_pair what _ = err (unexpected_shape what)

abbrev pub from_option {ℓ} : {A : Type ℓ} → WireError → Option A → Result WireError A
from_option why none = err why
from_option why (some a) = ok a
