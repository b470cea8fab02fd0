-- ===== src/Wire/Numbers.antt =====
-- wire.go: `anyToInt64`, with strconv.ParseInt and encoding/hex as far as the program calls them.
pub mod Laws
use hydrus_go.Base.{
  ℕ, zero, suc, ◌+◌, ◌-◌, ◌*◌, ◌<◌, Bool, true, false, ◌&&◌, Option, none, some, List, [], ◌∷◌, leb,
  ◌==◌, if◌then◌else◌,
}
use hydrus_go.Base.Strings.{Text}
use hydrus_go.Base.Results.{Result, ok, err}
use hydrus_go.Base.Int.{ℤ, pos, negsuc}
use hydrus_go.Wire.{
  Value, nil, number, int, WireError, unexpected_type, not_integral, Codec, from_option,
}

abbrev pub is_digit : ℕ → Bool
is_digit c = leb b'0' c && leb c b'9'

-- The value of the digits, the leading ones of which are worth `acc`.
unfoldable pub digits_value : ℕ → Text → Option ℕ
digits_value acc [] = some acc
digits_value acc (c ∷ s) = if is_digit c then digits_value (acc * 10 + (c - b'0')) s else none

abbrev pub unsigned : Text → Option ℕ
unsigned [] = none
unsigned (c ∷ s) = digits_value 0 (c ∷ s)

abbrev pub max_int64 : ℕ
max_int64 = 9223372036854775807

abbrev pub positive : Option ℕ → Option ℤ
positive none = none
positive (some n) = if leb n max_int64 then some (pos n) else none

abbrev pub minus : ℕ → ℤ
minus zero = pos 0
minus (suc n) = negsuc n

abbrev pub negative : Option ℕ → Option ℤ
negative none = none
negative (some n) = if leb n (max_int64 + 1) then some (minus n) else none

-- `strconv.ParseInt(s, 10, 64)`, which is `json.Number.Int64`
unfoldable pub parse_int64 : Text → Option ℤ
parse_int64 [] = none
parse_int64 (c ∷ s) =
    if c == b'-'
    then negative (unsigned s)
    else if c == b'+'
    then positive (unsigned s)
    else positive (unsigned (c ∷ s))

abbrev pub number_int64 : Codec → Text → Option ℤ → Result WireError ℤ
number_int64 c s (some n) = ok n
number_int64 c s none = from_option not_integral (c.float_int64 s)

-- `anyToInt64`
unfoldable pub any_to_int64 : Codec → Value → Result WireError ℤ
any_to_int64 c (number s) = number_int64 c s (parse_int64 s)
any_to_int64 c (int n) = ok n
any_to_int64 c _ = err (unexpected_type "integral number")

-- `anyToOptionalInt64`
unfoldable pub any_to_optional_int64 : Codec → Value → Result WireError (Option ℤ)
any_to_optional_int64 c nil = ok none
any_to_optional_int64 c v = present (any_to_int64 c v)
  where
    present : Result WireError ℤ → Result WireError (Option ℤ)
    present (ok n) = ok (some n)
    present (err e) = err e

-- The value of a hex digit of either case.
unfoldable pub hex_value : ℕ → Option ℕ
hex_value c =
    if leb b'0' c && leb c b'9'
    then some (c - b'0')
    else if leb b'a' c && leb c b'f'
    then some (c - b'a' + 10)
    else if leb b'A' c && leb c b'F'
    then some (c - b'A' + 10)
    else none

abbrev pub with_byte : Option ℕ → Option ℕ → Option (List ℕ) → Option (List ℕ)
with_byte (some high) (some low) (some rest) = some ((high * 16 + low) ∷ rest)
with_byte _ _ _ = none

-- `hex.DecodeString`
unfoldable pub decode_hex : Text → Option (List ℕ)
decode_hex [] = some []
decode_hex (high ∷ []) = none
decode_hex (high ∷ low ∷ s) = with_byte (hex_value high) (hex_value low) (decode_hex s)
