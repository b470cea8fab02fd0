-- ===== src/Wire/Numbers/Laws.antt =====
-- What is written in decimal, or in hex, reads back.
use hydrus_go.Base.{
  ℕ, zero, suc, ◌+◌, ◌-◌, ◌*◌, ◌/◌, ◌%◌, ◌^◌, ◌≤◌, ◌<◌, ◌≡◌, refl, ap, sym, ◌∙◌, true, false, some,
  List, [], ◌∷◌, ltb, if◌then◌else◌, Bool-cases, inl, inr, arith, All,
}
use hydrus_go.Base.Strings.{Text, is_space, trim_space}
use hydrus_go.Base.Strings.Trim.{IsSolid, trim_space_solid}
use hydrus_go.Base.Results.{ok}
use hydrus_go.Base.Int.{ℤ, pos, negsuc, digits_from, show_ℕ, show_ℤ}
use hydrus_go.Wire.{Value, number, Codec}
use hydrus_go.Wire.Numbers.{
  is_digit, digits_value, unsigned, max_int64, positive, negative, parse_int64, any_to_int64,
  hex_value, decode_hex,
}

abbrev pub IsInt64 : ℤ → Type 0
IsInt64 (pos n) = n ≤ max_int64
IsInt64 (negsuc n) = n ≤ max_int64

digit_step :
    (acc n : ℕ) (out : Text)
    → digits_value acc ((b'0' + n % 10) ∷ out) ≡ digits_value (acc * 10 + n % 10) out
unfolding digits_value
digit_step acc n out = ground arith

digits_value-digits_from :
    (fuel n : ℕ) (out : Text)
    → n < 10 ^ fuel
    → digits_value 0 (digits_from fuel n out) ≡ digits_value n out
unfolding digits_from
digits_value-digits_from zero n out h = ap (λ k. digits_value k out) (omega arith)
digits_value-digits_from (suc fuel) n out h = elim (Bool-cases (ltb n 10)) [
  | inl small ↦ rw small (digit_step 0 n out ∙ ap (λ k. digits_value k out) (ground arith))
  | inr large ↦ rw large (
      digits_value-digits_from fuel (n / 10) ((b'0' + n % 10) ∷ out) (omega arith)
      ∙ digit_step (n / 10) n out
      ∙ ap (λ k. digits_value k out) (omega arith))
]

-- A decimal print begins with a digit.
digits_from-head :
    (fuel n c : ℕ) (out : Text)
    → is_digit c ≡ true
    → (d : ℕ) × (s : Text) × (digits_from fuel n (c ∷ out) ≡ d ∷ s) × (is_digit d ≡ true)
unfolding digits_from
digits_from-head zero n c out h = (c, out, refl, h)
digits_from-head (suc fuel) n c out h =
    let (d, s, e, k) = digits_from-head fuel (n / 10) (b'0' + n % 10) (c ∷ out) (ground arith) in
    elim (Bool-cases (ltb n 10)) [
      | inl small ↦ rw small (b'0' + n % 10, c ∷ out, refl, ground arith)
      | inr large ↦ rw large (d, s, e, k)
    ]

show_ℕ-head : (n : ℕ) → (d : ℕ) × (s : Text) × (show_ℕ n ≡ d ∷ s) × (is_digit d ≡ true)
unfolding show_ℕ digits_from
show_ℕ-head n =
    let (d, s, e, k) = digits_from-head 19 (n / 10) (b'0' + n % 10) [] (ground arith) in
    elim (Bool-cases (ltb n 10)) [
      | inl small ↦ rw small (b'0' + n % 10, [], refl, ground arith)
      | inr large ↦ rw large (d, s, e, k)
    ]

digits_value-show_ℕ : (n : ℕ) → n < 10 ^ 20 → digits_value 0 (show_ℕ n) ≡ some n
unfolding show_ℕ digits_value
digits_value-show_ℕ n h = digits_value-digits_from 20 n [] h

unsigned-show_ℕ : (n : ℕ) → n < 10 ^ 20 → unsigned (show_ℕ n) ≡ some n
unsigned-show_ℕ n h =
    let (d, s, e, k) = show_ℕ-head n in
    ap unsigned e ∙ ap (λ t. digits_value 0 t) (sym e) ∙ digits_value-show_ℕ n h

-- A text that begins with a digit is read as a number without a sign.
parse_int64-digit :
    (t : Text) (d : ℕ) (s : Text)
    → t ≡ d ∷ s
    → is_digit d ≡ true
    → parse_int64 t ≡ positive (unsigned t)
unfolding parse_int64
parse_int64-digit t d s e h = rw e (ground arith)

pub parse_int64-show_ℤ : (n : ℤ) → IsInt64 n → parse_int64 (show_ℤ n) ≡ some n
unfolding parse_int64 show_ℤ
parse_int64-show_ℤ (pos n) h =
    let (d, s, e, k) = show_ℕ-head n in
    parse_int64-digit (show_ℕ n) d s e k
    ∙ ap positive (unsigned-show_ℕ n (omega arith))
    ∙ ground arith
parse_int64-show_ℤ (negsuc n) h = ap negative (unsigned-show_ℕ (suc n) (omega arith)) ∙ ground arith

-- A number of the program as JSON writes it.
abbrev pub wire_int : ℤ → Value
wire_int n = number (show_ℤ n)

pub any_to_int64-wire_int : (c : Codec) (n : ℤ) → IsInt64 n → any_to_int64 c (wire_int n) ≡ ok n
unfolding any_to_int64
any_to_int64-wire_int c n h = rw (parse_int64-show_ℤ n h) refl

-- Bytes as hex digits in lower case.
abbrev pub hex_char : ℕ → ℕ
hex_char n = if ltb n 10 then b'0' + n else b'a' + (n - 10)

unfoldable pub wire_hex : List ℕ → Text
wire_hex [] = []
wire_hex (b ∷ bs) = hex_char (b / 16) ∷ hex_char (b % 16) ∷ wire_hex bs

abbrev pub AreBytes : List ℕ → Type 0
AreBytes = All (λ (b : ℕ). b < 256)

hex_value-hex_char : (n : ℕ) → n < 16 → hex_value (hex_char n) ≡ some n
unfolding hex_value
hex_value-hex_char n h = ground arith

hex_char-solid : (n : ℕ) → n < 16 → is_space (hex_char n) ≡ false
unfolding is_space
hex_char-solid n h = ground arith

wire_hex-IsSolid : (bs : List ℕ) → AreBytes bs → IsSolid (wire_hex bs)
unfolding wire_hex
wire_hex-IsSolid [] h = tt
wire_hex-IsSolid (b ∷ bs) (hb, hbs) = (
  hex_char-solid (b / 16) (omega arith),
  (hex_char-solid (b % 16) (omega arith), wire_hex-IsSolid bs hbs),
)

decode_hex-wire_hex : (bs : List ℕ) → AreBytes bs → decode_hex (wire_hex bs) ≡ some bs
unfolding decode_hex wire_hex
decode_hex-wire_hex [] h = refl
decode_hex-wire_hex (b ∷ bs) (hb, hbs) =
    rw
      (
        hex_value-hex_char (b / 16) (omega arith),
        hex_value-hex_char (b % 16) (omega arith),
        decode_hex-wire_hex bs hbs,
      )
      (ap (λ (k : ℕ). some (k ∷ bs)) (omega arith))

pub decode_hex-trim_space :
    (bs : List ℕ) → AreBytes bs → decode_hex (trim_space (wire_hex bs)) ≡ some bs
decode_hex-trim_space bs h =
    ap decode_hex (trim_space_solid (wire_hex bs) (wire_hex-IsSolid bs h))
    ∙ decode_hex-wire_hex bs h
