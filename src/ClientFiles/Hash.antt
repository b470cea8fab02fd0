-- ===== src/ClientFiles/Hash.antt =====
-- `NormalizeSHA256Hex`: what it accepts, and that its results are their own normal form.
use hydrus_go.Base.{
  ℕ, zero, suc, ◌<◌, true, false, [], ◌∷◌, ◌≡◌, refl, ap₂, ◌∙◌, length, arith, ◌==◌, not,
  if◌then◌else◌, take,
}
use hydrus_go.Base.Strings.{Text, Casing, to_lower, trim_space, is_space, ascii_lower, byte_len}
use hydrus_go.Base.Strings.Trim.{IsSolid, trim_space_solid}
use hydrus_go.Base.Results.{ok, err}
use hydrus_go.ClientFiles.{LayoutError, is_hex_digit, all_hex, normalize_sha256_hex}

-- 64 lower-case hex digits.
pub record IsHash (h : Text) : Type 0 where
  pub digits : all_hex h ≡ true
  pub size : length h ≡ 64

hex_digit_facts :
    (c : ℕ) → is_hex_digit c ≡ true → (c < 128) × (ascii_lower c ≡ c) × (is_space c ≡ false)
unfolding is_hex_digit is_space
hex_digit_facts c h = (ground arith, ground arith, ground arith)

hex_cons :
    (c : ℕ) (s : Text) → all_hex (c ∷ s) ≡ true → (is_hex_digit c ≡ true) × (all_hex s ≡ true)
unfolding all_hex
hex_cons c s h = ground arith

pub byte_len-hex : (s : Text) → all_hex s ≡ true → byte_len s ≡ length s
unfolding byte_len
byte_len-hex [] h = refl
byte_len-hex (c ∷ s) h =
    let (hc, hs) = hex_cons c s h in
    let small = (hex_digit_facts c hc).0 in ground (arith, byte_len-hex s hs)

hex-IsSolid : (s : Text) → all_hex s ≡ true → IsSolid s
hex-IsSolid [] h = tt
hex-IsSolid (c ∷ s) h =
    let (hc, hs) = hex_cons c s h in ((hex_digit_facts c hc).2, hex-IsSolid s hs)

to_lower-hex : (u : Casing) (s : Text) → all_hex s ≡ true → to_lower u s ≡ s
to_lower-hex u [] h = refl
to_lower-hex u (c ∷ s) h =
    let (hc, hs) = hex_cons c s h in
    let (small, lowered, _) = hex_digit_facts c hc in
    ap₂ (λ (d : ℕ) (t : Text). d ∷ t) (u.lower_ascii c small ∙ lowered) (to_lower-hex u s hs)

-- Whatever is accepted is 64 lower-case hex digits.
pub normalize-IsHash : (u : Casing) (raw h : Text) → normalize_sha256_hex u raw ≡ ok h → IsHash h
unfolding normalize_sha256_hex
normalize-IsHash u raw h e = accepted (to_lower u (trim_space raw)) e
  where
    accepted :
        (t : Text)
        → (if not (byte_len t == 64)
            then err LayoutError.hash_length
            else if all_hex t
            then ok t
            else err LayoutError.hash_character)
          ≡ ok h
        → IsHash h
    accepted t e = record { digits = ground arith; size = ground (arith, byte_len-hex t) }

-- 64 lower-case hex digits are accepted as they are.
pub normalize_fixed : (u : Casing) (h : Text) → IsHash h → normalize_sha256_hex u h ≡ ok h
unfolding normalize_sha256_hex
normalize_fixed u h k =
    rw (trim_space_solid h (hex-IsSolid h k.digits), to_lower-hex u h k.digits, k.digits)
      (ground (arith, byte_len-hex h k.digits, k.size))

pub take-hex : (n : ℕ) (s : Text) → all_hex s ≡ true → all_hex (take n s) ≡ true
unfolding all_hex
take-hex zero s h = refl
take-hex (suc n) [] h = refl
take-hex (suc n) (c ∷ s) h = ground (arith, take-hex n s)
