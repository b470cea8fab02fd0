-- ===== src/Access/Keys.antt =====
-- Credentials: what `normalizeCredential` keeps, and that the keys which `generateCredential`
-- hands out are their own normal form.
use native.Mathlib.Omega.{arith}
use hydrus_go.Base.{ℕ, ◌/◌, ◌%◌, ◌<◌, false, List, [], ◌∷◌, ◌≡◌, refl, ap₂, ◌∙◌, All}
use hydrus_go.Base.Strings.{Text, Casing, to_lower, is_space, ascii_lower}
use hydrus_go.Base.Strings.Trim.{IsSolid, trim_space_solid}
use hydrus_go.Base.Results.{ok}
use hydrus_go.Access.{hex_digit, hex_encode, normalize_credential}

-- The digits of `hex.EncodeToString`.
abbrev IsHexDigit : ℕ → Type 0
IsHexDigit c = (c < 128) × (ascii_lower c ≡ c) × (is_space c ≡ false)

hex_digit-IsHexDigit : (d : ℕ) → d < 16 → IsHexDigit (hex_digit d)
unfolding hex_digit is_space
hex_digit-IsHexDigit d h = (ground arith, ground arith, ground arith)

hex_encode-IsHexDigit : (bs : List ℕ) → All IsHexDigit (hex_encode bs)
unfolding hex_encode
hex_encode-IsHexDigit [] = tt
hex_encode-IsHexDigit (b ∷ bs) = (
  hex_digit-IsHexDigit (b / 16 % 16) (omega arith),
  (hex_digit-IsHexDigit (b % 16) (omega arith), hex_encode-IsHexDigit bs),
)

hex-IsSolid : (s : Text) → All IsHexDigit s → IsSolid s
hex-IsSolid [] h = tt
hex-IsSolid (c ∷ s) (hc, hs) = (hc.2, hex-IsSolid s hs)

to_lower-hex : (u : Casing) (s : Text) → All IsHexDigit s → to_lower u s ≡ s
to_lower-hex u [] h = refl
to_lower-hex u (c ∷ s) (hc, hs) =
    ap₂ (λ (d : ℕ) (t : Text). d ∷ t) (u.lower_ascii c hc.0 ∙ hc.1) (to_lower-hex u s hs)

pub normalize-hex_encode :
    (u : Casing) (b : ℕ) (bs : List ℕ)
    → normalize_credential u (hex_encode (b ∷ bs)) ≡ ok (hex_encode (b ∷ bs))
unfolding normalize_credential
normalize-hex_encode u b bs =
    let digits = hex_encode-IsHexDigit (b ∷ bs) in
    rw (trim_space_solid (hex_encode (b ∷ bs)) (hex-IsSolid _ digits), to_lower-hex u _ digits)
      (unfold hex_encode in refl)
