-- ===== src/Ids/Hashes/Forms.antt =====
-- What the normal form of a hash is, described digit by digit.
use hydrus_go.Base.{
  ℕ, ◌≤◌, ◌≡◌, refl, Bool, true, false, List, [], ◌∷◌, ◌&&◌, ◌==◌, length, leb, All, ◌⊎◌, inl, inr,
  Bool-cases, if◌then◌else◌, arith, sym, subst, ◌∙◌,
}
use hydrus_go.Base.Strings.{Text, Casing, to_lower, trim_space, byte_len, text_eq, text_eq_refl}
use hydrus_go.Base.Results.{Result, ok, err, ◌>>=◌}
use hydrus_go.ClientFiles.{is_hex_digit, all_hex}
use hydrus_go.ClientFiles.Hash.{byte_len-hex}
use hydrus_go.PtrSync.{SyncError}
use hydrus_go.PtrSync.Tables.{exists_row}
use hydrus_go.PtrSync.Processing.{normalize_prepared_hash}
use hydrus_go.Ids.Table.{IdError, invalid_hash}
use hydrus_go.Ids.Hashes.{normalized, normalize, add_new, normalize_hashes}

-- 0 to 9, or a to f.
abbrev pub IsDigit : ℕ → Type 0
IsDigit c = ((48 ≤ c) × (c ≤ 57)) ⊎ ((97 ≤ c) × (c ≤ 102))

-- A text is the hash without the white space around it and in lower case, and is 64 hex digits.
abbrev pub HasForm : Casing → Text → Text → Type 0
HasForm u hash text = (text ≡ to_lower u (trim_space hash)) × (length text ≡ 64) × All IsDigit text

all_hex-digits : (s : Text) → all_hex s ≡ true → All IsDigit s
unfolding all_hex is_hex_digit
all_hex-digits [] h = tt
all_hex-digits (c ∷ s) h = (digit (Bool-cases (leb c 57)), all_hex-digits s (ground arith))
  where
    digit : (leb c 57 ≡ true) ⊎ (leb c 57 ≡ false) → IsDigit c
    digit (inl low) = inl (ground arith)
    digit (inr high) = inr (ground arith)

digits-all_hex : (s : Text) → All IsDigit s → all_hex s ≡ true
unfolding all_hex is_hex_digit
digits-all_hex [] h = refl
digits-all_hex (c ∷ s) (inl low, h) = ground (arith, digits-all_hex s h)
digits-all_hex (c ∷ s) (inr high, h) = ground (arith, digits-all_hex s h)

checked : Text → Text → Result IdError Text
checked hash text =
    if (byte_len text == 64) && all_hex text then ok text else err (invalid_hash hash)

normalize-checked :
    (u : Casing) (hash : Text) → normalize u hash ≡ checked hash (to_lower u (trim_space hash))
unfolding normalize_prepared_hash checked
normalize-checked u hash =
    by_test
      ((byte_len (to_lower u (trim_space hash)) == 64) && all_hex (to_lower u (trim_space hash)))
  where
    by_test :
        (b : Bool)
        → normalized hash (
            if b
            then ok (to_lower u (trim_space hash))
            else err (SyncError.invalid_update_hash hash))
          ≡ (if b then ok (to_lower u (trim_space hash)) else err (invalid_hash hash))
    by_test true = refl
    by_test false = refl

-- A hash is accepted with exactly its form.
pub normalize_form :
    (u : Casing) (hash text : Text) → normalize u hash ≡ ok text → HasForm u hash text
unfolding checked
normalize_form u hash text h =
    accepted (to_lower u (trim_space hash)) refl (sym (normalize-checked u hash) ∙ h)
  where
    accepted :
        (t : Text)
        → to_lower u (trim_space hash) ≡ t
        → checked hash t ≡ ok text
        → HasForm u hash text
    accepted t e k = elim (Bool-cases ((byte_len t == 64) && all_hex t)) [
      | inl fits ↦
          let same : t ≡ text = ok-injective (rw fits at k) in
          let hex : all_hex t ≡ true = ground arith in
          subst (HasForm u hash) same
            (sym e, ground (arith, byte_len-hex t hex), all_hex-digits t hex)
      | inr unfit ↦ cc (rw unfit at k)
    ]
      where
        ok-injective : {a b : Text} → ◌≡◌ {A = Result IdError Text} (ok a) (ok b) → a ≡ b
        ok-injective p = cc

pub form-normalize :
    (u : Casing) (hash text : Text) → HasForm u hash text → normalize u hash ≡ ok text
unfolding checked
form-normalize u hash text (spelled, size, digits) =
    normalize-checked u hash ∙ subst (λ t. checked hash t ≡ ok text) spelled fits
  where
    hex : all_hex text ≡ true
    hex = digits-all_hex text digits

    fits : checked hash text ≡ ok text
    fits = rw (byte_len-hex text hex, size, hex) refl

-- What is refused has no form, and the error names it.
pub normalize_refused :
    (u : Casing) (hash : Text) (e : IdError)
    → normalize u hash ≡ err e
    → (e ≡ invalid_hash hash) × ((text : Text) → ¬ HasForm u hash text)
unfolding checked
normalize_refused u hash e h = (
  named (to_lower u (trim_space hash)) (sym (normalize-checked u hash) ∙ h),
  λ text form. let accepted = form-normalize u hash text form in cc,
)
  where
    named : (t : Text) → checked hash t ≡ err e → e ≡ invalid_hash hash
    named t k = elim (Bool-cases ((byte_len t == 64) && all_hex t)) [
      | inl fits ↦ cc (rw fits at k)
      | inr unfit ↦ cc (rw unfit at k)
    ]

-- A list is refused for one of its hashes.
pub normalize_hashes_refused :
    (u : Casing) (hashes seen : List Text) (e : IdError)
    → normalize_hashes u hashes seen ≡ err e
    → (hash : Text) × (exists_row (text_eq hash) hashes ≡ true) × (normalize u hash ≡ err e)
unfolding normalize_hashes exists_row
normalize_hashes_refused u [] seen e h = cc
normalize_hashes_refused u (hash ∷ hashes) seen e h =
    by_first (normalize u hash) refl
      (λ text k. normalize_hashes_refused u hashes (add_new text seen) e k) h
  where
    Refused : List Text → Type 0
    Refused given =
        (bad : Text) × (exists_row (text_eq bad) given ≡ true) × (normalize u bad ≡ err e)

    by_first :
        (n : Result IdError Text)
        → normalize u hash ≡ n
        → ((text : Text) → normalize_hashes u hashes (add_new text seen) ≡ err e → Refused hashes)
        → (n >>= λ text. normalize_hashes u hashes (add_new text seen)) ≡ err e
        → Refused (hash ∷ hashes)
    by_first (err d) first later k = (hash, rw (text_eq_refl hash) refl, first ∙ cc)
    by_first (ok text) first later k =
        let (bad, there, refused) = later text k in (bad, ground (arith, there), refused)
