-- ===== src/ClientFiles/Directory.antt =====
-- The directory below a root: the kind's letter and the hash prefix, in pieces of two digits.
use mathlib.Core.List.{flatten}
use hydrus_go.Base.{
  ℕ, suc, ◌<◌, ◌≤◌, true, false, [], ◌∷◌, ◌++◌, ◌≡◌, refl, ap, inl, inr, All, length, arith, ◌||◌,
  ◌⊎◌, take, ltb,
}
use hydrus_go.Base.Strings.{Text, Casing, byte_len, text_eq}
use hydrus_go.Base.Int.{pos}
use hydrus_go.Base.Paths
use hydrus_go.Base.Results.{ok}
use hydrus_go.ClientFiles.{
  chunks, mark_kind, relative_parts, relative_directory, relative_directory_from_prefix, prefix,
  validate_prefix_length, max_prefix_length, kind_file, kind_thumbnail,
}
use hydrus_go.ClientFiles.Hash.{IsHash, normalize_fixed}

-- `flatten` puts the pieces back together, in order.
flatten-chunks : (s : Text) → flatten (chunks s) ≡ s
unfolding chunks flatten
flatten-chunks [] = refl
flatten-chunks (c ∷ []) = refl
flatten-chunks (c ∷ d ∷ s) = ap (λ t. c ∷ d ∷ t) (flatten-chunks s)

abbrev IsPiece : Text → Type 0
IsPiece p = (0 < length p) × (length p ≤ 2)

chunks-IsPiece : (s : Text) → All IsPiece (chunks s)
unfolding chunks
chunks-IsPiece [] = tt
chunks-IsPiece (c ∷ []) = (omega arith, tt)
chunks-IsPiece (c ∷ d ∷ s) = (omega arith, chunks-IsPiece s)

-- The directory's elements spell the managed prefix, and no information is lost in them.
pub flatten-relative_parts :
    (kind c : ℕ) (s : Text) → flatten (relative_parts (kind ∷ c ∷ s)) ≡ kind ∷ c ∷ s
unfolding relative_parts chunks mark_kind flatten
flatten-relative_parts kind c [] = refl
flatten-relative_parts kind c (d ∷ s) = ap (λ t. kind ∷ c ∷ d ∷ t) (flatten-chunks s)

length-le-byte_len : (s : Text) → length s ≤ byte_len s
unfolding byte_len
length-le-byte_len [] = omega arith
length-le-byte_len (c ∷ s) = ground (arith, length-le-byte_len s)

-- A kind of the storage.
abbrev pub IsKind : Text → Type 0
IsKind kind = (kind ≡ kind_file) ⊎ (kind ≡ kind_thumbnail)

valid_length : (n : ℕ) → suc n ≤ max_prefix_length → validate_prefix_length (pos (suc n)) ≡ ok tt
unfolding validate_prefix_length
valid_length n h = ground arith

kind_test :
    (kind : Text) → IsKind kind → (text_eq kind kind_file || text_eq kind kind_thumbnail) ≡ true
unfolding text_eq
kind_test kind (inl e) = rw e
kind_test kind (inr e) = rw e

-- Of a hash and a prefix length in range, `Prefix` is the kind and that many digits.
pub prefix_ok :
    (u : Casing) (kind h : Text) (n : ℕ)
    → IsKind kind
    → IsHash h
    → suc n ≤ max_prefix_length
    → prefix u kind h (pos (suc n)) ≡ ok (kind ++ take (suc n) h)
unfolding prefix
prefix_ok u kind h n k hash fits =
    rw (normalize_fixed u h hash, valid_length n fits, kind_test kind k)

long_enough :
    (kind h : Text) (n : ℕ)
    → IsKind kind
    → IsHash h
    → ltb (byte_len (kind ++ take (suc n) h)) 2 ≡ false
long_enough kind [] n k hash = absurd (omega (arith, hash.size))
long_enough kind (c ∷ h) n (inl e) hash =
    rw e (ground (arith, length-le-byte_len (b'f' ∷ c ∷ take n h)))
long_enough kind (c ∷ h) n (inr e) hash =
    rw e (ground (arith, length-le-byte_len (b't' ∷ c ∷ take n h)))

-- Of a hash and a prefix length in range, `RelativeDirectory` succeeds.
pub relative_directory_ok :
    (u : Casing) (kind h : Text) (n : ℕ)
    → IsKind kind
    → IsHash h
    → suc n ≤ max_prefix_length
    → relative_directory u kind h (pos (suc n))
      ≡ ok (Paths.join (relative_parts (kind ++ take (suc n) h)))
unfolding relative_directory relative_directory_from_prefix
relative_directory_ok u kind h n k hash fits =
    rw (prefix_ok u kind h n k hash fits, long_enough kind h n k hash)
