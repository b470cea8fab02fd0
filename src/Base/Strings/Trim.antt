-- ===== src/Base/Strings/Trim.antt =====
-- Laws of `strings.TrimSpace`.
use hydrus_go.Base.Tests.{Bool-cases}
use hydrus_go.Base.Lists.{All}
use mathlib.Core.Path.{◌≡◌, refl, ap, ◌∙◌}
use mathlib.Core.Logic.{inl, inr}
use mathlib.Core.Bool.{false}
use mathlib.Core.List.{[], ◌∷◌}
use native.Mathlib.Omega.{arith}
use Prim.Native.Nat.{ℕ}
use hydrus_go.Base.Strings.{Text, is_space, trim_left, trim_right, trim_space, keep_left}

-- No code point is white space.
abbrev pub IsSolid : Text → Type 0
IsSolid = All (λ (c : ℕ). is_space c ≡ false)

trim_left_solid : (s : Text) → IsSolid s → trim_left s ≡ s
unfolding trim_left
trim_left_solid [] h = refl
trim_left_solid (c ∷ s) (hc, hs) = ground arith

keep_left_solid : (c : ℕ) (s : Text) → is_space c ≡ false → keep_left c s ≡ c ∷ s
keep_left_solid c [] h = ground arith
keep_left_solid c (d ∷ r) h = refl

trim_right_solid : (s : Text) → IsSolid s → trim_right s ≡ s
unfolding trim_right
trim_right_solid [] h = refl
trim_right_solid (c ∷ s) (hc, hs) = rw (trim_right_solid s hs) (keep_left_solid c s hc)

pub trim_space_solid : (s : Text) → IsSolid s → trim_space s ≡ s
unfolding trim_space
trim_space_solid s h = ap trim_right (trim_left_solid s h) ∙ trim_right_solid s h

keep_left-trim_right :
    (c : ℕ) (s : Text) → trim_right s ≡ s → trim_right (keep_left c s) ≡ keep_left c s
unfolding trim_right
keep_left-trim_right c [] h = ground arith
keep_left-trim_right c (d ∷ r) h = ap (keep_left c) h

pub trim_right_idem : (s : Text) → trim_right (trim_right s) ≡ trim_right s
unfolding trim_right
trim_right_idem [] = refl
trim_right_idem (c ∷ s) = keep_left-trim_right c (trim_right s) (trim_right_idem s)

-- Trimming on the right does not give a text that is trimmed on the left a space in front.
trim_left-keep_left :
    (c : ℕ) (s : Text) → is_space c ≡ false → trim_left (keep_left c s) ≡ keep_left c s
unfolding trim_left
trim_left-keep_left c [] h = ground arith
trim_left-keep_left c (d ∷ r) h = ground arith

trim_left-trim_right : (s : Text) → trim_left (trim_right (trim_left s)) ≡ trim_right (trim_left s)
unfolding trim_left trim_right
trim_left-trim_right [] = refl
trim_left-trim_right (c ∷ s) = elim (Bool-cases (is_space c)) [
  | inl space ↦ rw space (trim_left-trim_right s)
  | inr solid ↦ rw solid (trim_left-keep_left c (trim_right s) solid)
]

pub trim_space_idem : (s : Text) → trim_space (trim_space s) ≡ trim_space s
unfolding trim_space
trim_space_idem s = ap trim_right (trim_left-trim_right s) ∙ trim_right_idem (trim_left s)
