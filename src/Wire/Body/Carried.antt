-- ===== src/Wire/Body/Carried.antt =====
-- Which bodies are read at all.
use hydrus_go.Base.{
  ℕ, ◌≤◌, ◌≡◌, ◌↔◌, refl, false, Option, none, some, List, length, Bool-cases, inl, inr, arith,
}
use hydrus_go.Base.Results.{ok, ◌>>=◌}
use hydrus_go.Base.Int.{pos, ltb_ℤ}
use hydrus_go.Wire.{Value, WireError, Codec, from_option}
use hydrus_go.Wire.Body.{
  max_decompressed_bytes, read_limited_bytes, decode_json, decode_network_bytes,
}

-- The body inflates to the JSON of the value, within the limit.
abbrev pub Carries : Codec → List ℕ → Value → Type 0
Carries c body v =
    (payload : List ℕ) × (c.inflate body ≡ some payload)
    × (length payload ≤ 134217728)
    × (c.parse_json payload ≡ some v)

from_option-eq-ok :
    (why : WireError) (o : Option Value) (v : Value) → from_option why o ≡ ok v → o ≡ some v
from_option-eq-ok why none v h = cc
from_option-eq-ok why (some w) v h = cc

read-Carries :
    (c : Codec) (body : List ℕ) (v : Value) (o : Option (List ℕ))
    → c.inflate body ≡ o
    → (read_limited_bytes o max_decompressed_bytes >>= decode_json c) ≡ ok v
    → Carries c body v
unfolding read_limited_bytes
read-Carries c body v none e h = cc
read-Carries c body v (some payload) e h =
    elim (Bool-cases (ltb_ℤ max_decompressed_bytes (pos (length payload)))) [
      | inl large ↦ cc (rw large at h)
      | inr small ↦ (payload, e, ground arith, from_option-eq-ok _ _ v (rw small at h))
    ]

-- A body is read as a value exactly if it inflates to at most 134217728 bytes, which are JSON of the
-- value.
pub decode_network_bytes_iff :
    (c : Codec) (body : List ℕ) (v : Value)
    → (decode_network_bytes c body ≡ ok v) ↔ Carries c body v
unfolding decode_network_bytes read_limited_bytes
decode_network_bytes_iff c body v = (
  λ h. read-Carries c body v (c.inflate body) refl h,
  λ (payload, inflated, small, parsed). rw (inflated, small_test payload small, parsed) refl,
)
  where
    small_test :
        (payload : List ℕ)
        → length payload ≤ 134217728
        → ltb_ℤ max_decompressed_bytes (pos (length payload)) ≡ false
    small_test payload small = ground arith
