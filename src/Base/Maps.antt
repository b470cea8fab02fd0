-- ===== src/Base/Maps.antt =====
-- Go maps with string keys. The program never depends on the order of a map's entries, so a map is
-- the function from a key to what is stored under it.
use mathlib.Core.Path.{◌≡◌}
use mathlib.Core.Bool.{Bool}
use mathlib.Core.Option.{Option, none, some}
use native.Mathlib.Omega.{arith}
use hydrus_go.Base.Tests.{if◌then◌else◌}
use hydrus_go.Base.Strings.{Text, text_eq, text_eq_refl}

abbrev pub Map {ℓ} : Type ℓ → Type ℓ
Map V = Text → Option V

module _ {ℓ} {V : Type ℓ} where
  -- `map[string]V{}`
  abbrev pub empty : Map V
  empty k = none

  -- `m[k] = v`
  abbrev pub insert : Text → V → Map V → Map V
  insert k v m j = if text_eq k j then some v else m j

  -- `delete(m, k)`
  abbrev pub delete : Text → Map V → Map V
  delete k m j = if text_eq k j then none else m j

  -- `for k, v := range m { if drop(v) { delete(m, k) } }`
  abbrev pub delete_if : (V → Bool) → Map V → Map V
  delete_if drop m j = elim (m j) [ none ↦ none | some v ↦ if drop v then none else some v ]

  pub insert_self : (k : Text) (v : V) (m : Map V) → insert k v m k ≡ some v
  insert_self k v m = ground (arith, text_eq_refl k)

  pub delete_self : (k : Text) (m : Map V) → delete k m k ≡ none
  delete_self k m = ground (arith, text_eq_refl k)
