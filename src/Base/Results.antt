-- ===== src/Base/Results.antt =====
-- Go's `(value, error)` pairs: a value, or the error that the function returns instead of it.
use mathlib.Core.Path.{◌≡◌, refl}

pub data Result {ℓ κ} (Err : Type κ) (Val : Type ℓ) : Type (ℓ ⊔ κ) where
  err : Err → Result Err Val
  ok : Val → Result Err Val

-- `v, err := call(); if err != nil { return err }; next(v)`
module _ {ℓ κ} {Err Val : Type ℓ} {Out : Type κ} where
  infixl 5 ◌>>=◌
  abbrev pub ◌>>=◌ : Result Err Val → (Val → Result Err Out) → Result Err Out
  err why >>= next = err why
  ok v >>= next = next v

  pub >>=-eq-ok :
      (call : Result Err Val) (next : Val → Result Err Out) {out : Out}
      → (call >>= next) ≡ ok out
      → (v : Val) × (call ≡ ok v) × (next v ≡ ok out)
  >>=-eq-ok (err why) next whole = cc
  >>=-eq-ok (ok v) next whole = (v, refl, whole)
