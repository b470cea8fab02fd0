-- ===== src/Tags/Parts.antt =====
-- `Split` and `Combine` against each other.
use hydrus_go.Base.{true, false, [], ◌∷◌, ◌++◌, ◌≡◌, refl, Bool-cases, inl, inr, arith}
use hydrus_go.Base.Strings.{Text, contains}
use hydrus_go.Tags.{colon, before_colon, after_colon, split, combine}

before-append : (n s : Text) → contains n colon ≡ false → before_colon (n ++ colon ∷ s) ≡ n
unfolding contains before_colon
before-append [] s h = refl
before-append (c ∷ n) s h = ground (arith, before-append n s)

after-append : (n s : Text) → contains n colon ≡ false → after_colon (n ++ colon ∷ s) ≡ s
unfolding contains after_colon
after-append [] s h = refl
after-append (c ∷ n) s h = ground (arith, after-append n s)

contains-append : (n s : Text) → contains (n ++ colon ∷ s) colon ≡ true
unfolding contains
contains-append [] s = refl
contains-append (c ∷ n) s = ground (arith, contains-append n s)

pub split-append : (n s : Text) → contains n colon ≡ false → split (n ++ colon ∷ s) ≡ (n, s)
unfolding split
split-append n s h = rw (contains-append n s, before-append n s h, after-append n s h)

-- A namespace without a colon and any subtag are read back from the tag that they make.
pub split-combine : (n s : Text) → contains n colon ≡ false → split (combine n s) ≡ (n, s)
split-combine [] s h = elim (Bool-cases (contains s colon)) [
  | inl has ↦ unfold combine in rw has (split-append [] s h)
  | inr lacks ↦ unfold combine split in rw (lacks, lacks)
]
split-combine (c ∷ n) s h = unfold combine in split-append (c ∷ n) s h

pub before_lacks : (t : Text) → contains (before_colon t) colon ≡ false
unfolding contains before_colon
before_lacks [] = refl
before_lacks (c ∷ t) = ground (arith, before_lacks t)

pub before-after :
    (t : Text) → contains t colon ≡ true → before_colon t ++ colon ∷ after_colon t ≡ t
unfolding contains before_colon after_colon
before-after [] h = cc
before-after (c ∷ t) h = ground (arith, before-after t)
