-- ===== src/Catalog/Order.antt =====
-- The order of the discovery catalog, described without its comparison: a list of the types in their
-- order, and the order of the names.
use hydrus_go.Base.{
  ℕ, ◌+◌, ◌<◌, ◌≡◌, refl, Bool, true, false, Option, none, some, List, [], ◌∷◌, ◌==◌, ltb,
  if◌then◌else◌, All, Bool-cases, inl, inr, ◌⊎◌, arith, ap, subst, ◌∙◌, if_elim,
}
use hydrus_go.Base.Strings.{Text}
use hydrus_go.Catalog.{
  Service, discovery_type_rank, text_less, rank_less, less, insert_service, sort_discovery_catalog,
}
use hydrus_go.Catalog.Sorting.{IsSorted, All-weaken, sort_discovery_catalog-IsSorted}

-- Local tags, tag repositories, local files, local updates, file repositories, all local files, all
-- local media, all known files, all known tags, numerical ratings, like ratings, count ratings, trash.
abbrev pub discovery_order : List ℕ
discovery_order = 5 ∷ 0 ∷ 2 ∷ 20 ∷ 1 ∷ 15 ∷ 21 ∷ 11 ∷ 10 ∷ 7 ∷ 6 ∷ 22 ∷ 14 ∷ []

-- Where a number comes in a list whose first place is the one given.
unfoldable pub place_from : ℕ → ℕ → List ℕ → Option ℕ
place_from first n [] = none
place_from first n (m ∷ ms) =
    let rest = place_from (first + 1) n ms in if n == m then some first else rest

abbrev pub place_of_type : ℕ → Option ℕ
place_of_type service_type = place_from 0 service_type discovery_order

discovery_type_rank-place :
    (service_type : ℕ) → discovery_type_rank service_type ≡ place_of_type service_type
unfolding discovery_type_rank place_from
discovery_type_rank-place service_type = refl

-- The order of texts: the first place where they differ decides, and a beginning comes first.
unfoldable pub IsNotAfter : Text → Text → Type 0
IsNotAfter [] t = Unit
IsNotAfter (c ∷ s) [] = ⊥
IsNotAfter (c ∷ s) (d ∷ t) = (c < d) ⊎ ((c ≡ d) × IsNotAfter s t)

text_less-IsNotAfter : (s t : Text) → text_less t s ≡ false → IsNotAfter s t
unfolding text_less IsNotAfter
text_less-IsNotAfter [] t h = tt
text_less-IsNotAfter (c ∷ s) [] h = cc
text_less-IsNotAfter (c ∷ s) (d ∷ t) h = elim (Bool-cases (ltb d c)) [
  | inl above ↦ cc (rw above at h)
  | inr not_above ↦ elim (Bool-cases (ltb c d)) [
    | inl below ↦ inl (ground arith)
    | inr not_below ↦ inr (ground arith, text_less-IsNotAfter s t (rw (not_above, not_below) at h))
  ]
]

-- A place comes no later than another; without a place the names decide.
abbrev pub IsInOrder : Option ℕ → Option ℕ → Type 0 → Type 0
IsInOrder (some l) (some r) names = ◌⊎◌ (l < r) (l ≡ r)
IsInOrder (some l) none names = Unit
IsInOrder none (some r) names = ⊥
IsInOrder none none names = names

abbrev pub MayPrecede : Service → Service → Type 0
MayPrecede x y =
    IsInOrder (place_of_type x.service_type) (place_of_type y.service_type)
      (IsNotAfter x.name y.name)

rank_less-IsInOrder :
    (o p : Option ℕ) (n : Bool) (names : Type 0)
    → (n ≡ false → names)
    → rank_less p o n ≡ false
    → IsInOrder o p names
rank_less-IsInOrder none none n names by_name h = by_name h
rank_less-IsInOrder none (some r) n names by_name h = cc
rank_less-IsInOrder (some l) none n names by_name h = tt
rank_less-IsInOrder (some l) (some r) n names by_name h = elim (Bool-cases (ltb l r)) [
  | inl below ↦ inl (ground arith)
  | inr not_below ↦ inr (ground arith)
]

less-MayPrecede : (x y : Service) → less y x ≡ false → MayPrecede x y
less-MayPrecede x y h =
    rank_less-IsInOrder (place_of_type x.service_type) (place_of_type y.service_type)
      (text_less y.name x.name) (IsNotAfter x.name y.name) (text_less-IsNotAfter x.name y.name)
      (subst (λ o. rank_less (place_of_type y.service_type) o (text_less y.name x.name) ≡ false)
        (discovery_type_rank-place x.service_type)
        (subst
          (λ o. rank_less o (discovery_type_rank x.service_type) (text_less y.name x.name) ≡ false)
          (discovery_type_rank-place y.service_type) h))

-- Every service may precede those behind it.
unfoldable pub IsOrdered : List Service → Type 0
IsOrdered [] = Unit
IsOrdered (x ∷ xs) = All (MayPrecede x) xs × IsOrdered xs

IsSorted-IsOrdered : (xs : List Service) → IsSorted xs → IsOrdered xs
unfolding IsSorted IsOrdered
IsSorted-IsOrdered [] sorted = tt
IsSorted-IsOrdered (x ∷ xs) (above, sorted) = (
  All-weaken (λ y. less y x ≡ false) (MayPrecede x) xs (λ y h. less-MayPrecede x y h) above,
  IsSorted-IsOrdered xs sorted,
)

-- How many services pass a test.
unfoldable pub count : (Service → Bool) → List Service → ℕ
count test [] = 0
count test (x ∷ xs) = let rest = count test xs in if test x then 1 + rest else rest

count-insert_service :
    (test : Service → Bool) (x : Service) (ys : List Service)
    → count test (insert_service x ys) ≡ count test (x ∷ ys)
unfolding insert_service count
count-insert_service test x [] = refl
count-insert_service test x (y ∷ ys) =
    if_elim (λ l. count test l ≡ count test (x ∷ y ∷ ys)) (less y x) _ _
      (λ _.
        ap (λ n. if test y then 1 + n else n) (count-insert_service test x ys)
        ∙ swapped (test x) (test y) (count test ys))
      (λ _. refl)
  where
    swapped :
        (a b : Bool) (n : ℕ)
        → (if b then 1 + (if a then 1 + n else n) else if a then 1 + n else n)
          ≡ (if a then 1 + (if b then 1 + n else n) else if b then 1 + n else n)
    swapped true true n = refl
    swapped true false n = refl
    swapped false true n = refl
    swapped false false n = refl

count-sort_discovery_catalog :
    (test : Service → Bool) (xs : List Service)
    → count test (sort_discovery_catalog xs) ≡ count test xs
unfolding sort_discovery_catalog count
count-sort_discovery_catalog test [] = refl
count-sort_discovery_catalog test (x ∷ xs) =
    count-insert_service test x (sort_discovery_catalog xs)
    ∙ ap (λ n. if test x then 1 + n else n) (count-sort_discovery_catalog test xs)

-- Sorting the discovery catalog puts the services in the order of their types in the list
-- 5, 0, 2, 20, 1, 15, 21, 11, 10, 7, 6, 22, 14, those of other types behind them in the order of
-- their names; and it keeps the services: for every test, as many of them pass it as before.
pub sort_discovery_catalog-IsOrdered :
    (xs : List Service)
    → IsOrdered (sort_discovery_catalog xs)
      × ((test : Service → Bool) → count test (sort_discovery_catalog xs) ≡ count test xs)
sort_discovery_catalog-IsOrdered xs = (
  IsSorted-IsOrdered (sort_discovery_catalog xs) (sort_discovery_catalog-IsSorted xs),
  λ test. count-sort_discovery_catalog test xs,
)
