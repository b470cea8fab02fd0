-- ===== src/Catalog/Sorting.antt =====
-- Sorting the discovery catalog: by the comparison, and stable within a type.
use hydrus_go.Base.{
  ℕ, ◌≡◌, refl, Bool, true, false, Option, none, some, List, [], ◌∷◌, ◌==◌, if◌then◌else◌, All,
  Bool-cases, inl, inr, ◌⊎◌, arith, ap, sym, subst, ◌∙◌, if_elim, ==_iff,
}
use hydrus_go.Base.Strings.{Text}
use hydrus_go.Catalog.{
  Service, discovery_type_rank, text_less, rank_less, less, insert_service, sort_discovery_catalog,
}

-- The services of one type, in their order.
unfoldable pub of_type : ℕ → List Service → List Service
of_type service_type [] = []
of_type service_type (x ∷ xs) =
    let rest = of_type service_type xs in if x.service_type == service_type then x ∷ rest else rest

-- No service is less than one that stands before it.
unfoldable pub IsSorted : List Service → Type 0
IsSorted [] = Unit
IsSorted (x ∷ xs) = All (λ y. less y x ≡ false) xs × IsSorted xs

text_less_asym : (s t : Text) → text_less s t ≡ true → text_less t s ≡ false
unfolding text_less
text_less_asym s [] h = cc
text_less_asym [] (d ∷ t) h = refl
text_less_asym (c ∷ s) (d ∷ t) h = ground (arith, text_less_asym s t)

text_less_trans :
    (s t r : Text) → text_less t s ≡ false → text_less r t ≡ false → text_less r s ≡ false
unfolding text_less
text_less_trans [] t r h k = refl
text_less_trans (c ∷ s) [] r h k = cc
text_less_trans (c ∷ s) (d ∷ t) [] h k = cc
text_less_trans (c ∷ s) (d ∷ t) (e ∷ r) h k = ground (arith, text_less_trans s t r)

rank_less_asym :
    (o p : Option ℕ) (n n' : Bool)
    → (n ≡ true → n' ≡ false)
    → rank_less o p n ≡ true
    → rank_less p o n' ≡ false
rank_less_asym none none n n' names h = names h
rank_less_asym none (some r) n n' names h = cc
rank_less_asym (some l) none n n' names h = refl
rank_less_asym (some l) (some r) n n' names h = ground arith

rank_less_trans :
    (o p q : Option ℕ) (n n' n'' : Bool)
    → (n ≡ false → n' ≡ false → n'' ≡ false)
    → rank_less p o n ≡ false
    → rank_less q p n' ≡ false
    → rank_less q o n'' ≡ false
rank_less_trans none none none n n' n'' names h k = names h k
rank_less_trans none none (some r) n n' n'' names h k = cc
rank_less_trans none (some p) q n n' n'' names h k = cc
rank_less_trans (some o) none none n n' n'' names h k = refl
rank_less_trans (some o) none (some q) n n' n'' names h k = cc
rank_less_trans (some o) (some p) none n n' n'' names h k = refl
rank_less_trans (some o) (some p) (some q) n n' n'' names h k = ground arith

less_asym : (x y : Service) → less x y ≡ true → less y x ≡ false
less_asym x y =
    rank_less_asym (discovery_type_rank x.service_type) (discovery_type_rank y.service_type)
      (text_less x.name y.name) (text_less y.name x.name) (text_less_asym x.name y.name)

less_trans : (x y z : Service) → less y x ≡ false → less z y ≡ false → less z x ≡ false
less_trans x y z =
    rank_less_trans (discovery_type_rank x.service_type) (discovery_type_rank y.service_type)
      (discovery_type_rank z.service_type) (text_less y.name x.name) (text_less z.name y.name)
      (text_less z.name x.name) (text_less_trans x.name y.name z.name)

pub All-weaken :
    (P Q : Service → Type 0) (xs : List Service) → ((x : Service) → P x → Q x) → All P xs → All Q xs
All-weaken P Q [] all h = tt
All-weaken P Q (x ∷ xs) all (px, h) = (all x px, All-weaken P Q xs all h)

All-insert_service :
    (P : Service → Type 0) (x : Service) (ys : List Service)
    → P x
    → All P ys
    → All P (insert_service x ys)
unfolding insert_service
All-insert_service P x [] px _ = (px, tt)
All-insert_service P x (y ∷ ys) px (py, h) =
    if_elim (All P) (less y x) _ _ (λ _. (py, All-insert_service P x ys px h)) (λ _. (px, (py, h)))

insert_service-IsSorted :
    (x : Service) (ys : List Service) → IsSorted ys → IsSorted (insert_service x ys)
unfolding insert_service IsSorted
insert_service-IsSorted x [] _ = (tt, tt)
insert_service-IsSorted x (y ∷ ys) (above, sorted) =
    if_elim IsSorted (less y x) _ _
      (λ before. (
        All-insert_service (λ z. less z y ≡ false) x ys (less_asym y x before) above,
        insert_service-IsSorted x ys sorted,
      ))
      (λ behind. (
        (
          behind,
          All-weaken (λ z. less z y ≡ false) (λ z. less z x ≡ false) ys
              (λ z h. less_trans x y z behind h) above,
        ),
        (above, sorted),
      ))

-- No service of a sorted catalog is less than one that stands before it.
pub sort_discovery_catalog-IsSorted : (xs : List Service) → IsSorted (sort_discovery_catalog xs)
unfolding sort_discovery_catalog IsSorted
sort_discovery_catalog-IsSorted [] = tt
sort_discovery_catalog-IsSorted (x ∷ xs) =
    insert_service-IsSorted x (sort_discovery_catalog xs) (sort_discovery_catalog-IsSorted xs)

module _ (service_type r : ℕ) (ranked : discovery_type_rank service_type ≡ some r) where
  less_of_type :
      (x y : Service)
      → (x.service_type == service_type) ≡ true
      → (y.service_type == service_type) ≡ true
      → less y x ≡ false
  less_of_type x y hx hy = rw (rank_of x hx, rank_of y hy) (ground arith)
    where
      rank_of :
          (z : Service)
          → (z.service_type == service_type) ≡ true
          → discovery_type_rank z.service_type ≡ some r
      rank_of z hz =
          subst (λ k. discovery_type_rank k ≡ some r)
            (sym ((==_iff z.service_type service_type).0 hz)) ranked

  of_type-insert_service :
      (x : Service) (ys : List Service)
      → of_type service_type (insert_service x ys) ≡ of_type service_type (x ∷ ys)
  unfolding insert_service of_type
  of_type-insert_service x [] = refl
  of_type-insert_service x (y ∷ ys) =
      if_elim (λ l. of_type service_type l ≡ of_type service_type (x ∷ y ∷ ys)) (less y x) _ _
        (λ before.
          swapped before (of_type-insert_service x ys) (Bool-cases (x.service_type == service_type))
            (Bool-cases (y.service_type == service_type)))
        (λ _. refl)
    where
      swapped :
          less y x ≡ true
          → of_type service_type (insert_service x ys) ≡ of_type service_type (x ∷ ys)
          → ((x.service_type == service_type) ≡ true) ⊎ ((x.service_type == service_type) ≡ false)
          → ((y.service_type == service_type) ≡ true) ⊎ ((y.service_type == service_type) ≡ false)
          → of_type service_type (y ∷ insert_service x ys) ≡ of_type service_type (x ∷ y ∷ ys)
      swapped before same (inl hx) (inl hy) = let behind = less_of_type x y hx hy in cc
      swapped before same (inl hx) (inr hy) = rw (hx, hy) (same ∙ rw hx refl)
      swapped before same (inr hx) (inl hy) = rw (hx, hy) (ap (λ l. y ∷ l) (same ∙ rw hx refl))
      swapped before same (inr hx) (inr hy) = rw (hx, hy) (same ∙ rw hx refl)

  -- Sorting keeps the services of a type with a rank: all of them, in the order in which they came.
  pub of_type-sort_discovery_catalog :
      (xs : List Service)
      → of_type service_type (sort_discovery_catalog xs) ≡ of_type service_type xs
  unfolding sort_discovery_catalog of_type
  of_type-sort_discovery_catalog [] = refl
  of_type-sort_discovery_catalog (x ∷ xs) =
      of_type-insert_service x (sort_discovery_catalog xs)
      ∙ ap (λ l. if x.service_type == service_type then x ∷ l else l)
          (of_type-sort_discovery_catalog xs)
