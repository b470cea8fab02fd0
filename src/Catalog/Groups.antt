-- ===== src/Catalog/Groups.antt =====
-- What is found in a catalog by its category or by its name.
use hydrus_go.Base.{
  ◌≡◌, refl, Bool, true, false, Option, none, some, List, [], ◌∷◌, ◌++◌, if◌then◌else◌, Bool-cases,
  inl, inr, ◌⊎◌, ap, sym, subst, ◌∙◌, if_elim, append-nil, append_assoc,
}
use hydrus_go.Base.Strings.{Text, text_eq, text_eq_sound}
use hydrus_go.Base.Maps
use hydrus_go.Base.Maps.{Map}
use hydrus_go.Catalog.{
  Service, discovery_category, discovery_group_order, empty_groups, slice_of, slice_at,
  group_service, group_all, grouped_services, first_named, or_else, by_name,
}

abbrev pub in_category : Option Text → Text → Bool
in_category none category = false
in_category (some c) category = text_eq c category

-- The services of a category, in their order.
unfoldable pub of_category : Text → List Service → List Service
of_category category [] = []
of_category category (x ∷ xs) =
    let rest = of_category category xs in
    if in_category (discovery_category x.service_type) category then x ∷ rest else rest

slice_of-if :
    (b : Bool) (v : List Service) (o : Option (List Service))
    → slice_of (if b then some v else o) ≡ (if b then v else slice_of o)
slice_of-if true v o = refl
slice_of-if false v o = refl

slice_at-group_service :
    (o : Option Text) (x : Service) (category : Text) (grouped : Map (List Service))
    → slice_at category (group_service o x grouped)
      ≡ slice_at category grouped ++ (if in_category o category then x ∷ [] else [])
slice_at-group_service none x category grouped = sym (append-nil (slice_at category grouped))
slice_at-group_service (some c) x category grouped =
    slice_of-if (text_eq c category) (slice_at c grouped ++ (x ∷ [])) (grouped category)
    ∙ if_elim (λ l. l ≡ slice_at category grouped ++ (if text_eq c category then x ∷ [] else []))
        (text_eq c category) (slice_at c grouped ++ (x ∷ [])) (slice_at category grouped)
        (λ e. rw e (ap (λ k. slice_at k grouped ++ (x ∷ [])) (text_eq_sound c category e)))
        (λ e. rw e (sym (append-nil (slice_at category grouped))))

slice_at-group_all :
    (xs : List Service) (category : Text) (grouped : Map (List Service))
    → slice_at category (group_all xs grouped)
      ≡ slice_at category grouped ++ of_category category xs
unfolding group_all of_category
slice_at-group_all [] category grouped = sym (append-nil (slice_at category grouped))
slice_at-group_all (x ∷ xs) category grouped =
    slice_at-group_all xs category (group_service (discovery_category x.service_type) x grouped)
    ∙ ap (λ l. l ++ of_category category xs)
        (slice_at-group_service (discovery_category x.service_type) x category grouped)
    ∙ append_assoc (slice_at category grouped)
        (if in_category (discovery_category x.service_type) category then x ∷ [] else [])
        (of_category category xs)
    ∙ ap (λ l. slice_at category grouped ++ l)
        (one_more (in_category (discovery_category x.service_type) category))
  where
    one_more :
        (b : Bool)
        → ((if b then x ∷ [] else []) ++ of_category category xs)
          ≡ (if b then x ∷ of_category category xs else of_category category xs)
    one_more true = refl
    one_more false = refl

slice_at-empty_groups :
    (categories : List Text) (category : Text) (grouped : Map (List Service))
    → slice_at category grouped ≡ []
    → slice_at category (empty_groups categories grouped) ≡ []
unfolding empty_groups
slice_at-empty_groups [] category grouped h = h
slice_at-empty_groups (c ∷ cs) category grouped h =
    slice_at-empty_groups cs category (Maps.insert c [] grouped) (
      slice_of-if (text_eq c category) [] (grouped category)
      ∙ if_elim (λ l. l ≡ []) (text_eq c category) [] (slice_at category grouped) (λ _. refl)
          (λ _. h))

-- `Grouped` has under each category the services of that category, in the order of the catalog.
pub grouped_services_lem :
    (xs : List Service) (category : Text)
    → slice_at category (grouped_services xs) ≡ of_category category xs
unfolding grouped_services
grouped_services_lem xs category =
    slice_at-group_all xs category (empty_groups discovery_group_order Maps.empty)
    ∙ ap (λ l. l ++ of_category category xs)
        (slice_at-empty_groups discovery_group_order category Maps.empty refl)

first_named-same :
    (same : Text → Text → Bool) (name : Text) (xs : List Service) (x : Service)
    → first_named same name xs ≡ some x
    → same x.name name ≡ true
unfolding first_named
first_named-same same name [] x h = cc
first_named-same same name (y ∷ ys) x h = elim (Bool-cases (same y.name name)) [
  | inl e ↦ subst (λ z. same z.name name ≡ true) (some-injective (rw e at h)) e
  | inr e ↦ first_named-same same name ys x (rw e at h)
]
  where
    some-injective : {a b : Service} → ◌≡◌ {A = Option Service} (some a) (some b) → a ≡ b
    some-injective p = cc

-- What `ByName` finds is named exactly so, or, only where no service is, named so up to case.
pub by_name_lem :
    (equal_fold : Text → Text → Bool) (name : Text) (xs : List Service) (x : Service)
    → by_name equal_fold name xs ≡ some x
    → (x.name ≡ name) ⊎ ((first_named text_eq name xs ≡ none) × (equal_fold x.name name ≡ true))
unfolding by_name
by_name_lem equal_fold name xs x h = found (first_named text_eq name xs) refl h
  where
    found :
        (o : Option Service)
        → first_named text_eq name xs ≡ o
        → or_else o (first_named equal_fold name xs) ≡ some x
        → (x.name ≡ name) ⊎ ((first_named text_eq name xs ≡ none) × (equal_fold x.name name ≡ true))
    found none e h = inr (e, first_named-same equal_fold name xs x h)
    found (some y) e h =
        inl (text_eq_sound x.name name (first_named-same text_eq name xs x (e ∙ h)))
