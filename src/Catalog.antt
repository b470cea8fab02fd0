-- ===== src/Catalog.antt =====
-- internal/core/services/catalog.go and provider.go: the catalog of services, as far as it is sorted,
-- searched and grouped.
pub mod Sorting
pub mod Order
pub mod Groups
mod Examples
use hydrus_go.Base.{
  ℕ, Bool, true, false, Option, none, some, List, [], ◌∷◌, ◌++◌, ◌==◌, ltb, if◌then◌else◌,
}
use hydrus_go.Base.Strings.{Text, codes, text_eq}
use hydrus_go.Base.Maps
use hydrus_go.Base.Maps.{Map}
use hydrus_go.Base.Int.{ℤ}

pub record RatingColour : Type 0 where
  pub pen : Text
  pub brush : Text

pub record Service : Type 0 where
  pub name : Text
  pub service_key : Text
  pub service_type : ℕ
  pub type_pretty : Text
  pub show_in_thumbnail : Option Bool
  pub show_in_thumbnail_even_when_null : Option Bool
  pub star_shape : Text
  pub colours : Map RatingColour
  pub allows_zero : Option Bool
  pub min_stars : Option ℤ
  pub max_stars : Option ℤ

-- `discoveryTypeRank`
unfoldable pub discovery_type_rank : ℕ → Option ℕ
discovery_type_rank service_type =
    if service_type == 5
    then some 0
    else if service_type == 0
    then some 1
    else if service_type == 2
    then some 2
    else if service_type == 20
    then some 3
    else if service_type == 1
    then some 4
    else if service_type == 15
    then some 5
    else if service_type == 21
    then some 6
    else if service_type == 11
    then some 7
    else if service_type == 10
    then some 8
    else if service_type == 7
    then some 9
    else if service_type == 6
    then some 10
    else if service_type == 22
    then some 11
    else if service_type == 14
    then some 12
    else none

-- `<` on Go strings: UTF-8 keeps the order of the code points.
unfoldable pub text_less : Text → Text → Bool
text_less s [] = false
text_less [] (d ∷ t) = true
text_less (c ∷ s) (d ∷ t) =
    let rest = text_less s t in if ltb c d then true else if ltb d c then false else rest

-- The order of `SortDiscoveryCatalog`.
abbrev pub rank_less : Option ℕ → Option ℕ → Bool → Bool
rank_less none none names = names
rank_less none (some r) names = false
rank_less (some l) none names = true
rank_less (some l) (some r) names = ltb l r

abbrev pub less : Service → Service → Bool
less a b =
    rank_less (discovery_type_rank a.service_type) (discovery_type_rank b.service_type)
      (text_less a.name b.name)

-- `sort.SliceStable`: a service goes before those that are not less than it.
unfoldable pub insert_service : Service → List Service → List Service
insert_service x [] = x ∷ []
insert_service x (y ∷ ys) =
    let rest = insert_service x ys in if less y x then y ∷ rest else x ∷ y ∷ ys

unfoldable pub sort_discovery_catalog : List Service → List Service
sort_discovery_catalog [] = []
sort_discovery_catalog (x ∷ xs) = insert_service x (sort_discovery_catalog xs)

-- `Catalog.ByKey`
unfoldable pub by_key : Text → List Service → Option Service
by_key key [] = none
by_key key (x ∷ xs) = let rest = by_key key xs in if text_eq x.service_key key then some x else rest

unfoldable pub first_named : (Text → Text → Bool) → Text → List Service → Option Service
first_named same name [] = none
first_named same name (x ∷ xs) =
    let rest = first_named same name xs in if same x.name name then some x else rest

abbrev pub or_else : Option Service → Option Service → Option Service
or_else none other = other
or_else (some x) other = some x

-- `Catalog.ByName`: the exact name first, then `strings.EqualFold`.
unfoldable pub by_name : (Text → Text → Bool) → Text → List Service → Option Service
by_name equal_fold name xs = or_else (first_named text_eq name xs) (first_named equal_fold name xs)

-- `discoveryCategoryLookup`
unfoldable pub discovery_category : ℕ → Option Text
discovery_category service_type =
    if service_type == 5
    then some (codes "local_tags")
    else if service_type == 0
    then some (codes "tag_repositories")
    else if service_type == 2
    then some (codes "local_files")
    else if service_type == 20
    then some (codes "local_updates")
    else if service_type == 1
    then some (codes "file_repositories")
    else if service_type == 15
    then some (codes "all_local_files")
    else if service_type == 21
    then some (codes "all_local_media")
    else if service_type == 11
    then some (codes "all_known_files")
    else if service_type == 10
    then some (codes "all_known_tags")
    else if service_type == 14
    then some (codes "trash")
    else none

abbrev pub discovery_group_order : List Text
discovery_group_order =
    codes "local_tags"
    ∷ codes "tag_repositories"
    ∷ codes "local_files"
    ∷ codes "local_updates"
    ∷ codes "file_repositories"
    ∷ codes "all_local_files"
    ∷ codes "all_local_media"
    ∷ codes "all_known_files"
    ∷ codes "all_known_tags"
    ∷ codes "trash"
    ∷ []

unfoldable pub empty_groups : List Text → Map (List Service) → Map (List Service)
empty_groups [] grouped = grouped
empty_groups (category ∷ categories) grouped =
    empty_groups categories (Maps.insert category [] grouped)

-- A missing key reads as a nil slice.
abbrev pub slice_of : Option (List Service) → List Service
slice_of none = []
slice_of (some xs) = xs

abbrev pub slice_at : Text → Map (List Service) → List Service
slice_at category grouped = slice_of (grouped category)

abbrev pub group_service : Option Text → Service → Map (List Service) → Map (List Service)
group_service none x grouped = grouped
group_service (some category) x grouped =
    Maps.insert category (slice_at category grouped ++ (x ∷ [])) grouped

unfoldable pub group_all : List Service → Map (List Service) → Map (List Service)
group_all [] grouped = grouped
group_all (x ∷ xs) grouped =
    group_all xs (group_service (discovery_category x.service_type) x grouped)

-- `Catalog.Grouped`
unfoldable pub grouped_services : List Service → Map (List Service)
grouped_services xs = group_all xs (empty_groups discovery_group_order Maps.empty)
