-- ===== src/Catalog/Examples.antt =====
-- A catalog of four services, sorted, searched and grouped.
use hydrus_go.Base.{Bool, ℕ, ◌≡◌, refl, none, some, List, [], ◌∷◌}
use hydrus_go.Base.Strings.{Text, codes, text_eq}
use hydrus_go.Base.Maps
use hydrus_go.Catalog.{
  Service, discovery_type_rank, text_less, insert_service, sort_discovery_catalog, by_name,
  first_named,
}
use hydrus_go.Catalog.Sorting.{of_type, of_type-sort_discovery_catalog}
use hydrus_go.Catalog.Order.{IsOrdered, count, sort_discovery_catalog-IsOrdered}

abbrev plain : Text → ℕ → Service
plain name service_type = record {
  name = name;
  service_key = name;
  service_type = service_type;
  type_pretty = [];
  show_in_thumbnail = none;
  show_in_thumbnail_even_when_null = none;
  star_shape = [];
  colours = Maps.empty;
  allows_zero = none;
  min_stars = none;
  max_stars = none;
}

abbrev catalog : List Service
catalog =
    plain (codes "trash") 14
    ∷ plain (codes "my tags") 5
    ∷ plain (codes "client api") 18
    ∷ plain (codes "more tags") 5
    ∷ []

sorted :
    sort_discovery_catalog catalog
    ≡ plain (codes "my tags") 5
      ∷ plain (codes "more tags") 5
      ∷ plain (codes "trash") 14
      ∷ plain (codes "client api") 18
      ∷ []
unfolding sort_discovery_catalog insert_service discovery_type_rank text_less
sorted = refl

sort_discovery_catalog-IsOrdered_example :
    IsOrdered (sort_discovery_catalog catalog)
    × ((test : Service → Bool) → count test (sort_discovery_catalog catalog) ≡ count test catalog)
sort_discovery_catalog-IsOrdered_example = sort_discovery_catalog-IsOrdered catalog

tags_rank : discovery_type_rank 5 ≡ some 0
unfolding discovery_type_rank
tags_rank = refl

of_type-sort_discovery_catalog_example :
    of_type 5 (sort_discovery_catalog catalog) ≡ of_type 5 catalog
of_type-sort_discovery_catalog_example = of_type-sort_discovery_catalog 5 0 tags_rank catalog

found : by_name text_eq (codes "more tags") catalog ≡ some (plain (codes "more tags") 5)
unfolding by_name first_named text_eq
found = refl
