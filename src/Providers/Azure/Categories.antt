-- ===== src/Providers/Azure/Categories.antt =====
-- The category of a machine does not depend on the order in which Go visits `categoryMap`.
use cloudinfo.Prelude.{String, ◌≡◌, refl, ◌↔◌, List, In}
use cloudinfo.CloudInfo.{contains_text}
use cloudinfo.Providers.Groups.{group_of-order}
use cloudinfo.Providers.Azure.Client.{category_map, map_category, family_of}

-- Whatever the order in which the map of the categories is visited, `mapCategory` gives the same
-- category for a family, or gives an error.
pub map_category-order :
    (visited : List (String × List String)) (name : String)
    → ((category : String) (families : List String)
        → In (category, families) visited ↔ In (category, families) category_map)
    → map_category visited name ≡ map_category category_map name
unfolding map_category contains_text
map_category-order visited name same =
    group_of-order category_map visited (family_of name) refl same
