-- ===== src/Providers/Azure/Tests.antt =====
-- Tests of the client of Azure, and its theorems at concrete inputs.
use cloudinfo.Prelude.{
  String, ◌≡◌, refl, ◌≢◌, ◌↔◌, inl, inr, true, any, List, [], ◌∷◌, some, none, In,
}
use cloudinfo.Prelude.Text.{to_lower, concat, contains}
use cloudinfo.Prelude.Strings.{
  is_int, split, in_cutset, trim_suffix, has_suffix, matches, replace, replace_all, trim_left,
  trim_right,
}
use cloudinfo.CloudInfo.{create_string, contains_text}
use cloudinfo.Providers.Groups.{group_of}
use cloudinfo.Prelude.Float.{Float64, float_one}
use cloudinfo.Prelude.Maps.{lookup}
use cloudinfo.Prelude.Result.{ok, err}
use cloudinfo.InstanceType.Categories.{
  category_general, category_compute, category_memory, category_storage, category_gpu,
}
use cloudinfo.Providers.Azure.RegionIds.{
  found, not_found, out_of_range, to_region_id, check_region_id, to_region_id-out_of_range_iff,
  last_part, first_known, parts_text, without_last,
}
use cloudinfo.Providers.Azure.MachineTypes.{
  machine_type, get_machine_type_variants, rest_suffix, add_suffix,
}
use cloudinfo.Providers.Azure.Variants.{get_machine_type_variants-total}
use cloudinfo.Providers.Azure.Client.{
  AzureClients, category_map, map_category, family_of, get_regions,
}
use cloudinfo.Providers.Azure.Meters.{Meter, Prices, initialize}
use cloudinfo.Providers.Azure.Outcome.{crashes, initialize-none_iff}
use cloudinfo.Providers.Azure.Known.{initialize-IsKnown}
use cloudinfo.Providers.Azure.Categories.{map_category-order}

abbrev regions : List (String × String)
regions = ("westeurope", "West Europe") ∷ ("westus2", "West US 2") ∷ []

to_region_id_tests :
    (to_region_id "EU West" regions ≡ found "westeurope")
    × (to_region_id "US West 2" regions ≡ found "westus2")
    × (to_region_id "Zone 1" regions ≡ not_found)
    × (to_region_id "7" regions ≡ out_of_range)
unfolding to_region_id is_int last_part split to_lower first_known concat parts_text without_last
to_region_id_tests = (refl, refl, refl, refl)

machine_type_tests :
    (machine_type "D2/D2s" "Dv2" ≡ "Standard_D2" ∷ "Standard_D2s" ∷ [])
    × (machine_type "A1 v2 Low Priority" "Av2" ≡ "Standard_A1_v2" ∷ [])
    × (machine_type "A0" "Basic" ≡ "Basic_A0" ∷ [])
    × (machine_type "D2 Expired" "D" ≡ [])
unfolding machine_type in_cutset split concat trim_suffix contains create_string replace
machine_type_tests = (refl, refl, refl, refl)

variants_tests :
    (get_machine_type_variants "Standard_B2m" ≡ some ("Standard_B2ms" ∷ []))
    × (get_machine_type_variants "Standard_D3_v2"
        ≡ some (
            "Standard_D3s_v2" ∷ "Standard_DS3_v2" ∷ "Standard_DS3-1_v2" ∷ "Standard_DS3-2_v2"
            ∷ "Standard_DS3-4_v2" ∷ "Standard_DS3-8_v2" ∷ []))
    × (get_machine_type_variants "Standard_M64s" ≡ some ("Standard_M64" ∷ "Standard_M64m" ∷ []))
    × (get_machine_type_variants "Basic_A0" ≡ some [])
unfolding get_machine_type_variants in_cutset split concat rest_suffix add_suffix trim_suffix
    has_suffix matches replace_all create_string
variants_tests = (refl, refl, refl, refl)

to_region_id-out_of_range_iff_example :
    (to_region_id "7" regions ≡ out_of_range) ↔ (is_int (to_lower "7") ≡ true)
to_region_id-out_of_range_iff_example = to_region_id-out_of_range_iff "7" regions

get_machine_type_variants-total_example : get_machine_type_variants "Standard_M64ms_v2" ≢ none
get_machine_type_variants-total_example = get_machine_type_variants-total "Standard_M64ms_v2"

abbrev clients : AzureClients
clients = record {
  list_locations = ok (("West Europe", "westeurope") ∷ ("Mars", "mars") ∷ []);
  get_provider = λ namespace.
      ok (record { resource = "locations/vmSizes"; locations = "West Europe" ∷ "Moon" ∷ [] } ∷ []);
  list_skus = ok [];
  list_orchestrators = λ region. err "down";
  possible_vm_sizes = [];
}

abbrev meter : String → Meter
meter region = record {
  meter_category = "Virtual Machines";
  meter_tags = [];
  meter_region = region;
  meter_sub_category = "Dv2";
  meter_name = "H8";
  meter_rates = float_one ∷ [];
}

abbrev plus : Float64 → Float64 → Float64
plus a b = b

compute_regions : get_regions clients "compute" ≡ ok (("westeurope", "West Europe") ∷ [])
unfolding get_regions
compute_regions = refl

initialize-none_iff_example :
    (initialize plus clients (ok (meter "EU West" ∷ meter "12" ∷ [])) ≡ none)
    ↔ (any (crashes plus) (meter "EU West" ∷ meter "12" ∷ []) ≡ true)
initialize-none_iff_example =
    initialize-none_iff plus clients (("westeurope", "West Europe") ∷ [])
      (meter "EU West" ∷ meter "12" ∷ []) compute_regions

abbrev priced : Prices
priced =
    ("westeurope", ("Standard_H8", record { on_demand_price = float_one; spot_price = [] }) ∷ [])
    ∷ []

initialize_test : initialize plus clients (ok (meter "EU West" ∷ [])) ≡ some (ok priced)
unfolding initialize is_int last_part to_lower first_known parts_text
initialize_test = refl

priced_there : lookup "westeurope" priced ≢ none
unfolding lookup
priced_there e = cc

initialize-IsKnown_example :
    check_region_id "westeurope" (("westeurope", "West Europe") ∷ []) ≡ true
initialize-IsKnown_example =
    initialize-IsKnown (("westeurope", "West Europe") ∷ []) plus clients (meter "EU West" ∷ [])
      priced compute_regions initialize_test "westeurope" priced_there

swap : {A : Type 0} (e a b : A) (rest : List A) → In e (a ∷ b ∷ rest) → In e (b ∷ a ∷ rest)
swap e a b rest (inl is_a) = inr (inl is_a)
swap e a b rest (inr (inl is_b)) = inl is_b
swap e a b rest (inr (inr later)) = inr (inr later)

abbrev families : String → List String
families category = elim (lookup category category_map) [ none ↦ [] | some fs ↦ fs ]

abbrev later_categories : List (String × List String)
later_categories =
    (category_memory, families category_memory)
    ∷ (category_storage, families category_storage)
    ∷ (category_gpu, families category_gpu)
    ∷ []

abbrev visited : List (String × List String)
visited =
    (category_compute, families category_compute)
    ∷ (category_general, families category_general)
    ∷ later_categories

map_category-order_example :
    map_category visited "standardDSv2Family" ≡ map_category category_map "standardDSv2Family"
unfolding lookup
map_category-order_example =
    map_category-order visited "standardDSv2Family"
      (λ c fs. (swap _ _ _ later_categories, swap _ _ _ later_categories))

map_category_tests :
    (map_category category_map "standardDSv2Family" ≡ some category_general)
    × (map_category category_map "standardNCSv3Family" ≡ some category_gpu)
    × (map_category category_map "unheardOf" ≡ none)
unfolding map_category group_of family_of trim_left trim_right in_cutset contains_text
map_category_tests = (refl, refl, refl)
