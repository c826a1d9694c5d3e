-- ===== src/Providers/Amazon/PriceData.antt =====
-- An entry of the price list in internal/cloudinfo/providers/amazon/cloudinfo.go, and
-- network_mapper.go.
use cloudinfo.Prelude.{String, Bool, true, not, List, [], ◌∷◌, Option, some, none, str_eq}
use cloudinfo.Prelude.Text.{to_lower}
use cloudinfo.Prelude.Strings.{split}
use cloudinfo.Prelude.Float.{Float64}
use cloudinfo.Types.{VmInfo, empty_vm}
use cloudinfo.InstanceType.Categories.{ntw_low, ntw_medium, ntw_hight, ntw_extra}
use cloudinfo.CloudInfo.{attributes}
use cloudinfo.Json.{Json, text, object, Fields, no_fields, field, member}
use cloudinfo.Providers.Groups.{group_of}

-- `networkPerformanceCategories`
abbrev pub network_performance_categories : List (String × List String)
network_performance_categories =
    (ntw_low, "Very Low" ∷ "Low" ∷ "Low to Moderate" ∷ [])
    ∷ (ntw_medium, "Moderate" ∷ "High" ∷ [])
    ∷ (ntw_hight, "Up to 10 Gigabit" ∷ "10 Gigabit" ∷ [])
    ∷ (
      ntw_extra,
      "20 Gigabit" ∷ "25 Gigabit" ∷ "Up to 25 Gigabit" ∷ "50 Gigabit" ∷ "100 Gigabit" ∷ [],
    )
    ∷ []

-- `MapNetworkPerf`, where the map is visited as `visited`; `none` is the error.
unfoldable pub map_network_perf : List (String × List String) → String → Option String
unfolding group_of
map_network_perf visited network_performance = group_of visited network_performance

abbrev pub as_map : Option Json → Option Fields
as_map (some (object fields)) = some fields
as_map _ = none

-- `getMapForKey`; `none` is the error.
unfoldable pub get_map_for_key : String → Fields → Option Fields
unfolding member
get_map_for_key key src_map = as_map (member key src_map)

abbrev pub as_string : Option Json → Option String
as_string (some (text s)) = some s
as_string _ = none

-- `newPriceData`: the attributes of the product.
unfoldable pub new_price_data : Fields → Option Fields
unfolding get_map_for_key
new_price_data pr_data = elim (get_map_for_key "product" pr_data) [
  | none ↦ none
  | some product_map ↦ get_map_for_key "attributes" product_map
]

-- `getDataForKey`
unfoldable pub get_data_for_key : Fields → String → Option String
unfolding member
get_data_for_key attr_map attr = as_string (member attr attr_map)

-- The result of `getOnDemandPrice`: a text, an error, or the panic of a type assertion.
pub data OnDemandPrice : Type 0 where
  price_text : String → OnDemandPrice
  no_price : OnDemandPrice
  bad_assertion : OnDemandPrice

abbrev pub usd_price : Option String → OnDemandPrice
usd_price none = no_price
usd_price (some od_price) = price_text od_price

abbrev pub unit_price : Option Fields → OnDemandPrice
unit_price none = no_price
unit_price (some price_per_unit) = usd_price (as_string (member "USD" price_per_unit))

abbrev pub dimension_price : Option Fields → OnDemandPrice
dimension_price none = bad_assertion
dimension_price (some dimension) = unit_price (get_map_for_key "pricePerUnit" dimension)

-- The loop over the dimensions of a term, which ends with the first one.
abbrev pub first_dimension : Fields → OnDemandPrice → OnDemandPrice
first_dimension no_fields later = later
first_dimension (field key dimension rest) later = dimension_price (as_map (some dimension))

abbrev pub term_price : Option Fields → OnDemandPrice → OnDemandPrice
term_price none later = no_price
term_price (some price_dimensions) later = first_dimension price_dimensions later

-- The loop over the terms.
unfoldable pub on_demand_terms : Fields → OnDemandPrice
unfolding get_map_for_key member
on_demand_terms no_fields = price_text ""
on_demand_terms (field key term rest) =
    let later = on_demand_terms rest in
    elim (as_map (some term)) [
      | none ↦ bad_assertion
      | some term_map ↦ term_price (get_map_for_key "priceDimensions" term_map) later
    ]

-- `getOnDemandPrice`
unfoldable pub get_on_demand_price : Fields → OnDemandPrice
unfolding on_demand_terms get_map_for_key
get_on_demand_price aws_data = elim (get_map_for_key "terms" aws_data) [
  | none ↦ no_price
  | some terms_map ↦ elim (get_map_for_key "OnDemand" terms_map) [
    | none ↦ no_price
    | some on_demand_map ↦ on_demand_terms on_demand_map
  ]
]

-- The text of an attribute, which is empty where it is missing.
abbrev pub or_empty_text : Option String → String
or_empty_text none = ""
or_empty_text (some s) = s

-- Whether the generation is current: `currentGeneration` is missing or not "no".
abbrev pub is_current : Option String → Bool
is_current none = true
is_current (some current_gen) = not (str_eq (to_lower current_gen) "no")

-- `parse_float` is the value that `strconv.ParseFloat` returns, with or without an error.
module _ (parse_float : String → Float64) where
  -- The machine of an entry with a type, for the text of its price.
  unfoldable pub entry_vm : Fields → String → String → VmInfo
  unfolding get_data_for_key map_network_perf attributes split to_lower
  entry_vm attrs instance_type od_price =
      let data_for : String → String = λ key. or_empty_text (get_data_for_key attrs key) in
      let family = data_for "instanceFamily" in
      let mem = (split b' ' (data_for "memory")).0 in
      let ntw_perf = data_for "networkPerformance" in
      let ntw_perf_cat = or_empty_text (map_network_perf network_performance_categories ntw_perf) in
      record empty_vm {
        category = family;
        type = instance_type;
        on_demand_price = parse_float od_price;
        cpus = parse_float (data_for "vcpu");
        mem = parse_float mem;
        gpus = parse_float (data_for "gpu");
        ntw_perf = ntw_perf;
        ntw_perf_cat = ntw_perf_cat;
        current_gen = is_current (get_data_for_key attrs "currentGeneration");
        attributes = attributes (data_for "vcpu") mem ntw_perf_cat family;
      }

  abbrev pub priced_entry : Fields → String → OnDemandPrice → Option VmInfo
  priced_entry attrs instance_type (price_text s) = some (entry_vm attrs instance_type s)
  priced_entry attrs instance_type no_price = some (entry_vm attrs instance_type "")
  priced_entry attrs instance_type bad_assertion = none

  abbrev pub prepend : Option VmInfo → Option (List VmInfo) → Option (List VmInfo)
  prepend (some vm) (some vms) = some (vm ∷ vms)
  prepend _ _ = none

  abbrev pub typed_entry :
      Fields → Fields → Option String → Option (List VmInfo) → Option (List VmInfo)
  typed_entry price attrs none rest = rest
  typed_entry price attrs (some instance_type) rest =
      prepend (priced_entry attrs instance_type (get_on_demand_price price)) rest

  -- The loop of `GetVirtualMachines` over the price list; `none` is a panic.
  unfoldable pub price_list_vms : List Fields → Option (List VmInfo)
  unfolding new_price_data get_data_for_key get_on_demand_price entry_vm
  price_list_vms [] = some []
  price_list_vms (price ∷ prices) =
      let rest = price_list_vms prices in
      elim (new_price_data price) [
        | none ↦ rest
        | some attrs ↦ typed_entry price attrs (get_data_for_key attrs "instanceType") rest
      ]
