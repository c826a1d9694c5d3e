-- ===== src/InstanceType.antt =====
-- internal/cloudinfo/instance_type.go: the query of instance types and its filters. The context of
-- a call and the wrapping of errors with a stack trace are not modelled.
pub mod Categories
pub mod Laws
pub mod Rows
mod Tests
use cloudinfo.Prelude.{
  ℕ, String, Bool, true, false, not, ◌&&◌, ◌||◌, List, [], ◌∷◌, ◌++◌, Option, none, some, any,
  length, ◌==◌, str_eq, if◌then◌else◌,
}
use cloudinfo.Prelude.Text.{to_upper, to_lower}
use cloudinfo.Prelude.Maps.{lookup}
use cloudinfo.Prelude.Float.{Float64, float_eq, float_zero}
use cloudinfo.Prelude.Result.{Result, ok, err, ◌>>=◌, map_err}
use cloudinfo.Types.{ZonePrice, ProductDetails}
use cloudinfo.Query.{FloatFilter, apply_float_filter, fails, is_set, entries, float_compared}
use Categories.{instance_type_category_map, instance_type_category_reverse_map, value_at}

pub record InstanceType : Type 0 where
  pub name : String
  pub region : String
  pub zone : String
  pub price : Float64
  pub spot_price : Float64
  pub cpu : Float64
  pub memory : Float64
  pub gpu : Float64
  pub network_category : String
  pub category : String

-- `NetworkCategoryFilter` and `InstanceTypeCategoryFilter`
pub record CategoryFilter : Type 0 where
  pub eq : Option String
  pub ne : Option String
  pub in_list : Option (List String)
  pub nin_list : Option (List String)

pub record InstanceTypeQueryFilter : Type 0 where
  pub price : Option FloatFilter
  pub spot_price : Option FloatFilter
  pub spot : Option Bool
  pub cpu : Option FloatFilter
  pub memory : Option FloatFilter
  pub gpu : Option FloatFilter
  pub network_category : Option CategoryFilter
  pub category : Option CategoryFilter

pub record InstanceTypeQuery : Type 0 where
  pub region : Option String
  pub zone : Option String
  pub filter : Option InstanceTypeQueryFilter

-- What the query reads, with the error's text.
pub record InstanceTypeStore : Type 0 where
  pub get_product_details : (provider service region : String) → Result String (List ProductDetails)
  pub get_zones : (provider service region : String) → Result String (List String)

pub data QueryError : Type 0 where
  validation : String → QueryError
  no_product_details no_zones : String → QueryError

-- `IsBusinessError`, which only the validation error has.
abbrev pub is_business_error : QueryError → Bool
is_business_error (validation message) = true
is_business_error _ = false

-- `applyNetworkCategoryFilter`
unfoldable pub apply_network_category_filter : String → CategoryFilter → Bool
apply_network_category_filter value filter =
    if fails filter.eq (λ v. str_eq value (to_lower v))
    then false
    else if fails filter.ne (λ v. not (str_eq value (to_lower v)))
    then false
    else if fails filter.in_list (λ vs. any (λ v. str_eq value (to_lower v)) vs)
    then false
    else if is_set filter.nin_list && any (λ v. str_eq value (to_lower v)) (entries filter.in_list)
    then false
    else true

-- `applyInstanceTypeCategoryFilter`
unfoldable pub apply_instance_type_category_filter : String → CategoryFilter → Bool
apply_instance_type_category_filter value filter =
    if fails filter.eq (λ v. str_eq value (value_at v instance_type_category_map))
    then false
    else if fails filter.ne (λ v. not (str_eq value (value_at v instance_type_category_map)))
    then false
    else if fails filter.in_list
        (λ vs. any (λ v. str_eq value (value_at v instance_type_category_map)) vs)
    then false
    else if is_set filter.nin_list
        && any (λ v. str_eq value (value_at v instance_type_category_map)) (entries filter.in_list)
    then false
    else true

-- The loop over `SpotPrice`: the price of the first entry for the zone, 0 where there is none.
unfoldable pub spot_price_in : String → List ZonePrice → Float64
spot_price_in zone [] = float_zero
spot_price_in zone (zp ∷ zps) = if str_eq zp.zone zone then zp.price else spot_price_in zone zps

-- `(*filter.Spot && spotPrice == 0.0) || (!*filter.Spot && spotPrice != 0.0)`, negated.
abbrev pub spot_matches : Float64 → Bool → Bool
spot_matches spot_price spot =
    not (
      (spot && float_eq spot_price float_zero)
      || (not spot && not (float_eq spot_price float_zero)))

-- The block `if filter.SpotPrice != nil || filter.Spot != nil`, and the end of the function.
apply_spot_filter : Float64 → InstanceTypeQueryFilter → Bool
apply_spot_filter spot_price filter =
    if fails filter.spot (spot_matches spot_price)
    then false
    else if fails filter.spot_price (λ f. apply_float_filter spot_price f)
    then false
    else true

unfoldable pub apply_instance_type_filter : ProductDetails → String → InstanceTypeQueryFilter → Bool
unfolding apply_spot_filter
apply_instance_type_filter product zone filter =
    if fails filter.price (λ f. apply_float_filter product.on_demand_price f)
    then false
    else if fails filter.cpu (λ f. apply_float_filter product.cpus f)
    then false
    else if fails filter.memory (λ f. apply_float_filter product.mem f)
    then false
    else if fails filter.gpu (λ f. apply_float_filter product.gpus f)
    then false
    else if fails filter.network_category
        (λ f. apply_network_category_filter product.ntw_perf_cat f)
    then false
    else if fails filter.category (λ f. apply_instance_type_category_filter product.category f)
    then false
    else if is_set filter.spot_price || is_set filter.spot
    then apply_spot_filter (spot_price_in zone product.spot_price) filter
    else true

unfoldable pub transform : ProductDetails → String → String → InstanceType
transform details region zone = record {
  name = details.type;
  region = region;
  zone = zone;
  price = details.on_demand_price;
  spot_price = spot_price_in zone details.spot_price;
  cpu = details.cpus;
  memory = details.mem;
  gpu = details.gpus;
  network_category = to_upper details.ntw_perf_cat;
  category = value_at details.category instance_type_category_reverse_map;
}

-- `query.Filter != nil && !applyInstanceTypeFilter(product, zone, *query.Filter)`, negated.
abbrev pub is_selected : Option InstanceTypeQueryFilter → ProductDetails → String → Bool
is_selected filter product zone =
    not (fails filter (λ f. apply_instance_type_filter product zone f))

-- The loop over the zones of one product, which appends to `instanceTypes`.
unfoldable pub append_zones :
    Option InstanceTypeQueryFilter
    → ProductDetails
    → String
    → List String
    → List InstanceType
    → List InstanceType
append_zones filter product region [] found = found
append_zones filter product region (zone ∷ zones) found = append_zones filter product region zones (
    if is_selected filter product zone
    then found ++ (transform product region zone ∷ [])
    else found)

-- `if len(zones) == 0 { zones = []string{""} }`
abbrev pub at_least_one : List String → List String
at_least_one [] = "" ∷ []
at_least_one (zone ∷ zones) = zone ∷ zones

abbrev pub or_read : List String → Result QueryError (List String) → Result QueryError (List String)
or_read [] zones_in_region = zones_in_region
or_read (zone ∷ zones) zones_in_region = ok (zone ∷ zones)

-- `query.Region == nil || *query.Region == ""`
abbrev pub region_is_missing : Option String → Bool
region_is_missing none = true
region_is_missing (some region) = str_eq region ""

region_of : Option String → String
region_of none = ""
region_of (some region) = region

module _ (store : InstanceTypeStore) (provider service : String) where
  -- The zones of a product, those of the region where it names none, and then one empty zone.
  unfoldable pub zones_of : String → ProductDetails → Result QueryError (List String)
  zones_of region product = do
    zones ← or_read product.zones (map_err no_zones (store.get_zones provider service region))
    ok (at_least_one zones)

  -- The loop over the products.
  unfoldable pub collect :
      Option InstanceTypeQueryFilter
      → String
      → List ProductDetails
      → List InstanceType
      → Result QueryError (List InstanceType)
  unfolding zones_of
  collect filter region [] found = ok found
  collect filter region (product ∷ products) found = do
    zones ← zones_of region product
    collect filter region products (append_zones filter product region zones found)

  query_region : Option InstanceTypeQueryFilter → String → Result QueryError (List InstanceType)
  unfolding collect
  query_region filter region = do
    products ← map_err no_product_details (store.get_product_details provider service region)
    collect filter region products []

  -- `InstanceTypeService.Query`
  unfoldable pub query : InstanceTypeQuery → Result QueryError (List InstanceType)
  unfolding query_region region_of
  query q =
      if str_eq provider ""
      then err (validation "provider field must not be empty")
      else if str_eq service ""
      then err (validation "service field must not be empty")
      else if region_is_missing q.region
      then err (validation "region field must not be empty")
      else query_region q.filter (region_of q.region)
