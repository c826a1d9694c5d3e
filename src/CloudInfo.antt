-- ===== src/CloudInfo.antt =====
-- internal/cloudinfo/cloudinfo.go: what the API and the services read, over the interface of the
-- store. Logging is not modelled; the details that are attached to an error are left out.
pub mod Continents
pub mod Laws
pub mod Providers
mod Tests
use cloudinfo.Prelude.{
  ℕ, String, Bool, true, false, ◌||◌, List, [], ◌∷◌, ◌++◌, Option, none, some, any, map, str_eq,
  if◌then◌else◌,
}
use cloudinfo.Prelude.Text.{concat}
use cloudinfo.Prelude.Maps.{insert}
use cloudinfo.Prelude.Float.{Float64}
use cloudinfo.Prelude.Result.{Result, ok, err, ◌>>=◌, map_err}
use cloudinfo.Types.{
  VmInfo, ZonePrice, Price, ProductDetails, Provider, Service, Image, LocationVersion, Region,
  new_product_details, new_zone_price, new_provider, empty_price,
}
use cloudinfo.Store.Interface.{
  CloudInfoStore, get_regions, get_zones, get_price, get_vm, get_image, get_version, get_status,
  get_services,
}
use Continents.{continents_of}

pub data InfoError : Type 0 where
  unsupported_provider zones_not_cached regions_not_cached services_not_cached vms_not_cached
        status_not_cached images_not_cached versions_not_cached :
      InfoError
  failed_to_get_services : InfoError → InfoError

-- `if cachedVal, ok := …; ok { return cachedVal, nil }`, and the error otherwise.
abbrev pub or_error : {A : Type 0} → Option A → InfoError → Result InfoError A
or_error none e = err e
or_error (some v) e = ok v

-- `Contains`
unfoldable pub contains_text : List String → String → Bool
contains_text slice s = any (λ e. str_eq e s) slice

-- `CreateString`
unfoldable pub create_string : List String → String
unfolding concat
create_string [] = ""
create_string (key ∷ keys) = concat key (create_string keys)

-- `Attributes`, a map with four keys.
unfoldable pub attributes : String → String → String → String → List (String × String)
unfolding insert
attributes cpu memory ntw_perf_cat vm_category =
    insert "instanceTypeCategory" vm_category
      (insert "networkPerfCategory" ntw_perf_cat (insert "memory" memory (insert "cpu" cpu [])))

-- The loop that appends the zone prices of a price to those of the virtual machine.
unfoldable pub append_spot_prices : List ZonePrice → List (String × Float64) → List ZonePrice
append_spot_prices prices [] = prices
append_spot_prices prices ((zone, price) ∷ rest) =
    append_spot_prices (prices ++ (new_zone_price zone price ∷ [])) rest

-- `cachedVal, ok := GetPrice(…)`, where a missing price is `Price{}`.
abbrev pub price_or_empty : Option Price → Price
price_or_empty none = empty_price
price_or_empty (some price) = price

-- One round of the loop in `GetProductDetails`. The zone prices are appended to the embedded
-- `VMInfo`.
unfoldable pub details_of : VmInfo → Price → ProductDetails
unfolding append_spot_prices
details_of vm price =
    let pd = new_product_details vm in
    record pd {
      vm_info = record vm { spot_price = append_spot_prices vm.spot_price price.spot_price };
    }

-- `cloudInfo`: the enabled providers and the store.
module _ (st : CloudInfoStore) (providers : List String) (store : st.State) where
  pub get_services_of : String → Result InfoError (List Service)
  get_services_of provider = or_error (get_services st store provider) services_not_cached

  -- `providerEnabled`
  pub provider_enabled : String → Bool
  provider_enabled provider = any (λ p. str_eq p provider) providers

  -- `GetProvider` behind its test.
  provider_with_services : String → Result InfoError Provider
  unfolding get_services_of
  provider_with_services provider = do
    srvcs ← map_err failed_to_get_services (get_services_of provider)
    ok (record (new_provider provider) { services = srvcs })

  pub get_provider : String → Result InfoError Provider
  unfolding provider_enabled provider_with_services
  get_provider provider =
      if provider_enabled provider
      then provider_with_services provider
      else err unsupported_provider

  -- The loop of `GetProviders`.
  pub collect_providers : List String → List Provider → Result InfoError (List Provider)
  unfolding get_provider
  collect_providers [] found = ok found
  collect_providers (pn ∷ names) found = do
    provider ← get_provider pn
    collect_providers names (found ++ (provider ∷ []))

  pub get_providers : Result InfoError (List Provider)
  unfolding collect_providers
  get_providers = collect_providers providers []

  pub get_zones_of : String → String → String → Result InfoError (List String)
  get_zones_of provider service region =
      or_error (get_zones st store provider service region) zones_not_cached

  unfoldable pub get_regions_of : String → String → Result InfoError (List (String × String))
  get_regions_of provider service =
      or_error (get_regions st store provider service) regions_not_cached

  pub get_status_of : String → Result InfoError String
  get_status_of provider = or_error (get_status st store provider) status_not_cached

  pub get_service_images : String → String → String → Result InfoError (List Image)
  get_service_images provider service region =
      or_error (get_image st store provider service region) images_not_cached

  pub get_versions : String → String → String → Result InfoError (List LocationVersion)
  get_versions provider service region =
      or_error (get_version st store provider service region) versions_not_cached

  -- The loop of `GetProductDetails`.
  details : String → String → List VmInfo → List ProductDetails
  unfolding details_of
  details provider region [] = []
  details provider region (vm ∷ vms) =
      details_of vm (price_or_empty (get_price st store provider region vm.type))
      ∷ details provider region vms

  pub get_product_details : String → String → String → Result InfoError (List ProductDetails)
  unfolding details
  get_product_details provider service region = do
    vms ← or_error (get_vm st store provider service region) vms_not_cached
    ok (details provider region vms)

  pub get_continents_data : String → String → Result InfoError (List (String × List Region))
  unfolding continents_of
  get_continents_data provider service = do
    regions ← or_error (get_regions st store provider service) regions_not_cached
    ok (continents_of regions)
