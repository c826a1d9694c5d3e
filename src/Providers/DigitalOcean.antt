-- ===== src/Providers/DigitalOcean.antt =====
-- internal/cloudinfo/providers/digitalocean/cloudinfo.go, over the package `godo`, whose client is a
-- parameter. Sizes are natural numbers; the text that wraps an error is left out.
pub mod Pages
pub mod Machines
pub mod Scraped
mod Tests
use cloudinfo.Prelude.{
  ℕ, zero, suc, ◌+◌, String, Bool, true, false, not, ◌||◌, List, [], ◌∷◌, ◌++◌, Option, none, some,
  any, map, str_eq, if◌then◌else◌,
}
use cloudinfo.Prelude.Text.{has_prefix}
use cloudinfo.Prelude.Maps.{lookup, insert}
use cloudinfo.Prelude.Float.{Float64, float_zero}
use cloudinfo.Prelude.FloatOfInt.{float_of_int, float_kibi, sprint_int}
use cloudinfo.Prelude.Result.{Result, ok, err, ◌>>=◌}
use cloudinfo.Types.{VmInfo, Price, Image, LocationVersion, new_location_version, empty_vm}
use cloudinfo.InstanceType.Categories.{ntw_low, category_general, category_compute}
use cloudinfo.CloudInfo.{attributes}
use cloudinfo.Providers.Prices.{set_price}
use cloudinfo.Scrape.{CloudInfoer}

-- `godo.Size`
pub record Size : Type 0 where
  pub slug : String
  pub memory : ℕ
  pub vcpus : ℕ
  pub price_hourly : Float64
  pub regions : List String
  pub available : Bool

-- `resp.Links`: nil, the last page, or a page with what `CurrentPage` answers.
pub data Links : Type 0 where
  nil_links last_page : Links
  page_of : Result String ℕ → Links

pub record SizesPage : Type 0 where
  pub sizes : List Size
  pub links : Links

pub record DoRegion : Type 0 where
  pub region_slug : String
  pub region_name : String
  pub is_available : Bool

pub record KubernetesOptions : Type 0 where
  pub size_slugs : List String
  pub region_slugs : List (String × String)
  pub version_slugs : List String

-- The calls of the client: a page of the sizes, where page 0 asks for the first; the options of
-- Kubernetes; and the regions.
pub record Client : Type 0 where
  pub list_sizes : ℕ → Result String SizesPage
  pub get_options : Result String KubernetesOptions
  pub list_regions : Result String (List DoRegion)

-- `contains`
abbrev pub contains : String → List String → Bool
contains s ss = any (λ v. str_eq s v) ss

-- `getCategory`
unfoldable pub get_category : String → String
unfolding has_prefix
get_category name =
    if has_prefix name "s-"
    then category_general
    else (if has_prefix name "c-" then category_compute else category_general)

module _ (client : Client) where
  -- The loop of `getSizes` from a page on; `none` is a loop that has not ended after `fuel` rounds.
  unfoldable pub get_sizes_from : ℕ → ℕ → List Size → Option (Result String (List Size))
  get_sizes_from zero page size_list = none
  get_sizes_from (suc fuel) page size_list = elim (client.list_sizes page) [
    | err e ↦ some (err e)
    | ok answer ↦ elim answer.links [
      | nil_links ↦ some (ok (size_list ++ answer.sizes))
      | last_page ↦ some (ok (size_list ++ answer.sizes))
      | page_of (err e) ↦ some (err e)
      | page_of (ok current) ↦ get_sizes_from fuel (current + 1) (size_list ++ answer.sizes)
    ]
  ]

  -- `getSizes`
  unfoldable pub get_sizes : ℕ → Option (Result String (List Size))
  unfolding get_sizes_from
  get_sizes fuel = get_sizes_from fuel 0 []

abbrev pub hourly : Size → Price
hourly size = record { on_demand_price = size.price_hourly; spot_price = [] }

-- The loops of `Initialize`, over the regions of a size and over the sizes.
unfoldable pub price_regions :
    Size
    → List String
    → List (String × List (String × Price))
    → List (String × List (String × Price))
unfolding set_price
price_regions size [] all_prices = all_prices
price_regions size (r ∷ regions) all_prices =
    price_regions size regions (set_price r size.slug (hourly size) all_prices)

unfoldable pub price_sizes :
    List Size → List (String × List (String × Price)) → List (String × List (String × Price))
unfolding price_regions
price_sizes [] all_prices = all_prices
price_sizes (size ∷ sizes) all_prices =
    if not size.available
    then price_sizes sizes all_prices
    else price_sizes sizes (price_regions size size.regions all_prices)

-- The machine that a size gives.
unfoldable pub to_vm : Size → VmInfo
unfolding get_category float_of_int float_kibi sprint_int attributes
to_vm size = record empty_vm {
  category = get_category size.slug;
  type = size.slug;
  on_demand_price = size.price_hourly;
  mem = float_kibi size.memory;
  cpus = float_of_int size.vcpus;
  ntw_perf = "300 Mbit/s";
  ntw_perf_cat = ntw_low;
  attributes =
      attributes (sprint_int size.vcpus) (sprint_int size.memory) ntw_low (get_category size.slug);
}

unfoldable pub machines_of_sizes : String → List Size → List VmInfo
unfolding to_vm
machines_of_sizes region [] = []
machines_of_sizes region (size ∷ sizes) =
    let rest = machines_of_sizes region sizes in
    if not size.available || not (contains region size.regions) then rest else to_vm size ∷ rest

-- The filter of `GetProducts`.
unfoldable pub offered : List String → List VmInfo → List VmInfo
offered sizes [] = []
offered sizes (vm ∷ vms) =
    let rest = offered sizes vms in if not (contains vm.type sizes) then rest else vm ∷ rest

unfoldable pub available_regions : List DoRegion → List (String × String) → List (String × String)
unfolding insert
available_regions [] region_map = region_map
available_regions (region ∷ regions) region_map =
    if not region.is_available
    then available_regions regions region_map
    else available_regions regions (insert region.region_slug region.region_name region_map)

unfoldable pub all_regions :
    List (String × String) → List (String × String) → List (String × String)
unfolding insert
all_regions [] region_map = region_map
all_regions ((slug, name) ∷ regions) region_map = all_regions regions (insert slug name region_map)

abbrev pub first_slug : List String → String
first_slug [] = ""
first_slug (slug ∷ slugs) = slug

module _ (client : Client) where
  -- `Initialize`
  unfoldable pub initialize : ℕ → Option (Result String (List (String × List (String × Price))))
  unfolding get_sizes price_sizes
  initialize fuel = elim (get_sizes client fuel) [
    | none ↦ none
    | some (err e) ↦ some (err e)
    | some (ok sizes) ↦ some (ok (price_sizes sizes []))
  ]

  -- `GetVirtualMachines`
  unfoldable pub get_virtual_machines : ℕ → String → Option (Result String (List VmInfo))
  unfolding get_sizes machines_of_sizes
  get_virtual_machines fuel region = elim (get_sizes client fuel) [
    | none ↦ none
    | some (err e) ↦ some (err e)
    | some (ok sizes) ↦ some (ok (machines_of_sizes region sizes))
  ]

  -- `GetProducts`
  unfoldable pub get_products : List VmInfo → String → String → Result String (List VmInfo)
  unfolding offered
  get_products vms service region_id =
      let dok = client.get_options >>= λ options. ok (offered options.size_slugs vms) in
      if str_eq service "dok" then dok else err "unknown service"

  -- `GetZones`
  abbrev pub get_zones : String → Result String (List String)
  get_zones region = ok []

  -- `GetRegions`
  unfoldable pub get_regions : String → Result String (List (String × String))
  unfolding available_regions all_regions
  get_regions service =
      let compute = client.list_regions >>= λ regions. ok (available_regions regions []) in
      let dok = client.get_options >>= λ options. ok (all_regions options.region_slugs []) in
      if str_eq service "compute"
      then compute
      else (if str_eq service "dok" then dok else err "unknown service")

  -- `GetVersions`
  unfoldable pub get_versions : String → String → Result String (List LocationVersion)
  get_versions service region =
      let dok = client.get_options >>= λ options.
      ok (
        new_location_version region options.version_slugs (first_slug options.version_slugs)
        ∷ []) in
      if str_eq service "dok" then dok else ok []

  -- The client as the scraping sees it, where `prices` is the answer of `Initialize`.
  unfoldable pub digitalocean_infoer :
      Result String (List (String × List (String × Price))) → CloudInfoer
  unfolding get_products get_regions get_versions
  digitalocean_infoer prices = record {
    initialize = prices;
    get_products = get_products;
    get_zones = get_zones;
    get_regions = get_regions;
    get_current_prices = λ region. err "GetCurrentPrices - not yet implemented";
    has_short_lived_price_info = false;
    has_images = false;
    get_service_images = λ service region. err "GetServiceImages - not yet implemented";
    get_versions = get_versions;
  }
