-- ===== src/Providers/Google/Client.antt =====
-- The methods of `GceInfoer` in internal/cloudinfo/providers/google/cloudinfo.go. The packages of
-- Google are a parameter: what each of their calls answers. The order of a list that stands for a
-- map is the one in which the map is visited.
use cloudinfo.Prelude.{
  ◌≡◌, String, Bool, false, not, ◌&&◌, ◌||◌, List, [], ◌∷◌, Option, none, some, any, str_eq,
  if◌then◌else◌,
}
use cloudinfo.Prelude.Text.{split_slash}
use cloudinfo.Prelude.Maps.{lookup, insert}
use cloudinfo.Prelude.Float.{Float64}
use cloudinfo.Prelude.Result.{Result, ok, err, ◌>>=◌, ok-injective}
use cloudinfo.Types.{VmInfo, Price, Image, ProductDetails, LocationVersion, new_location_version}
use cloudinfo.Providers.Google.Machines.{MachineType, machines_from, values_of}
use cloudinfo.Providers.Google.Prices.{
  FloatOps, DevicePrices, Sku, price_skus, price_listed_regions,
}

-- The entries of the pages of a list, and the error that ended it before its last page.
pub record Pages (A : Type 0) : Type 0 where
  pub items : List A
  pub failed : Option String

-- `compute.Zone`
pub record GceZone : Type 0 where
  pub zone_name : String
  pub zone_region : String

-- `container.ServerConfig`
pub record ServerConfig : Type 0 where
  pub valid_master_versions : List String
  pub valid_node_versions : List String
  pub default_cluster_version : String

-- The calls of the clients of Google: the regions, the zones, the types of a zone, the display names
-- and names of the billed services, the SKUs of one, and the configuration of a zone's clusters.
pub record GoogleClients : Type 0 where
  pub list_regions : Result String (List String)
  pub list_zones : Pages GceZone
  pub list_machine_types : String → Pages MachineType
  pub list_services : Result String (List (String × String))
  pub list_skus : String → Pages Sku
  pub get_serverconfig : String → Result String ServerConfig

-- The result of `Pages` with a callback that gives no error.
abbrev pub finished : {A : Type 0} → Option String → A → Result String A
finished none result = ok result
finished (some e) result = err e

pub finished-ok :
    {A : Type 0} → (failed : Option String) (x y : A) → finished failed x ≡ ok y → x ≡ y
finished-ok none x y e = ok-injective e
finished-ok (some f) x y e = cc

-- `regionNames`
abbrev pub region_names : List (String × String)
region_names =
    ("asia-east1", "Asia Pacific (Taiwan)")
    ∷ ("asia-east2", "Asia Pacific (Hong Kong)")
    ∷ ("asia-northeast1", "Asia Pacific (Tokyo)")
    ∷ ("asia-south1", "Asia Pacific (Mumbai)")
    ∷ ("asia-southeast1", "Asia Pacific (Singapore)")
    ∷ ("australia-southeast1", "Asia Pacific (Sydney)")
    ∷ ("europe-north1", "EU (Finland)")
    ∷ ("europe-west1", "EU (Belgium)")
    ∷ ("europe-west2", "EU (London)")
    ∷ ("europe-west3", "EU (Frankfurt)")
    ∷ ("europe-west4", "EU (Netherlands)")
    ∷ ("northamerica-northeast1", "Canada (Montréal)")
    ∷ ("southamerica-east1", "South America (São Paulo)")
    ∷ ("us-central1", "US Central (Iowa)")
    ∷ ("us-east1", "US East (South Carolina)")
    ∷ ("us-east4", "US East (Northern Virginia)")
    ∷ ("us-west1", "US West (Oregon)")
    ∷ ("us-west2", "US West (Los Angeles)")
    ∷ []

unfoldable pub with_display_name :
    Option String → String → List (String × String) → List (String × String)
unfolding insert
with_display_name none region region_id_map = region_id_map
with_display_name (some display_name) region region_id_map =
    insert region display_name region_id_map

-- The loop of `GetRegions`.
unfoldable pub named_regions : List String → List (String × String) → List (String × String)
unfolding lookup with_display_name
named_regions [] region_id_map = region_id_map
named_regions (region ∷ regions) region_id_map =
    named_regions regions (with_display_name (lookup region region_names) region region_id_map)

abbrev pub final_part : String → List String → String
final_part s [] = s
final_part s (part ∷ parts) = final_part part parts

-- The loop of `GetZones`.
unfoldable pub zones_of_region : String → List GceZone → List String
unfolding split_slash
zones_of_region region [] = []
zones_of_region region (z ∷ zone_list) =
    let rest = zones_of_region region zone_list in
    if str_eq (final_part "" (split_slash z.zone_region)) region && not (str_eq z.zone_name "")
    then z.zone_name ∷ rest
    else rest

-- The last service that is called "Compute Engine".
unfoldable pub compute_engine_id : List (String × String) → String → String
compute_engine_id [] comp_eng_id = comp_eng_id
compute_engine_id ((display_name, name) ∷ services) comp_eng_id =
    compute_engine_id services (if str_eq display_name "Compute Engine" then name else comp_eng_id)

-- The master versions that are also versions of the nodes.
unfoldable pub common_versions : List String → List String → List String
common_versions [] node_versions = []
common_versions (master_version ∷ master_versions) node_versions =
    let rest = common_versions master_versions node_versions in
    if any (λ node_version. str_eq master_version node_version) node_versions
    then master_version ∷ rest
    else rest

module _ (clients : GoogleClients) where
  -- `GetRegions`
  unfoldable pub get_regions : String → Result String (List (String × String))
  unfolding named_regions
  get_regions service = clients.list_regions >>= λ regions. ok (named_regions regions [])

  -- `GetZones`
  unfoldable pub get_zones : String → Result String (List String)
  unfolding zones_of_region
  get_zones region =
      finished clients.list_zones.failed (zones_of_region region clients.list_zones.items)

  -- The loop of `GetVersions` over the zones.
  unfoldable pub zone_versions : List String → Result String (List LocationVersion)
  unfolding common_versions
  zone_versions [] = ok []
  zone_versions (zone ∷ zones) = do
    server_conf ← clients.get_serverconfig zone
    rest ← zone_versions zones
    ok (
        new_location_version zone
          (common_versions server_conf.valid_master_versions server_conf.valid_node_versions)
          server_conf.default_cluster_version
        ∷ rest)

  -- `GetVersions`
  unfoldable pub get_versions : String → String → Result String (List LocationVersion)
  unfolding get_zones zone_versions
  get_versions service region =
      let gke = get_zones region >>= zone_versions in if str_eq service "gke" then gke else ok []

module _ (ops : FloatOps) (clients : GoogleClients) where
  -- `getPrice`
  unfoldable pub get_price : Result String (List (String × DevicePrices))
  unfolding compute_engine_id price_skus
  get_price = do
    services ← clients.list_services
    price ← price_skus ops (clients.list_skus (compute_engine_id services "")).items []
    finished (clients.list_skus (compute_engine_id services "")).failed price

  -- A round of the loop of `Initialize` over the regions, after the zones: the zones that are known
  -- from then on, and the prices. `none` is the panic of `zones[0]`.
  unfoldable pub visit_zones :
      List (String × DevicePrices)
      → String
      → List (String × List String)
      → List (String × List (String × Price))
      → Result String (List String)
      → Option
          (Result String ((List (String × List String)) × (List (String × List (String × Price)))))
  unfolding insert price_listed_regions
  visit_zones price_per_region r zones_in_regions all_prices (err e) = some (err e)
  visit_zones price_per_region r zones_in_regions all_prices (ok []) = none
  visit_zones price_per_region r zones_in_regions all_prices (ok (zone ∷ zones)) =
      let mts = clients.list_machine_types zone in
      let zones_now = insert r (zone ∷ zones) zones_in_regions in
      some (
        finished mts.failed
          (zones_now, price_listed_regions ops price_per_region zones_now mts.items all_prices))

  -- The loop of `Initialize` over the regions.
  unfoldable pub initialize_regions :
      List (String × DevicePrices)
      → List (String × String)
      → List (String × List String)
      → List (String × List (String × Price))
      → Option (Result String (List (String × List (String × Price))))
  unfolding get_zones visit_zones
  initialize_regions price_per_region [] zones_in_regions all_prices = some (ok all_prices)
  initialize_regions price_per_region ((r, display_name) ∷ regions) zones_in_regions all_prices =
      elim (visit_zones price_per_region r zones_in_regions all_prices (get_zones clients r)) [
        | none ↦ none
        | some (err e) ↦ some (err e)
        | some (ok (zones_now, prices)) ↦
            initialize_regions price_per_region regions zones_now prices
      ]

  abbrev pub initialize_with :
      Result String (List (String × String))
      → Result String (List (String × DevicePrices))
      → Option (Result String (List (String × List (String × Price))))
  initialize_with (err e) price_per_region = some (err e)
  initialize_with (ok regions) (err e) = some (err e)
  initialize_with (ok regions) (ok price_per_region) =
      initialize_regions price_per_region regions [] []

  -- `Initialize`
  unfoldable pub initialize : Option (Result String (List (String × List (String × Price))))
  unfolding get_regions get_price initialize_regions
  initialize = initialize_with (get_regions clients "compute") get_price

module _ (sprint_float : Float64 → String) (ntw_perf_visited : List (String × List String))
    (clients : GoogleClients) where
  -- `GetVirtualMachines`, after the zones; `none` is the panic of `zones[0]`.
  unfoldable pub machines_in : Result String (List String) → Option (Result String (List VmInfo))
  unfolding machines_from values_of
  machines_in (err e) = some (err e)
  machines_in (ok []) = none
  machines_in (ok (zone ∷ zones)) =
      let mts = clients.list_machine_types zone in
      some (
        finished mts.failed
          (values_of (machines_from sprint_float ntw_perf_visited (zone ∷ zones) mts.items [])))

  -- `GetVirtualMachines`
  unfoldable pub get_virtual_machines : String → Option (Result String (List VmInfo))
  unfolding get_zones machines_in
  get_virtual_machines region = machines_in (get_zones clients region)

  abbrev pub service_products : String → Result String (List VmInfo) → Result String (List VmInfo)
  service_products service vm_list = vm_list >>= λ vms.
      if str_eq service "gke" || str_eq service "compute" then ok vms else err "invalid service"

  abbrev pub products_of :
      String → Option (Result String (List VmInfo)) → Option (Result String (List VmInfo))
  products_of service none = none
  products_of service (some vm_list) = some (service_products service vm_list)

  -- `GetProducts`
  unfoldable pub get_products : List VmInfo → String → String → Option (Result String (List VmInfo))
  unfolding get_virtual_machines
  get_products [] service region_id = products_of service (get_virtual_machines region_id)
  get_products (vm ∷ vms) service region_id = some (service_products service (ok (vm ∷ vms)))

-- The methods that Google does not support.
abbrev pub has_short_lived_price_info : Bool
has_short_lived_price_info = false

abbrev pub get_current_prices : String → Result String (List (String × Price))
get_current_prices region = err "google prices cannot be queried on the fly"

abbrev pub has_images : Bool
has_images = false

abbrev pub get_service_images : String → String → Result String (List Image)
get_service_images service region = err "GetServiceImages - not yet implemented"

abbrev pub get_service_products : String → String → Result String (List ProductDetails)
get_service_products region service = err "GetServiceProducts - not yet implemented"
