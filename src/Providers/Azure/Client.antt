-- ===== src/Providers/Azure/Client.antt =====
-- The methods of `AzureInfoer` in internal/cloudinfo/providers/azure/cloudinfo.go, and
-- category_mapper.go. The packages of Azure are a parameter: what each of their calls answers. No
-- field that the source dereferences is nil.
use cloudinfo.Prelude.{
  String, Bool, false, ◌&&◌, List, [], ◌∷◌, ◌++◌, Option, some, none, map, str_eq, if◌then◌else◌,
}
use cloudinfo.Prelude.Text.{to_lower}
use cloudinfo.Prelude.Strings.{trim_left, trim_right}
use cloudinfo.Prelude.Maps.{lookup, insert}
use cloudinfo.Prelude.Float.{Float64, float_zero}
use cloudinfo.Prelude.Result.{Result, ok, err, ◌>>=◌}
use cloudinfo.Types.{VmInfo, LocationVersion, new_location_version, empty_vm}
use cloudinfo.InstanceType.Categories.{
  ntw_low, category_general, category_compute, category_memory, category_storage, category_gpu,
}
use cloudinfo.CloudInfo.{attributes}
use cloudinfo.Providers.Groups.{group_of}

-- `categoryMap`
abbrev pub category_map : List (String × List String)
category_map =
    (
      category_general,
      "Dv2" ∷ "Av2" ∷ "Dv3" ∷ "DSv2" ∷ "DSv3" ∷ "BS" ∷ "DS" ∷ "D" ∷ "A0_A7" ∷ "A" ∷ "A8_A11" ∷ "DCS"
          ∷ [],
    )
    ∷ (category_compute, "H" ∷ "FSv2" ∷ "FS" ∷ "" ∷ "HCS" ∷ "HBS" ∷ [])
    ∷ (category_memory, "Ev3" ∷ "ESv3" ∷ "MS" ∷ "G" ∷ "GS" ∷ "EIv3" ∷ "EISv3" ∷ "PBS" ∷ "MSv2" ∷ [])
    ∷ (category_storage, "LS" ∷ "LSv2" ∷ [])
    ∷ (category_gpu, "NC" ∷ "NV" ∷ "NCSv3" ∷ "NCSv2" ∷ "NDS" ∷ "NVSv2" ∷ "NVSv3" ∷ [])
    ∷ []

-- The family as `mapCategory` strips it: each cut is of all characters of a set.
unfoldable pub family_of : String → String
unfolding trim_left trim_right
family_of name =
    trim_left (trim_right (trim_left (trim_right name "Family") "standard") "Promo") "basic"

-- `mapCategory`, where the map is visited as `visited`; `none` is the error.
unfoldable pub map_category : List (String × List String) → String → Option String
unfolding group_of family_of
map_category visited name = group_of visited (family_of name)

pub record LocationInfo : Type 0 where
  pub location : String
  pub location_zones : List String

pub record Sku : Type 0 where
  pub name : String
  pub resource_type : String
  pub family : String
  pub location_info : List LocationInfo
  pub capabilities : List (String × String)

pub record ResourceType : Type 0 where
  pub resource : String
  pub locations : List String

-- A version and whether it is the default one; the field `Default` is not nil then.
pub record Orchestrator : Type 0 where
  pub orchestrator_type : Option String
  pub orchestrator_version : String
  pub has_default : Bool

-- The calls of the clients of Azure.
pub record AzureClients : Type 0 where
  pub list_locations : Result String (List (String × String))
  pub get_provider : String → Result String (List ResourceType)
  pub list_skus : Result String (List Sku)
  pub list_orchestrators : String → Result String (List Orchestrator)
  pub possible_vm_sizes : List String

-- `strconv.ParseFloat`, the value that it returns with or without an error, and `fmt.Sprint` of a
-- float.
pub record FloatTexts : Type 0 where
  pub parse_float : String → Float64
  pub sprint_float : Float64 → String

module _ (texts : FloatTexts) where
  -- The loop over the capabilities: memory and CPUs.
  unfoldable pub read_capabilities : List (String × String) → Float64 × Float64 → Float64 × Float64
  read_capabilities [] sizes = sizes
  read_capabilities ((name, value) ∷ rest) (memory, cpu) =
      if str_eq name "MemoryGB"
      then read_capabilities rest (texts.parse_float value, cpu)
      else (if str_eq name "vCPUs"
          then read_capabilities rest (memory, texts.parse_float value)
          else read_capabilities rest (memory, cpu))

  abbrev pub or_empty_text : Option String → String
  or_empty_text none = ""
  or_empty_text (some s) = s

  unfoldable pub sku_vm : Sku → LocationInfo → VmInfo
  unfolding read_capabilities map_category attributes
  sku_vm sku info =
      let (memory, cpu) = read_capabilities sku.capabilities (float_zero, float_zero) in
      let category = or_empty_text (map_category category_map sku.family) in
      record empty_vm {
        category = category;
        type = sku.name;
        mem = memory;
        cpus = cpu;
        ntw_perf = "1 Gbit/s";
        ntw_perf_cat = ntw_low;
        zones = info.location_zones;
        attributes =
            attributes (texts.sprint_float cpu) (texts.sprint_float memory) ntw_low category;
      }

  -- The loops of `GetVirtualMachines`, over the locations of a SKU and over the SKUs.
  unfoldable pub location_vms : String → Sku → List LocationInfo → List VmInfo
  unfolding sku_vm to_lower
  location_vms region sku [] = []
  location_vms region sku (info ∷ infos) =
      let rest = location_vms region sku infos in
      if str_eq (to_lower info.location) region && str_eq sku.resource_type "virtualMachines"
      then sku_vm sku info ∷ rest
      else rest

  unfoldable pub sku_vms : String → List Sku → List VmInfo
  unfolding location_vms
  sku_vms region [] = []
  sku_vms region (sku ∷ skus) = location_vms region sku sku.location_info ++ sku_vms region skus

-- The zones of a location are put into a map.
unfoldable pub insert_zones : List String → List (String × String) → List (String × String)
unfolding insert
insert_zones [] zones_map = zones_map
insert_zones (zone ∷ zones) zones_map = insert_zones zones (insert zone "" zones_map)

unfoldable pub location_zones_of :
    String → List LocationInfo → List (String × String) → List (String × String)
unfolding insert_zones to_lower
location_zones_of region [] zones_map = zones_map
location_zones_of region (info ∷ infos) zones_map =
    if str_eq (to_lower info.location) region
    then location_zones_of region infos (insert_zones info.location_zones zones_map)
    else location_zones_of region infos zones_map

unfoldable pub sku_zones : String → List Sku → List (String × String) → List (String × String)
unfolding location_zones_of
sku_zones region [] zones_map = zones_map
sku_zones region (sku ∷ skus) zones_map =
    sku_zones region skus (location_zones_of region sku.location_info zones_map)

-- `allLocations`, from display names to names.
unfoldable pub all_locations :
    List (String × String) → List (String × String) → List (String × String)
unfolding insert
all_locations [] m = m
all_locations ((display_name, name) ∷ rest) m = all_locations rest (insert display_name name m)

abbrev pub with_location : Option String → String → List (String × String) → List (String × String)
with_location none display_name m = m
with_location (some loc) display_name m = insert loc display_name m

-- The locations of the resource type that the subscription has.
unfoldable pub supported :
    List (String × String) → List String → List (String × String) → List (String × String)
unfolding lookup insert
supported locations [] m = m
supported locations (display_name ∷ rest) m =
    supported locations rest (with_location (lookup display_name locations) display_name m)

-- The loop over the resource types, which ends at the first one of the given type.
unfoldable pub supported_by :
    String → List (String × String) → List ResourceType → List (String × String)
unfolding supported
supported_by resource_type locations [] = []
supported_by resource_type locations (pr ∷ rest) =
    let later = supported_by resource_type locations rest in
    if str_eq pr.resource resource_type then supported locations pr.locations [] else later

abbrev pub is_kubernetes : Orchestrator → Bool
is_kubernetes v = elim v.orchestrator_type [ none ↦ false | some type ↦ str_eq type "Kubernetes" ]

-- The loop of `GetVersions`: the versions so far, and the default one.
unfoldable pub kubernetes_versions : List Orchestrator → List String × String → List String × String
kubernetes_versions [] found = found
kubernetes_versions (v ∷ rest) (versions, def) =
    let def' = if v.has_default then v.orchestrator_version else def in
    if is_kubernetes v
    then kubernetes_versions rest (versions ++ (v.orchestrator_version ∷ []), def')
    else kubernetes_versions rest (versions, def)

-- The first of the machines with the type, in front of the others.
unfoldable pub first_of_type : String → List VmInfo → List VmInfo → List VmInfo
first_of_type vm_type [] rest = rest
first_of_type vm_type (vm ∷ vms) rest =
    let later = first_of_type vm_type vms rest in
    if str_eq vm_type vm.type then vm ∷ rest else later

-- The loops of `GetProducts` for AKS.
unfoldable pub aks_machines : List String → List VmInfo → List VmInfo
unfolding first_of_type
aks_machines [] vms = []
aks_machines (vm_type ∷ types) vms = first_of_type vm_type vms (aks_machines types vms)

module _ (texts : FloatTexts) (clients : AzureClients) where
  -- `GetVirtualMachines`
  unfoldable pub get_virtual_machines : String → Result String (List VmInfo)
  unfolding sku_vms
  get_virtual_machines region = do skus ← clients.list_skus; ok (sku_vms texts region skus)

  abbrev pub given_or : List VmInfo → Result String (List VmInfo) → Result String (List VmInfo)
  given_or [] asked = asked
  given_or (vm ∷ vms) asked = ok (vm ∷ vms)

  -- `GetProducts`
  unfoldable pub get_products : List VmInfo → String → String → Result String (List VmInfo)
  unfolding get_virtual_machines aks_machines
  get_products vms service region_id = given_or vms (get_virtual_machines region_id) >>= λ vm_list.
      if str_eq service "aks"
      then ok (aks_machines clients.possible_vm_sizes vm_list)
      else (if str_eq service "compute" then ok vm_list else err "invalid service")

module _ (clients : AzureClients) where
  -- `GetZones`
  unfoldable pub get_zones : String → Result String (List String)
  unfolding sku_zones
  get_zones region = do skus ← clients.list_skus; ok (map (λ e. e.0) (sku_zones region skus []))

  -- `GetRegions`
  unfoldable pub get_regions : String → Result String (List (String × String))
  unfolding all_locations supported_by
  get_regions service =
      let namespace =
        if str_eq service "aks" then "Microsoft.ContainerService" else "Microsoft.Compute" in
      let resource_type = if str_eq service "aks" then "managedClusters" else "locations/vmSizes" in
      clients.list_locations >>= λ locations. clients.get_provider namespace >>= λ resource_types.
      ok (supported_by resource_type (all_locations locations []) resource_types)

  -- `GetVersions`
  unfoldable pub get_versions : String → String → Result String (List LocationVersion)
  unfolding kubernetes_versions
  get_versions service region =
      let aks = clients.list_orchestrators region >>= λ orchestrators.
      let (versions, def) = kubernetes_versions orchestrators ([], "") in
      ok (new_location_version region versions def ∷ []) in
      if str_eq service "aks" then aks else ok []
