-- ===== src/Loader.antt =====
-- internal/app/cloudinfo/loader/loader.go and data.go: the services whose data come from files.
-- The files are read by the package viper, so their content is a parameter; logging is left out.
pub mod Stored
pub mod Regions
pub mod Runs
mod Tests
pub mod Default
pub mod Filters
pub mod Manager
pub mod Versions
use cloudinfo.Prelude.{
  String, Bool, true, false, not, List, [], ◌∷◌, ◌++◌, Option, none, some, any, keep, str_eq,
  if◌then◌else◌,
}
use cloudinfo.Prelude.Maps.{lookup, insert}
use cloudinfo.Types.{VmInfo, Image, LocationVersion}
use cloudinfo.Store.Interface.{
  CloudInfoStore, get_vm, get_zones, get_image, get_version, get_regions, store_vm, store_zones,
  store_image, store_version, store_regions, store_status,
}
use cloudinfo.CloudInfo.{contains_text}

abbrev pub exact : String
exact = "exact"

abbrev pub exclude : String
exclude = "exclude"

abbrev pub include : String
include = "include"

pub record ZoneData : Type 0 where
  pub strategy : String
  pub entries : List String

pub record ImageData : Type 0 where
  pub strategy : String
  pub entries : List Image

pub record VersionData : Type 0 where
  pub strategy : String
  pub entries : List LocationVersion

pub record VmData : Type 0 where
  pub strategy : String
  pub entries : List VmInfo

pub record RegionData : Type 0 where
  pub zones : ZoneData
  pub images : ImageData
  pub versions : VersionData
  pub vms : VmData

pub record Region : Type 0 where
  pub name : String
  pub id : String
  pub content : RegionData

-- `ServiceData` with the fields of the `Service` in it.
pub record ServiceData : Type 0 where
  pub name : String
  pub is_static : Bool
  pub source : String
  pub data_location : String
  pub data_file : String
  pub data_type : String
  pub provider : String
  pub regions : List Region

-- `ContainsVM`
unfoldable pub contains_vm : List VmInfo → String → Bool
contains_vm vms vm_type = any (λ vm. str_eq vm.type vm_type) vms

-- The loops over the zones for the two strategies.
unfoldable pub exclude_zones : List String → List String → List String
exclude_zones zones listed = keep (λ zone. not (contains_text listed zone)) zones

unfoldable pub include_zones : List String → List String → List String
include_zones zones listed = keep (λ zone. contains_text zones zone) listed

-- The loop over the values of a source version: the version is appended for each value that
-- passes.
unfoldable pub per_value : (String → Bool) → LocationVersion → List String → List LocationVersion
per_value passes version [] = []
per_value passes version (v ∷ vs) =
    let rest = per_value passes version vs in if passes v then version ∷ rest else rest

-- The loop over the listed versions, which goes on at another location.
unfoldable pub per_location :
    (LocationVersion → String → Bool)
    → LocationVersion
    → List LocationVersion
    → List LocationVersion
unfolding per_value
per_location passes version [] = []
per_location passes version (listed ∷ rest) =
    let others = per_location passes version rest in
    if not (str_eq listed.location version.location)
    then others
    else per_value (passes listed) version version.versions ++ others

-- The loop over the source versions.
unfoldable pub filter_versions :
    (LocationVersion → String → Bool)
    → List LocationVersion
    → List LocationVersion
    → List LocationVersion
unfolding per_location
filter_versions passes [] listed = []
filter_versions passes (version ∷ versions) listed =
    per_location passes version listed ++ filter_versions passes versions listed

unfoldable pub exclude_versions : List LocationVersion → List LocationVersion → List LocationVersion
unfolding filter_versions
exclude_versions versions listed =
    filter_versions (λ data_version v. not (contains_text data_version.versions v)) versions listed

unfoldable pub include_versions : List LocationVersion → List LocationVersion → List LocationVersion
unfolding filter_versions
include_versions versions listed =
    filter_versions (λ data_version v. contains_text data_version.versions v) versions listed

-- The loops over the images; the inner one ends at the first image that passes.
unfoldable pub exclude_images : List Image → List Image → List Image
exclude_images images listed =
    keep (λ image. any (λ other. not (str_eq other.name image.name)) listed) images

unfoldable pub include_images : List Image → List Image → List Image
include_images images listed =
    keep (λ image. any (λ other. str_eq other.name image.name) listed) images

unfoldable pub exclude_vms : List VmInfo → List VmInfo → List VmInfo
unfolding contains_vm
exclude_vms vms listed = keep (λ vm. not (contains_vm listed vm.type)) vms

unfoldable pub include_vms : List VmInfo → List VmInfo → List VmInfo
unfolding contains_vm
include_vms vms listed = keep (λ vm. contains_vm listed vm.type) vms

-- `if !ok { return }` before the use of the source's value.
abbrev pub map_option : {A B : Type 0} → (A → B) → Option A → Option B
map_option f none = none
map_option f (some a) = some (f a)

-- The `switch` over the strategy: what is to be stored, if anything.
unfoldable pub by_strategy :
    {A : Type 0}
    → String
    → List A
    → Option (List A)
    → (List A → List A → List A)
    → (List A → List A → List A)
    → Option (List A)
by_strategy strategy listed source excluded included =
    if str_eq strategy exact
    then some listed
    else if str_eq strategy exclude
    then map_option (λ found. excluded found listed) source
    else if str_eq strategy include
    then map_option (λ found. included found listed) source
    else none

-- A slice is stored if there is one; otherwise a method of the loader has returned.
abbrev pub or_keep : {S A : Type 0} → S → Option A → (A → S) → S
or_keep s none store = s
or_keep s (some values) store = store values

module _ (st : CloudInfoStore) (service_data : ServiceData) where
  abbrev own_provider : String
  own_provider = service_data.provider

  -- `defaultCloudInfoLoader`
  pub default_load_zones : st.State → String → String → Region → st.State
  default_load_zones s provider service region =
      store_zones st s provider service region.id region.content.zones.entries

  pub default_load_versions : st.State → String → String → Region → st.State
  default_load_versions s provider service region =
      store_version st s provider service region.id region.content.versions.entries

  pub default_load_images : st.State → String → String → Region → st.State
  default_load_images s provider service region =
      if str_eq service "pke"
      then s
      else store_image st s provider service region.id region.content.images.entries

  pub default_load_vms : st.State → String → String → Region → st.State
  default_load_vms s provider service region =
      store_vm st s provider service region.id region.content.vms.entries

  -- `storeCloudInfoLoader`
  pub load_zones : st.State → String → String → Region → st.State
  load_zones s provider service region =
      or_keep s
        (by_strategy region.content.zones.strategy region.content.zones.entries
          (get_zones st s provider service_data.source region.id) exclude_zones include_zones)
        λ zones. store_zones st s provider service region.id zones

  pub load_versions : st.State → String → String → Region → st.State
  load_versions s provider service region =
      or_keep s
        (by_strategy region.content.versions.strategy region.content.versions.entries
          (get_version st s provider service_data.source region.id) exclude_versions
          include_versions)
        λ versions. store_version st s provider service region.id versions

  pub load_images : st.State → String → String → Region → st.State
  load_images s provider service region =
      let loaded =
        or_keep s
          (by_strategy region.content.images.strategy region.content.images.entries
            (get_image st s provider service_data.source region.id) exclude_images include_images)
          λ images. store_image st s provider service region.id images in
      if str_eq service "pke" then s else loaded

  pub load_vms : st.State → String → String → Region → st.State
  load_vms s provider service region =
      or_keep s
        (by_strategy region.content.vms.strategy region.content.vms.entries
          (get_vm st s provider service_data.source region.id) exclude_vms include_vms)
        λ vms. store_vm st s provider service region.id vms

  -- The four calls of the loops over the regions.
  pub default_load_region : st.State → Region → st.State
  unfolding default_load_zones default_load_versions default_load_images default_load_vms
  default_load_region s region =
      let zones = default_load_zones s service_data.provider service_data.name region in
      let versions = default_load_versions zones service_data.provider service_data.name region in
      let images = default_load_images versions service_data.provider service_data.name region in
      default_load_vms images service_data.provider service_data.name region

  pub load_region : st.State → Region → st.State
  unfolding load_zones load_versions load_images load_vms
  load_region s region =
      let zones = load_zones s service_data.provider service_data.name region in
      let versions = load_versions zones service_data.provider service_data.name region in
      let images = load_images versions service_data.provider service_data.name region in
      load_vms images service_data.provider service_data.name region

  -- The end of both: the regions and the status are stored.
  pub finish_regions : String → st.State × List (String × String) → st.State
  finish_regions now (s, region_map) =
      store_status st (store_regions st s service_data.provider service_data.name region_map)
        service_data.provider now

  pub default_loop :
      st.State → List (String × String) → List Region → st.State × List (String × String)
  unfolding default_load_region
  default_loop s region_map [] = (s, region_map)
  default_loop s region_map (region ∷ regions) =
      default_loop (default_load_region s region) (insert region.id region.name region_map) regions

  -- `LoadRegions` of `defaultCloudInfoLoader`; the time is its argument.
  pub default_load_regions : st.State → String → st.State
  unfolding default_loop finish_regions
  default_load_regions s now = finish_regions now (default_loop s [] service_data.regions)

  pub loop :
      List (String × String)
      → st.State
      → List (String × String)
      → List Region
      → st.State × List (String × String)
  unfolding load_region
  loop stored s region_map [] = (s, region_map)
  loop stored s region_map (region ∷ regions) = elim (lookup region.id stored) [
    | none ↦ loop stored s region_map regions
    | some region_name ↦
        loop stored (load_region s region) (insert region.id region_name region_map) regions
  ]

  -- `LoadRegions` of `storeCloudInfoLoader`
  pub load_regions : st.State → String → st.State
  unfolding loop finish_regions
  load_regions s now = elim (get_regions st s service_data.provider service_data.source) [
    | none ↦ s
    | some stored ↦ finish_regions now (loop stored s [] service_data.regions)
  ]
