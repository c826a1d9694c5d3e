-- ===== src/Loader/Tests.antt =====
-- Tests of the loader, and its theorems at concrete inputs.
use cloudinfo.Prelude.{
  String, ◌≡◌, refl, ◌↔◌, inl, true, false, not, List, [], ◌∷◌, some, In, arith,
}
use cloudinfo.Prelude.Maps.{lookup}
use cloudinfo.Types.{VmInfo, Image, LocationVersion, empty_vm, new_image}
use cloudinfo.Store.Key.{region_key}
use cloudinfo.Store.Interface.{CloudInfoStore, get_services, store_regions, store_zones}
use cloudinfo.Store.Cache.{table_cache}
use cloudinfo.Store.GoCache.{Item, new_cache_product_store}
use cloudinfo.Store.GoCache.Refinement.{go_cache_store}
use cloudinfo.CloudInfo.{contains_text}
use cloudinfo.Loader.{
  exact, exclude, include, Region, ServiceData, exclude_zones, include_zones, exclude_vms,
  include_vms, exclude_images, exclude_versions, include_versions, load_regions,
  default_load_regions,
}
use cloudinfo.Loader.Default.{all_exact, default_load_regions-load_regions}
use cloudinfo.Loader.Filters.{IsTypeListed, vms_iff, IsOtherListed, exclude_images_iff}
use cloudinfo.Loader.Versions.{IsSelected, versions_iff}
use cloudinfo.Loader.Stored.{AreNames}
use cloudinfo.Loader.Runs.{IsImported, load_regions-IsImported}
use cloudinfo.Loader.Manager.{Distribution, ServiceManager, configure_services}
use cloudinfo.Loader.Manager.Configured.{services_after, configure_services-get_services}

abbrev memory_store : CloudInfoStore
memory_store = go_cache_store (table_cache Item) 5

abbrev empty_memory : memory_store.State
unfolding go_cache_store
empty_memory = new_cache_product_store (table_cache Item) 60 10

-- The zones of the source but for one, exact versions, and strategies that nothing supports.
abbrev ireland : Region
ireland = record {
  name = "";
  id = "eu-west-1";
  content = record {
    zones = record { strategy = exclude; entries = "b" ∷ [] };
    images = record { strategy = "none"; entries = [] };
    versions = record { strategy = exact; entries = [] };
    vms = record { strategy = include; entries = empty_vm ∷ [] };
  };
}

abbrev pke : ServiceData
pke = record {
  name = "pke";
  is_static = true;
  source = "compute";
  data_location = "configs";
  data_file = "pke";
  data_type = "yaml";
  provider = "amazon";
  regions = ireland ∷ [];
}

abbrev regions : List (String × String)
regions = ("eu-west-1", "Ireland") ∷ []

abbrev scraped : memory_store.State
scraped =
    store_regions memory_store
      (store_zones memory_store empty_memory "amazon" "compute" "eu-west-1" ("a" ∷ "b" ∷ []))
      "amazon" "compute" regions

names : AreNames memory_store pke "eu-west-1"
names = record {
  provider_name = ground arith;
  service_name = ground arith;
  source_name = ground arith;
  id_name = ground arith;
}

named : lookup ireland.id regions ≡ some "Ireland"
unfolding lookup
named = refl

load_regions-IsImported_example :
    IsImported memory_store pke ireland "Ireland" "7" scraped
      (load_regions memory_store pke scraped "7")
load_regions-IsImported_example =
    load_regions-IsImported memory_store pke ireland "Ireland" "7" scraped regions
      (memory_store.fetch-put _ (region_key "amazon" "compute") regions (ground arith)) (inl refl)
      named (names, tt) (tt, tt)

exclude_tests :
    (exclude_zones ("a" ∷ "b" ∷ "c" ∷ []) ("b" ∷ "d" ∷ []) ≡ "a" ∷ "c" ∷ [])
    × (include_zones ("a" ∷ "b" ∷ "c" ∷ []) ("b" ∷ "d" ∷ []) ≡ "b" ∷ [])
unfolding exclude_zones include_zones contains_text
exclude_tests = (refl, refl)

abbrev large : VmInfo
large = record empty_vm { type = "c5.large" }

vms_iff_example :
    (In large (exclude_vms (large ∷ empty_vm ∷ []) (empty_vm ∷ []))
      ↔ (In large (large ∷ empty_vm ∷ []) × (IsTypeListed (empty_vm ∷ []) "c5.large" → ⊥)))
    × (In large (include_vms (large ∷ empty_vm ∷ []) (empty_vm ∷ []))
        ↔ (In large (large ∷ empty_vm ∷ []) × IsTypeListed (empty_vm ∷ []) "c5.large"))
vms_iff_example = vms_iff (large ∷ empty_vm ∷ []) (empty_vm ∷ []) large

abbrev old_image : Image
old_image = new_image "old" "1.10" false

abbrev new : Image
new = new_image "new" "1.11" false

-- Both images are listed, and both are left.
exclude_images_tests :
    exclude_images (old_image ∷ new ∷ []) (old_image ∷ new ∷ []) ≡ old_image ∷ new ∷ []
unfolding exclude_images
exclude_images_tests = refl

exclude_images_iff_example :
    In new (exclude_images (old_image ∷ new ∷ []) (old_image ∷ new ∷ []))
    ↔ (In new (old_image ∷ new ∷ []) × IsOtherListed (old_image ∷ new ∷ []) "new")
exclude_images_iff_example = exclude_images_iff (old_image ∷ new ∷ []) (old_image ∷ new ∷ []) new

abbrev stored_version : LocationVersion
stored_version = record {
  location = "eu-west-1";
  versions = "1.10" ∷ "1.11" ∷ "1.12" ∷ [];
  default = "1.12";
}

abbrev listed_version : LocationVersion
listed_version = record { location = "eu-west-1"; versions = "1.10" ∷ []; default = "1.10" }

-- The whole version is stored twice, with the value that was to be left out.
exclude_versions_tests :
    exclude_versions (stored_version ∷ []) (listed_version ∷ [])
    ≡ stored_version ∷ stored_version ∷ []
unfolding exclude_versions contains_text
exclude_versions_tests = refl

versions_iff_example :
    (In stored_version (exclude_versions (stored_version ∷ []) (listed_version ∷ [])) ↔ (
      In stored_version (stored_version ∷ [])
      × IsSelected
          (λ data_version value. not (contains_text data_version.versions value))
          (listed_version ∷ [])
          stored_version))
    × (In stored_version (include_versions (stored_version ∷ []) (listed_version ∷ [])) ↔ (
        In stored_version (stored_version ∷ [])
        × IsSelected
            (λ data_version value. contains_text data_version.versions value)
            (listed_version ∷ [])
            stored_version))
versions_iff_example = versions_iff (stored_version ∷ []) (listed_version ∷ []) stored_version

abbrev manager : ServiceManager
manager = record { services = ("amazon", pke ∷ []) ∷ [] }

abbrev only_azure : Distribution
only_azure = record { pke_amazon_enabled = false; pke_azure_enabled = true }

configure_services-get_services_example :
    get_services memory_store
      (configure_services memory_store manager empty_memory ("amazon" ∷ []) only_azure)
      "amazon"
    ≡ services_after memory_store empty_memory ("amazon" ∷ []) only_azure manager.services "amazon"
configure_services-get_services_example =
    configure_services-get_services memory_store manager empty_memory ("amazon" ∷ []) only_azure
      "amazon" (ground arith) (ground arith) (tt, tt)

abbrev named_ireland : Region
named_ireland = record ireland { name = "Ireland" }

abbrev plain : ServiceData
plain = record pke { regions = named_ireland ∷ [] }

default_load_regions-load_regions_example :
    default_load_regions memory_store plain scraped "7"
    ≡ load_regions memory_store (all_exact plain) scraped "7"
default_load_regions-load_regions_example =
    default_load_regions-load_regions memory_store plain scraped "7"
      (memory_store.fetch-put _ (region_key "amazon" "compute") regions (ground arith)) (tt, tt)
