-- ===== src/Store/GoCache.antt =====
-- internal/app/cloudinfo/cistore/go-cache.go: the store over the package `go-cache`, which is a
-- parameter. A method that reads takes the time of the call. `Export` and `Import` hand the whole
-- cache to the package and are not modelled.
pub mod Laws
pub mod Refinement
use cloudinfo.Prelude.{ℕ, String, Bool, true, List, [], ◌∷◌, Option, none, some}
use cloudinfo.Prelude.Text.{sprintf}
use cloudinfo.Types.{VmInfo, Price, Image, LocationVersion, Service}
use cloudinfo.Store.Key.{
  vm_key_template, price_key_template, zone_key_template, image_key_template, version_key_template,
  region_key_template, status_key_template, services_key_template,
}
use cloudinfo.Store.Cache.{Cache}

-- What the values of type `interface{}` in the cache are.
pub data Item : Type 0 where
  vm_item : List VmInfo → Item
  price_item : Price → Item
  string_item : List String → Item
  image_item : List Image → Item
  version_item : List LocationVersion → Item
  region_item : List (String × String) → Item
  status_item : String → Item
  services_item : List Service → Item

-- The result of a getter: the value, the answer `false`, or the panic of a type assertion.
pub data Found {ℓ} (A : Type ℓ) : Type ℓ where
  hit : A → Found A
  miss : Found A
  panic : Found A

abbrev checked {ℓ} : {A : Type ℓ} → Option A → Found A
checked none = panic
checked (some a) = hit a

-- `res, ok := get(key)`, and the assertion `res.(T)` where `ok`.
abbrev asserted {ℓ} : {A : Type ℓ} → (Item → Option A) → Option Item → Found A
asserted as_type none = miss
asserted as_type (some item) = checked (as_type item)

abbrev pub as_vms : Item → Option (List VmInfo)
as_vms (vm_item v) = some v
as_vms _ = none

abbrev pub as_price : Item → Option Price
as_price (price_item v) = some v
as_price _ = none

abbrev pub as_strings : Item → Option (List String)
as_strings (string_item v) = some v
as_strings _ = none

abbrev pub as_images : Item → Option (List Image)
as_images (image_item v) = some v
as_images _ = none

abbrev pub as_versions : Item → Option (List LocationVersion)
as_versions (version_item v) = some v
as_versions _ = none

abbrev pub as_regions : Item → Option (List (String × String))
as_regions (region_item v) = some v
as_regions _ = none

abbrev pub as_status : Item → Option String
as_status (status_item v) = some v
as_status _ = none

abbrev pub as_services : Item → Option (List Service)
as_services (services_item v) = some v
as_services _ = none

-- `cacheProductStore.getKey`
unfoldable pub get_key : String → List String → String
unfolding sprintf
get_key key_template args = sprintf key_template args

module _ (c : Cache Item) where
  -- `cacheProductStore`
  pub record CacheProductStore : Type 0 where
    pub cache : c.State
    pub item_expiry : ℕ

  -- `NewCacheProductStore`: the expiry of the items is the interval of the cleanup.
  pub new_cache_product_store : ℕ → ℕ → CacheProductStore
  new_cache_product_store cloud_info_expiration cleanup_interval = record {
    cache = c.new cloud_info_expiration cleanup_interval;
    item_expiry = cleanup_interval;
  }

  pub ready : CacheProductStore → Bool
  ready cis = true

  -- `cacheProductStore.get`. No stored value is the nil interface.
  get : ℕ → CacheProductStore → String → Option Item
  get now cis key = c.get now cis.cache key

  set : ℕ → CacheProductStore → String → Item → CacheProductStore
  set now cis key item = record cis { cache = c.set now cis.cache key item cis.item_expiry }

  delete : CacheProductStore → String → CacheProductStore
  delete cis key = record cis { cache = c.delete cis.cache key }

  module _ (now : ℕ) (cis : CacheProductStore) (provider : String) where
    pub get_status : Found String
    unfolding get
    get_status = asserted as_status (get now cis (get_key status_key_template (provider ∷ [])))

    pub store_status : String → CacheProductStore
    unfolding set
    store_status val = set now cis (get_key status_key_template (provider ∷ [])) (status_item val)

    pub get_services : Found (List Service)
    unfolding get
    get_services =
        asserted as_services (get now cis (get_key services_key_template (provider ∷ [])))

    pub store_services : List Service → CacheProductStore
    unfolding set
    store_services val =
        set now cis (get_key services_key_template (provider ∷ [])) (services_item val)

    pub get_regions : String → Found (List (String × String))
    unfolding get
    get_regions service =
        asserted as_regions (get now cis (get_key region_key_template (provider ∷ service ∷ [])))

    pub store_regions : String → List (String × String) → CacheProductStore
    unfolding set
    store_regions service val =
        set now cis (get_key region_key_template (provider ∷ service ∷ [])) (region_item val)

    pub get_price : String → String → Found Price
    unfolding get
    get_price region instance_type =
        asserted as_price
          (get now cis (get_key price_key_template (provider ∷ region ∷ instance_type ∷ [])))

    pub store_price : String → String → Price → CacheProductStore
    unfolding set
    store_price region instance_type val =
        set now cis (get_key price_key_template (provider ∷ region ∷ instance_type ∷ []))
          (price_item val)

  module _ (now : ℕ) (cis : CacheProductStore) (provider service region : String) where
    pub get_zones : Found (List String)
    unfolding get
    get_zones =
        asserted as_strings
          (get now cis (get_key zone_key_template (provider ∷ service ∷ region ∷ [])))

    pub store_zones : List String → CacheProductStore
    unfolding set
    store_zones val =
        set now cis (get_key zone_key_template (provider ∷ service ∷ region ∷ [])) (string_item val)

    pub get_vm : Found (List VmInfo)
    unfolding get
    get_vm =
        asserted as_vms (get now cis (get_key vm_key_template (provider ∷ service ∷ region ∷ [])))

    pub store_vm : List VmInfo → CacheProductStore
    unfolding set
    store_vm val =
        set now cis (get_key vm_key_template (provider ∷ service ∷ region ∷ [])) (vm_item val)

    pub get_image : Found (List Image)
    unfolding get
    get_image =
        asserted as_images
          (get now cis (get_key image_key_template (provider ∷ service ∷ region ∷ [])))

    pub store_image : List Image → CacheProductStore
    unfolding set
    store_image val =
        set now cis (get_key image_key_template (provider ∷ service ∷ region ∷ [])) (image_item val)

    pub get_version : Found (List LocationVersion)
    unfolding get
    get_version =
        asserted as_versions
          (get now cis (get_key version_key_template (provider ∷ service ∷ region ∷ [])))

    pub store_version : List LocationVersion → CacheProductStore
    unfolding set
    store_version val =
        set now cis (get_key version_key_template (provider ∷ service ∷ region ∷ []))
          (version_item val)

  module _ (cis : CacheProductStore) (provider service : String) where
    pub delete_regions : CacheProductStore
    unfolding delete
    delete_regions = delete cis (get_key region_key_template (provider ∷ service ∷ []))

    pub delete_zones : String → CacheProductStore
    unfolding delete
    delete_zones region = delete cis (get_key zone_key_template (provider ∷ service ∷ region ∷ []))

    pub delete_image : String → CacheProductStore
    unfolding delete
    delete_image region = delete cis (get_key image_key_template (provider ∷ service ∷ region ∷ []))

    pub delete_version : String → CacheProductStore
    unfolding delete
    delete_version region =
        delete cis (get_key version_key_template (provider ∷ service ∷ region ∷ []))

    pub delete_vm : String → CacheProductStore
    unfolding delete
    delete_vm region = delete cis (get_key vm_key_template (provider ∷ service ∷ region ∷ []))

-- Names for the methods together, for the `unfolding` lines of proofs.
getters : Unit {0}
unfolding get_status get_services get_regions get_price get_zones get_vm get_image get_version get
getters = tt

setters : Unit {0}
unfolding store_status store_services store_regions store_price store_zones store_vm store_image
    store_version set
setters = tt

deleters : Unit {0}
unfolding delete_regions delete_zones delete_image delete_version delete_vm delete
deleters = tt
