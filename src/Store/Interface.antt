-- ===== src/Store/Interface.antt =====
-- The interface `CloudInfoStore` of internal/cloudinfo/store.go as its clients see it. The laws are
-- what an implementation promises: a read gives what was last written under the same names.
use cloudinfo.Prelude.{String, ◌≡◌, ◌∙◌, ◌≢◌, List, Option, some, none}
use cloudinfo.Types.{VmInfo, Price, Image, LocationVersion, Service}
use cloudinfo.Store.Key.{
  Key, vm_key, price_key, zone_key, image_key, version_key, region_key, status_key, services_key,
  IsClean, IsDeletable, Content,
}

pub record CloudInfoStore : Type 1 where
  pub State : Type 0
  pub fetch : State → (k : Key) → Option (Content k)
  pub put : State → (k : Key) → Content k → State
  pub drop : State → Key → State
  pub fetch-put : (s : State) (k : Key) (v : Content k) → IsClean k → fetch (put s k v) k ≡ some v
  pub fetch-put_other :
      (s : State) (j k : Key) (v : Content k)
      → IsClean j
      → IsClean k
      → j ≢ k
      → fetch (put s k v) j ≡ fetch s j
  pub fetch-drop : (s : State) (k : Key) → IsClean k → IsDeletable k → fetch (drop s k) k ≡ none
  pub fetch-drop_other :
      (s : State) (j k : Key)
      → IsClean j
      → IsClean k
      → j ≢ k
      → IsDeletable k
      → fetch (drop s k) j ≡ fetch s j

-- The methods of the interface.
module _ (st : CloudInfoStore) where
  open st use {State, fetch, put, drop}

  abbrev pub get_regions : State → String → String → Option (List (String × String))
  get_regions s provider service = fetch s (region_key provider service)

  abbrev pub get_zones : State → String → String → String → Option (List String)
  get_zones s provider service region = fetch s (zone_key provider service region)

  abbrev pub get_price : State → String → String → String → Option Price
  get_price s provider region instance_type = fetch s (price_key provider region instance_type)

  abbrev pub get_vm : State → String → String → String → Option (List VmInfo)
  get_vm s provider service region = fetch s (vm_key provider service region)

  abbrev pub get_image : State → String → String → String → Option (List Image)
  get_image s provider service region = fetch s (image_key provider service region)

  abbrev pub get_version : State → String → String → String → Option (List LocationVersion)
  get_version s provider service region = fetch s (version_key provider service region)

  abbrev pub get_status : State → String → Option String
  get_status s provider = fetch s (status_key provider)

  abbrev pub get_services : State → String → Option (List Service)
  get_services s provider = fetch s (services_key provider)

  abbrev pub store_regions : State → String → String → List (String × String) → State
  store_regions s provider service val = put s (region_key provider service) val

  abbrev pub store_zones : State → String → String → String → List String → State
  store_zones s provider service region val = put s (zone_key provider service region) val

  abbrev pub store_price : State → String → String → String → Price → State
  store_price s provider region instance_type val =
      put s (price_key provider region instance_type) val

  abbrev pub store_vm : State → String → String → String → List VmInfo → State
  store_vm s provider service region val = put s (vm_key provider service region) val

  abbrev pub store_image : State → String → String → String → List Image → State
  store_image s provider service region val = put s (image_key provider service region) val

  abbrev pub store_version : State → String → String → String → List LocationVersion → State
  store_version s provider service region val = put s (version_key provider service region) val

  abbrev pub store_status : State → String → String → State
  store_status s provider val = put s (status_key provider) val

  abbrev pub store_services : State → String → List Service → State
  store_services s provider services = put s (services_key provider) services

  abbrev pub delete_regions : State → String → String → State
  delete_regions s provider service = drop s (region_key provider service)

  abbrev pub delete_zones : State → String → String → String → State
  delete_zones s provider service region = drop s (zone_key provider service region)

  abbrev pub delete_vm : State → String → String → String → State
  delete_vm s provider service region = drop s (vm_key provider service region)

  abbrev pub delete_image : State → String → String → String → State
  delete_image s provider service region = drop s (image_key provider service region)

  abbrev pub delete_version : State → String → String → String → State
  delete_version s provider service region = drop s (version_key provider service region)

  -- An entry that is deleted and stored again leaves the others alone.
  pub fetch-replace_other :
      (s : State) (j k : Key) (v : Content k)
      → IsClean j
      → IsClean k
      → j ≢ k
      → IsDeletable k
      → fetch (put (drop s k) k v) j ≡ fetch s j
  fetch-replace_other s j k v hj hk n d =
      st.fetch-put_other (drop s k) j k v hj hk n ∙ st.fetch-drop_other s j k hj hk n d
