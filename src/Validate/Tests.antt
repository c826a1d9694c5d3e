-- ===== src/Validate/Tests.antt =====
-- The checks at concrete inputs.
use cloudinfo.Prelude.{◌≡◌, ◌↔◌, true, [], ◌∷◌, some}
use cloudinfo.Store.Interface.{CloudInfoStore, store_regions}
use cloudinfo.Store.Cache.{table_cache}
use cloudinfo.Store.GoCache.{Item, new_cache_product_store}
use cloudinfo.Store.GoCache.Refinement.{go_cache_store}
use cloudinfo.Validate.{
  RegionPathParams, region_validator, IsRegionStored, region_validator-IsRegionStored,
}

abbrev memory_store : CloudInfoStore
memory_store = go_cache_store (table_cache Item) 5

abbrev empty_memory : memory_store.State
unfolding go_cache_store
empty_memory = new_cache_product_store (table_cache Item) 60 10

abbrev with_regions : memory_store.State
with_regions =
    store_regions memory_store empty_memory "amazon" "eks" (("eu-west-1", "Ireland") ∷ [])

abbrev ireland : RegionPathParams
ireland = record { provider = "amazon"; service = "eks"; region = "eu-west-1" }

region_validator-IsRegionStored_example :
    (region_validator memory_store ("amazon" ∷ []) with_regions (some ireland) ≡ true)
    ↔ IsRegionStored memory_store ("amazon" ∷ []) with_regions ireland
region_validator-IsRegionStored_example =
    region_validator-IsRegionStored memory_store ("amazon" ∷ []) with_regions ireland
