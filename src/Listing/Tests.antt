-- ===== src/Listing/Tests.antt =====
-- The theorems on the lists at concrete inputs.
use cloudinfo.Prelude.{String, ◌≡◌, refl, List, [], ◌∷◌, arith, false, none, ◌≢◌}
use cloudinfo.Prelude.Result.{ok}
use cloudinfo.Types
use cloudinfo.Store.Key.{services_key}
use cloudinfo.Store.Interface.{CloudInfoStore, get_services, store_services}
use cloudinfo.Store.Cache.{table_cache}
use cloudinfo.Store.GoCache.{Item, new_cache_product_store}
use cloudinfo.Store.GoCache.Refinement.{go_cache_store}
use cloudinfo.CloudInfo.{get_providers}
use cloudinfo.CloudInfo.Laws.{get_providers_iff}
use cloudinfo.Listing.{fill_providers, list_providers}
use cloudinfo.Listing.Laws.{cloud_info}

abbrev memory_store : CloudInfoStore
memory_store = go_cache_store (table_cache Item) 5

abbrev empty_memory : memory_store.State
unfolding go_cache_store
empty_memory = new_cache_product_store (table_cache Item) 60 10

abbrev regions : List (String × String)
regions = ("eu-west-1", "Ireland") ∷ ("us-east-1", "Virginia") ∷ []

abbrev with_services : memory_store.State
with_services =
    store_services memory_store empty_memory "amazon"
      (record { service = "eks"; is_static = false } ∷ [])

services_of_amazon : get_services memory_store with_services "amazon" ≢ none
services_of_amazon missing = cc (
  missing,
  memory_store.fetch-put empty_memory (services_key "amazon")
      (record { service = "eks"; is_static = false } ∷ []) (ground arith),
)

answered :
    (ps : List cloudinfo.Types.Provider) × (get_providers memory_store ("amazon" ∷ []) with_services
      ≡ ok ps)
answered = (get_providers_iff memory_store ("amazon" ∷ []) with_services).1 (services_of_amazon, tt)

listed_providers :
    list_providers (cloud_info memory_store ("amazon" ∷ []) with_services)
    ≡ ok (fill_providers answered.0)
unfolding list_providers
listed_providers = rw answered.1 refl
