-- ===== src/CloudInfo/Tests.antt =====
-- Tests of the reads, and their theorems at concrete inputs.
use cloudinfo.Prelude.{String, ◌≡◌, refl, ◌↔◌, false, List, [], ◌∷◌, some, arith, In, All, map}
use cloudinfo.Prelude.Maps.{lookup}
use cloudinfo.Prelude.Result.{ok}
use cloudinfo.Types.{VmInfo, Provider, Service, empty_vm}
use cloudinfo.Store.Key.{services_key}
use cloudinfo.Store.Interface.{CloudInfoStore, get_services, store_services, store_vm}
use cloudinfo.Store.Cache.{table_cache}
use cloudinfo.Store.GoCache.{Item, new_cache_product_store}
use cloudinfo.Store.GoCache.Refinement.{go_cache_store}
use cloudinfo.CloudInfo.{get_provider, get_providers, get_product_details}
use cloudinfo.CloudInfo.Continents.{continents_of, continents_of_lem, regions_at, regions_of}
use cloudinfo.CloudInfo.Laws.{described, get_product_details-store_vm}
use cloudinfo.CloudInfo.Providers.{HasServices, answered_providers_iff}

-- The store of the package at instant 5.
abbrev memory_store : CloudInfoStore
memory_store = go_cache_store (table_cache Item) 5

abbrev empty_memory : memory_store.State
unfolding go_cache_store
empty_memory = new_cache_product_store (table_cache Item) 60 10

abbrev eks : Service
eks = record { service = "eks"; is_static = false }

abbrev with_services : memory_store.State
with_services = store_services memory_store empty_memory "amazon" (eks ∷ [])

abbrev amazon : Provider
amazon = record { provider = "amazon"; services = eks ∷ [] }

services_of_amazon : get_services memory_store with_services "amazon" ≡ some (eks ∷ [])
services_of_amazon =
    memory_store.fetch-put empty_memory (services_key "amazon") (eks ∷ []) (ground arith)

answered_providers_iff_example :
    ((name : String) (provider : Provider)
      → (get_provider memory_store ("amazon" ∷ []) with_services name ≡ ok provider) ↔ (
          In name ("amazon" ∷ [])
          × HasServices memory_store ("amazon" ∷ []) with_services provider
          × (provider.provider ≡ name)))
    × ((ps : List Provider)
        → (get_providers memory_store ("amazon" ∷ []) with_services ≡ ok ps) ↔ (
            (map (λ p. p.provider) ps ≡ "amazon" ∷ [])
            × All (HasServices memory_store ("amazon" ∷ []) with_services) ps))
answered_providers_iff_example = answered_providers_iff memory_store ("amazon" ∷ []) with_services

providers_answered : get_providers memory_store ("amazon" ∷ []) with_services ≡ ok (amazon ∷ [])
providers_answered =
    ((answered_providers_iff memory_store ("amazon" ∷ []) with_services).1 (amazon ∷ [])).1
      (refl, (services_of_amazon, tt))

abbrev large : VmInfo
large = record empty_vm { type = "c5.large" }

get_product_details-store_vm_example :
    get_product_details memory_store
      ("amazon" ∷ [])
      (store_vm memory_store empty_memory "amazon" "eks" "eu-west-1" (large ∷ []))
      "amazon"
      "eks"
      "eu-west-1"
    ≡ ok (described memory_store ("amazon" ∷ []) empty_memory "amazon" "eu-west-1" large ∷ [])
get_product_details-store_vm_example =
    get_product_details-store_vm memory_store ("amazon" ∷ []) empty_memory "amazon" "eks"
      "eu-west-1" (large ∷ []) (ground arith) (ground arith) (ground arith) (ground arith)

abbrev some_regions : List (String × String)
some_regions = ("eu-west-1", "Ireland") ∷ ("us-east-1", "Virginia") ∷ ("eu-west-2", "London") ∷ []

continents_of_lem_example :
    regions_at (lookup "Europe" (continents_of some_regions)) ≡ regions_of "Europe" some_regions
continents_of_lem_example = continents_of_lem "Europe" some_regions
