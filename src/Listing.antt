-- ===== src/Listing.antt =====
-- internal/cloudinfo/region.go, service.go and provider.go: the lists that the GraphQL API answers,
-- over the interfaces of their stores; the stores are parameters.
pub mod Laws
mod Tests
use cloudinfo.Prelude.{String, List, [], ◌∷◌, Option, none, some}
use cloudinfo.Prelude.Text.{concat}
use cloudinfo.Prelude.Maps.{lookup}
use cloudinfo.Prelude.Result.{Result, ok, err, ◌>>=◌, map_err}
use cloudinfo.Types

-- An error with the text of `emperror.Wrap` around it.
pub record Wrapped (E : Type 0) : Type 0 where
  pub message : String
  pub cause : E

pub record Region : Type 0 where
  pub code : String
  pub name : String
  pub provider_name : String
  pub service_name : String

pub record Zone : Type 0 where
  pub code : String

pub record Service : Type 0 where
  pub code : String
  pub provider_name : String

pub record Provider : Type 0 where
  pub code : String
  pub name : String

abbrev pub provider_names : List (String × String)
provider_names =
    ("amazon", "Amazon Web Services")
    ∷ ("google", "Google Cloud")
    ∷ ("alibaba", "Alibaba Cloud")
    ∷ ("oracle", "Oracle")
    ∷ ("azure", "Microsoft Azure")
    ∷ []

-- The loop of `ListRegions` over the map.
unfoldable pub fill_regions : String → String → List (String × String) → List Region
fill_regions provider service [] = []
fill_regions provider service ((code, name) ∷ rest) =
    record { code = code; name = name; provider_name = provider; service_name = service }
    ∷ fill_regions provider service rest

unfoldable pub fill_zones : List String → List Zone
fill_zones [] = []
fill_zones (code ∷ codes) = record { code = code } ∷ fill_zones codes

unfoldable pub fill_services : String → List cloudinfo.Types.Service → List Service
fill_services provider [] = []
fill_services provider (service ∷ services) =
    record { code = service.service; provider_name = provider } ∷ fill_services provider services

-- `name, ok := providerNames[…]; if !ok { name = … }`
abbrev pub name_or_code : Option String → String → String
name_or_code none code = code
name_or_code (some name) code = name

unfoldable pub fill_providers : List cloudinfo.Types.Provider → List Provider
unfolding lookup
fill_providers [] = []
fill_providers (provider ∷ providers) =
    record {
      code = provider.provider;
      name = name_or_code (lookup provider.provider provider_names) provider.provider;
    }
    ∷ fill_providers providers

-- `RegionStore`, `ServiceStore` and `ProviderStore`, with the errors of their implementation.
pub record ListingStore (E : Type 0) : Type 0 where
  pub get_regions : String → String → Result E (List (String × String))
  pub get_zones : String → String → String → Result E (List String)
  pub get_services : String → Result E (List cloudinfo.Types.Service)
  pub get_providers : Result E (List cloudinfo.Types.Provider)

abbrev pub wrap : {E : Type 0} → String → E → Wrapped E
wrap message e = record { message = message; cause = e }

module _ {E : Type 0} (store : ListingStore E) where
  pub list_regions : String → String → Result (Wrapped E) (List Region)
  unfolding fill_regions
  list_regions provider service = do
    regions ← map_err (wrap "failed to list regions") (store.get_regions provider service)
    ok (fill_regions provider service regions)

  pub list_zones : String → String → String → Result (Wrapped E) (List Zone)
  unfolding fill_zones
  list_zones provider service region = do
    zones ← map_err (wrap "failed to list zones") (store.get_zones provider service region)
    ok (fill_zones zones)

  pub list_services : String → Result (Wrapped E) (List Service)
  unfolding fill_services
  list_services provider = do
    services ← map_err (wrap "failed to list services") (store.get_services provider)
    ok (fill_services provider services)

  pub list_providers : Result (Wrapped E) (List Provider)
  unfolding fill_providers
  list_providers = do
    providers ← map_err (wrap "failed to list providers") store.get_providers
    ok (fill_providers providers)
