-- ===== src/Validate.antt =====
-- internal/app/cloudinfo/api/validate.go: the checks of the path of a request against the cloud
-- information. The package validator calls them; what it finds in a field and in the struct around
-- it is an argument, and `none` is a struct of another type.
mod Tests
use cloudinfo.Prelude.{
  String, ◌≡◌, refl, sym, ap, ◌∙◌, ◌↔◌, Bool, true, false, ◌&&◌, List, [], ◌∷◌, Option, none, some,
  any, In, inl, inr, subst, str_eq, eq_iff, eq_refl, arith, Option-cases,
}
use cloudinfo.Prelude.Result.{Result, ok, err}
use cloudinfo.Types.{Service}
use cloudinfo.Store.Interface.{CloudInfoStore, get_regions, get_services}
use cloudinfo.CloudInfo.{InfoError, get_regions_of, get_services_of}
use cloudinfo.Loader.Filters.{Found, any-Found, Found-any}

-- `GetServicesPathParams` with the struct embedded in it.
pub record ServicesPathParams : Type 0 where
  pub provider : String
  pub service : String

-- `GetRegionPathParams` with the structs embedded in it.
pub record RegionPathParams : Type 0 where
  pub provider : String
  pub service : String
  pub region : String

-- `providerValidator`
unfoldable pub provider_validator : List String → String → Bool
provider_validator providers field = any (λ p. str_eq field p) providers

abbrev any_service : Result InfoError (List Service) → String → Bool
any_service (err e) name = false
any_service (ok services) name = any (λ svc. str_eq svc.service name) services

abbrev any_region : Result InfoError (List (String × String)) → String → Bool
any_region (err e) region = false
any_region (ok regions) region = any (λ reg. str_eq reg.0 region) regions

module _ (st : CloudInfoStore) (providers : List String) (store : st.State) where
  -- `serviceValidator`
  pub service_validator : Option ServicesPathParams → Bool
  service_validator none = false
  service_validator (some params) =
      any_service (get_services_of st providers store params.provider) params.service

  -- `regionValidator`
  pub region_validator : Option RegionPathParams → Bool
  region_validator none = false
  region_validator (some params) =
      any_region (get_regions_of st providers store params.provider params.service) params.region

  -- The region of the path stands in the store.
  pub record IsRegionStored (params : RegionPathParams) : Type 0 where
    pub regions : List (String × String)
    pub stored : get_regions st store params.provider params.service ≡ some regions
    pub region : String × String
    pub listed : In region regions
    pub same : region.0 ≡ params.region

  -- A region in a path is accepted exactly if the store has regions for the service of the
  -- provider and the region is one of them.
  pub region_validator-IsRegionStored :
      (params : RegionPathParams) → (region_validator (some params) ≡ true) ↔ IsRegionStored params
  unfolding region_validator get_regions_of
  region_validator-IsRegionStored params =
      elim (Option-cases (get_regions st store params.provider params.service)) [
        | inl missing ↦ (λ h. cc (rw (missing, region_validator) at h), λ s. cc (missing, s.stored))
        | inr (regions, found) ↦ (
          λ h.
              let f =
                any-Found (λ reg. str_eq reg.0 params.region) regions
                  (rw (found, region_validator) at h) in
              record {
                regions = regions;
                stored = found;
                region = f.entry;
                listed = f.listed;
                same = (eq_iff f.entry.0 params.region).0 f.passes;
              },
          λ s.
              rw (s.stored, region_validator)
                (Found-any (λ reg. str_eq reg.0 params.region) s.regions s.region s.listed
                  ((eq_iff s.region.0 params.region).1 s.same)),
        )
      ]
