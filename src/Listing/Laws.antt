-- ===== src/Listing/Laws.antt =====
-- The lists of the GraphQL API over the cloud information, as the command wires them.
use cloudinfo.Prelude.{String, ◌≡◌, refl, sym, ap, ◌∙◌, List, [], ◌∷◌, map}
use cloudinfo.Prelude.Text.{IsName}
use cloudinfo.Prelude.Result.{ok, map_err, >>=-eq-ok, map_err-eq-ok, ok-injective}
use cloudinfo.Types
use cloudinfo.Store.Key.{region_key}
use cloudinfo.Store.Interface.{CloudInfoStore, store_regions}
use cloudinfo.CloudInfo.{InfoError, get_regions_of, get_zones_of, get_services_of, get_providers}
use cloudinfo.CloudInfo.Laws.{get_providers_names}
use cloudinfo.Listing.{
  Region, Provider, ListingStore, wrap, fill_regions, fill_providers, list_regions, list_providers,
}

-- `cloudInfo` as the store of the services.
abbrev pub cloud_info : (st : CloudInfoStore) → List String → st.State → ListingStore InfoError
cloud_info st providers store = record {
  get_regions = get_regions_of st providers store;
  get_zones = get_zones_of st providers store;
  get_services = get_services_of st providers store;
  get_providers = get_providers st providers store;
}

fill_providers_codes :
    (ps : List cloudinfo.Types.Provider)
    → map (λ p. p.code) (fill_providers ps) ≡ map (λ p. p.provider) ps
unfolding fill_providers
fill_providers_codes [] = refl
fill_providers_codes (p ∷ ps) = ap (◌∷◌ p.provider) (fill_providers_codes ps)

-- Where the list of the providers succeeds, its codes are the configured providers in their order.
pub list_providers-codes :
    (st : CloudInfoStore) (providers : List String) (store : st.State) (listed : List Provider)
    → list_providers (cloud_info st providers store) ≡ ok listed
    → map (λ p. p.code) listed ≡ providers
unfolding list_providers
list_providers-codes st providers store listed h =
    let (ps, got, made) =
      >>=-eq-ok (map_err (wrap "failed to list providers") (get_providers st providers store))
        (λ ps. ok (fill_providers ps)) h in
    ap (map (λ p. p.code)) (sym (ok-injective made))
    ∙ fill_providers_codes ps
    ∙ get_providers_names st providers store ps
        (map_err-eq-ok (wrap "failed to list providers") (get_providers st providers store) got)

fill_regions_lem :
    (provider service : String) (regions : List (String × String))
    → map (λ r. (r.code, r.name)) (fill_regions provider service regions) ≡ regions
unfolding fill_regions
fill_regions_lem provider service [] = refl
fill_regions_lem provider service ((code, name) ∷ rest) =
    ap (◌∷◌ (code, name)) (fill_regions_lem provider service rest)

-- Once the regions of a service have been stored, the list of the regions answers each of them
-- with its code and its name. No name holds a slash.
pub list_regions-store_regions :
    (st : CloudInfoStore) (providers : List String) (store : st.State) (provider service : String)
    (regions : List (String × String))
    → IsName provider
    → IsName service
    → (listed : List Region) × (list_regions
          (cloud_info st providers (store_regions st store provider service regions))
          provider
          service
        ≡ ok listed)
      × (map (λ r. (r.code, r.name)) listed ≡ regions)
unfolding list_regions get_regions_of
list_regions-store_regions st providers store provider service regions hp hs = (
  fill_regions provider service regions,
  rw (st.fetch-put store (region_key provider service) regions (hp, hs)) refl,
  fill_regions_lem provider service regions,
)
