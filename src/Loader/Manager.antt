-- ===== src/Loader/Manager.antt =====
-- internal/app/cloudinfo/loader/manager.go: which services a provider has, and which loaders run.
-- The configuration and the files of the loaders are read by the package viper, whose answers are
-- parameters.
pub mod Configured
use cloudinfo.Prelude.{
  String, ◌≡◌, refl, sym, ap, ◌∙◌, ◌≢◌, inl, inr, Bool, false, not, ◌&&◌, ◌||◌, List, [], ◌∷◌, ◌++◌,
  Option, none, some, All, In, subst, str_eq, eq_iff, eq_refl, Bool-cases, if◌then◌else◌,
}
use cloudinfo.Prelude.Text.{IsName}
use cloudinfo.Prelude.Maps.{lookup, Absent, HasDistinctKeys, lookup-Absent}
use cloudinfo.Types.{Service}
use cloudinfo.Store.Key.{services_key}
use cloudinfo.Store.Interface.{CloudInfoStore, get_services, store_services}
use cloudinfo.CloudInfo.{contains_text}
use cloudinfo.Loader.{ServiceData, map_option, default_load_regions}
use cloudinfo.Loader.Stored.{or_old}

-- `distribution.Config`
pub record Distribution : Type 0 where
  pub pke_amazon_enabled : Bool
  pub pke_azure_enabled : Bool

-- `defaultServiceManager`: the services of each provider.
pub record ServiceManager : Type 0 where
  pub services : List (String × List ServiceData)

-- The two tests that skip a service.
unfoldable pub is_disabled : String → Distribution → ServiceData → Bool
is_disabled provider distribution psvc =
    (str_eq provider "amazon" && (not distribution.pke_amazon_enabled && str_eq psvc.name "pke"))
    || (str_eq provider "azure" && (not distribution.pke_azure_enabled && str_eq psvc.name "pke"))

-- The loop over the services of a provider.
unfoldable pub provider_services : String → Distribution → List ServiceData → List Service
unfolding is_disabled
provider_services provider distribution [] = []
provider_services provider distribution (psvc ∷ rest) =
    let others = provider_services provider distribution rest in
    if is_disabled provider distribution psvc
    then others
    else record { service = psvc.name; is_static = psvc.is_static } ∷ others

module _ (st : CloudInfoStore) where
  -- The loop of `ConfigureServices` over the map of the services.
  pub configure_loop :
      st.State → List String → Distribution → List (String × List ServiceData) → st.State
  unfolding provider_services
  configure_loop s providers distribution [] = s
  configure_loop s providers distribution ((provider, psvcs) ∷ rest) =
      configure_loop
        (if contains_text providers provider
          then store_services st s provider (provider_services provider distribution psvcs)
          else s)
        providers distribution rest

  pub configure_services : ServiceManager → st.State → List String → Distribution → st.State
  unfolding configure_loop
  configure_services sm s providers distribution =
      configure_loop s providers distribution sm.services

  -- What `LoadServiceInformation` changes: the store, and who waits for the end of a scraping.
  pub record Loading : Type 0 where
    pub store : st.State
    pub subscriptions : List (String × ServiceData)

  -- `NewCloudInfoLoader` for the data of a file, and `Load` of the loader.
  pub load : Loading → ServiceData → String → Loading
  load l service_data now =
      if str_eq service_data.source ""
      then record l { store = default_load_regions st service_data l.store now }
      else record l {
        subscriptions = l.subscriptions ++ ((service_data.provider, service_data) ∷ []);
      }

  module _ (read : String → String → String → ServiceData) where
    pub load_static : Loading → List ServiceData → String → Loading
    unfolding load
    load_static l [] now = l
    load_static l (service ∷ rest) now =
        load_static
          (if service.is_static
            then load l (read service.data_location service.data_file service.data_type) now
            else l)
          rest now

    abbrev pub services_or_nil : Option (List ServiceData) → List ServiceData
    services_or_nil none = []
    services_or_nil (some psvcs) = psvcs

    pub load_service_information : ServiceManager → Loading → List String → String → Loading
    unfolding load_static
    load_service_information sm l [] now = l
    load_service_information sm l (provider ∷ providers) now =
        load_service_information sm
          (load_static l (services_or_nil (lookup provider sm.services)) now) providers now
