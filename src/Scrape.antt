-- ===== src/Scrape.antt =====
-- internal/cloudinfo/scrape.go: the renewal of a provider's data. The provider's client is a
-- parameter whose answers stay the same during a run; what a run does outside the store is a list
-- of effects. Logging, tracing, the price gauge and the reports of durations are not modelled.
pub mod Prices
pub mod Machines
pub mod Regions
pub mod Runs
mod Tests
use cloudinfo.Prelude.{
  String, Bool, true, false, not, List, [], ◌∷◌, ◌++◌, Option, none, some, str_eq, if◌then◌else◌,
}
use cloudinfo.Prelude.Float.{Float64, float_eq, float_lt, float_zero}
use cloudinfo.Prelude.Result.{Result, ok, err}
use cloudinfo.Types.{VmInfo, Price, Image, LocationVersion, Service}
use cloudinfo.Store.Interface.{
  CloudInfoStore, get_vm, get_price, get_services, store_vm, store_price, store_zones, store_image,
  store_version, store_regions, store_status, delete_vm, delete_image, delete_version, delete_zones,
  delete_regions,
}

-- `CloudInfoer`, with the text of an error.
pub record CloudInfoer : Type 0 where
  pub initialize : Result String (List (String × List (String × Price)))
  pub get_products : List VmInfo → String → String → Result String (List VmInfo)
  pub get_zones : String → Result String (List String)
  pub get_regions : String → Result String (List (String × String))
  pub get_current_prices : String → Result String (List (String × Price))
  pub has_short_lived_price_info : Bool
  pub has_images : Bool
  pub get_service_images : String → String → Result String (List Image)
  pub get_versions : String → String → Result String (List LocationVersion)

pub data ScrapeError : Type 0 where
  initialize_failed no_zones no_products no_images no_versions no_regions no_prices :
      String → ScrapeError
  vms_not_cached : ScrapeError

-- `errorHandler.Handle`, `PublishScrapingComplete`, and the reports of failures.
pub data Effect : Type 0 where
  handled : ScrapeError → Effect
  published : String → Effect
  failure_reported : String → String → Effect
  short_lived_failure_reported : String → Effect

-- `if vms, ok := …; !ok`: the nil slice goes on.
abbrev pub or_nil : {A : Type 0} → Option (List A) → List A
or_nil none = []
or_nil (some xs) = xs

-- The loop over the machines in `updateVirtualMachines`: a positive price in the store replaces
-- the machine's own, and a machine without a price is dropped.
abbrev pub repriced : VmInfo → Option Price → VmInfo
repriced vm none = vm
repriced vm (some prices) =
    if float_lt float_zero prices.on_demand_price
    then record vm { on_demand_price = prices.on_demand_price }
    else vm

abbrev pub keep_priced : VmInfo → List VmInfo → List VmInfo
keep_priced vm rest = if not (float_eq vm.on_demand_price float_zero) then vm ∷ rest else rest

-- `lastScrapeError` after a region.
abbrev pub last_error : Option ScrapeError → Option ScrapeError → Option ScrapeError
last_error last none = last
last_error last (some e) = some e

-- `scrapingManager`
module _ (st : CloudInfoStore) (infoer : CloudInfoer) (provider : String) where
  pub record World : Type 0 where
    pub store : st.State
    pub effects : List Effect

  -- A step returns the error or nil.
  abbrev pub Outcome : Type 0
  Outcome = World × Option ScrapeError

  pub emit : World → Effect → World
  emit w e = record w { effects = w.effects ++ (e ∷ []) }

  -- The inner and the outer loop of `initialize`.
  pub store_prices : st.State → String → List (String × Price) → st.State
  store_prices s region [] = s
  store_prices s region ((inst_type, price) ∷ rest) =
      store_prices (store_price st s provider region inst_type price) region rest

  pub store_all_prices : st.State → List (String × List (String × Price)) → st.State
  unfolding store_prices
  store_all_prices s [] = s
  store_all_prices s ((region, prices) ∷ rest) =
      store_all_prices (store_prices s region prices) rest

  pub initialize : World → World
  unfolding store_all_prices emit
  initialize w = elim infoer.initialize [
    | ok prices ↦ record w { store = store_all_prices w.store prices }
    | err e ↦ emit w (handled (initialize_failed e))
  ]

  pub virtual_machines : st.State → String → List VmInfo → List VmInfo
  virtual_machines s region [] = []
  virtual_machines s region (vm ∷ vms) =
      keep_priced (repriced vm (get_price st s provider region vm.type))
        (virtual_machines s region vms)

  pub update_virtual_machines : World → String → String → Outcome
  unfolding virtual_machines
  update_virtual_machines w service region = elim (get_vm st w.store provider service region) [
    | none ↦ (w, some vms_not_cached)
    | some vms ↦ (
      record w {
        store =
            store_vm st (delete_vm st w.store provider service region) provider service region
              (virtual_machines w.store region vms);
      },
      none,
    )
  ]

  pub scrape_service_region_products : World → String → String → Outcome
  unfolding update_virtual_machines
  scrape_service_region_products w service region =
      elim (infoer.get_products (or_nil (get_vm st w.store provider service region)) service
        region) [
          | err e ↦ (w, some (no_products e))
          | ok values ↦
              update_virtual_machines
                (record w { store = store_vm st w.store provider service region values }) service
                region
        ]

  pub store_images : World → String → String → Outcome
  store_images w service region = elim (infoer.get_service_images service region) [
    | err e ↦ (w, some (no_images e))
    | ok images ↦ (
      record w {
        store =
            store_image st (delete_image st w.store provider service region) provider service region
              images;
      },
      none,
    )
  ]

  pub scrape_service_region_images : World → String → String → Outcome
  unfolding store_images
  scrape_service_region_images w service region =
      if infoer.has_images then store_images w service region else (w, none)

  pub scrape_service_region_versions : World → String → String → Outcome
  scrape_service_region_versions w service region = elim (infoer.get_versions service region) [
    | err e ↦ (w, some (no_versions e))
    | ok versions ↦ (
      record w {
        store =
            store_version st (delete_version st w.store provider service region) provider service
              region versions;
      },
      none,
    )
  ]

  pub scrape_service_region_zones : World → String → String → Outcome
  scrape_service_region_zones w service region = elim (infoer.get_zones region) [
    | err e ↦ (w, some (no_zones e))
    | ok zones ↦ (
      record w {
        store =
            store_zones st (delete_zones st w.store provider service region) provider service region
              zones;
      },
      none,
    )
  ]

  -- `if err = …; err != nil { …; continue }`, where a failure is reported.
  pub or_report : String → String → Outcome → (World → Outcome) → Outcome
  unfolding emit
  or_report service region (w, none) next = next w
  or_report service region (w, some e) next = (emit w (failure_reported service region), some e)

  -- The same for the zones, whose failure is not reported.
  pub or_stop : Outcome → (World → Outcome) → Outcome
  or_stop (w, none) next = next w
  or_stop (w, some e) next = (w, some e)

  -- The body of the loop over the regions, step by step from its end.
  pub versions_step : World → String → String → Outcome
  versions_step w service region =
      or_report service region (scrape_service_region_versions w service region) λ w'. (w', none)

  pub images_step : World → String → String → Outcome
  images_step w service region =
      or_report service region (scrape_service_region_images w service region)
        λ w'. versions_step w' service region

  pub products_step : World → String → String → Outcome
  products_step w service region =
      or_report service region (scrape_service_region_products w service region)
        λ w'. images_step w' service region

  pub scrape_region : World → String → String → Outcome
  unfolding or_stop or_report products_step images_step versions_step
  scrape_region w service region =
      or_stop (scrape_service_region_zones w service region) λ w'. products_step w' service region

  -- The loop over the regions of a service.
  pub scrape_regions : World → String → List (String × String) → Option ScrapeError → Outcome
  scrape_regions w service [] last = (w, last)
  scrape_regions w service ((region, name) ∷ regions) last =
      let (w', error) = scrape_region w service region in
      scrape_regions w' service regions (last_error last error)

  -- The loop of `scrapePKEImages`, which stops at the first failure.
  pub pke_regions : World → String → List (String × String) → Outcome
  unfolding or_report
  pke_regions w service [] = (w, none)
  pke_regions w service ((region, name) ∷ regions) =
      or_report service region (scrape_service_region_images w service region)
        λ w'. pke_regions w' service regions

  pub pke_images : World → String → Outcome
  unfolding pke_regions emit
  pke_images w service = elim (infoer.get_regions service) [
    | err e ↦ (emit w (failure_reported service "N/A"), some (no_regions e))
    | ok regions ↦ pke_regions w service regions
  ]

  pub scrape_pke_images : World → Service → Outcome
  unfolding pke_images
  scrape_pke_images w service =
      if str_eq service.service "pke" then pke_images w service.service else (w, none)

  -- `if err := …; err != nil { sm.errorHandler.Handle(err) }`
  pub handle_error : Outcome → World
  unfolding emit
  handle_error (w, none) = w
  handle_error (w, some e) = emit w (handled e)

  -- The loop over the services, with `lastScrapeError`.
  pub scrape_service_region_info : World → List Service → Option ScrapeError → Outcome
  unfolding handle_error scrape_pke_images scrape_regions emit
  scrape_service_region_info w [] last = (w, last)
  scrape_service_region_info w (service ∷ services) last =
      let static =
        scrape_service_region_info (handle_error (scrape_pke_images w service)) services last in
      let dynamic : Outcome = elim (infoer.get_regions service.service) [
        | err e ↦ (emit w (failure_reported service.service "N/A"), some (no_regions e))
        | ok regions ↦
            let (w', last') =
              scrape_regions
                (record w {
                  store =
                      store_regions st (delete_regions st w.store provider service.service) provider
                        service.service regions;
                })
                service.service regions last in
            scrape_service_region_info w' services last'
      ] in
      if service.is_static then static else dynamic

  -- `updateStatus`; the time of the run is its argument.
  pub update_status : World → String → World
  update_status w now = record w { store = store_status st w.store provider now }

  pub finish_service_information : String → Outcome → World
  unfolding update_status emit
  finish_service_information now (w, none) = update_status w now
  finish_service_information now (w, some e) = emit w (handled e)

  pub scrape_service_information : World → String → World
  unfolding scrape_service_region_info finish_service_information emit
  scrape_service_information w now = elim (get_services st w.store provider) [
    | none ↦ emit w (failure_reported "N/A" "N/A")
    | some services ↦ finish_service_information now (scrape_service_region_info w services none)
  ]

  pub scrape : World → String → World
  unfolding initialize scrape_service_information emit
  scrape w now = emit (scrape_service_information (initialize w) now) (published provider)

  -- `scrapePricesInRegion`: after a failure the nil map is stored, that is nothing.
  pub scrape_prices_in_region : World → String → World
  unfolding store_prices emit
  scrape_prices_in_region w region = elim (infoer.get_current_prices region) [
    | err e ↦ emit (emit w (short_lived_failure_reported region)) (handled (no_prices e))
    | ok prices ↦ record w { store = store_prices w.store region prices }
  ]
