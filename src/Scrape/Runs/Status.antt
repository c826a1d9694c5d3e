-- ===== src/Scrape/Runs/Status.antt =====
-- When a run renews the status of its provider.
use cloudinfo.Prelude.{
  String, ◌≡◌, refl, ap, ◌∙◌, ◌⊎◌, inl, inr, false, List, [], ◌∷◌, Option, none, some, Bool-cases,
  All,
}
use cloudinfo.Prelude.Text.{IsName}
use cloudinfo.Prelude.Result.{ok}
use cloudinfo.Types.{Service}
use cloudinfo.Store.Key.{status_key, services_key}
use cloudinfo.Store.Interface.{CloudInfoStore, get_status, get_services}
use cloudinfo.Scrape.{
  CloudInfoer, ScrapeError, last_error, World, Outcome, emit, initialize, scrape_regions,
  scrape_service_region_info, update_status, finish_service_information, scrape_service_information,
  scrape,
}
use cloudinfo.Scrape.Regions.Frame.{AreNames}
use cloudinfo.Scrape.Regions.Stored.{Answers, scrape_region_lem}
use cloudinfo.Scrape.Runs.Frame.{
  IsTidy, IsForeign, initialize-fetch, all_AreNames, scrape_service_region_info-fetch, after_static,
  after_dynamic,
}
use cloudinfo.Scrape.Runs.Answered.{no_failure, IsServiceAnswered, services_answered}

module _ (st : CloudInfoStore) (infoer : CloudInfoer) (provider : String) where
  -- Each region of the service, if it is not static, has answers whatever is asked for it.
  abbrev pub IsServiceComplete : Service → Type 0
  IsServiceComplete s =
      s.is_static ≡ false
      → (regions : List (String × String)) × (infoer.get_regions s.service ≡ ok regions)
        × All (λ r. Answers st infoer provider s.service r.0) regions

  regions_complete :
      (service : String) (regions : List (String × String)) (w : World st infoer provider)
      (last : Option ScrapeError)
      → All (λ r. AreNames st infoer provider service r.0) regions
      → All (λ r. Answers st infoer provider service r.0) regions
      → (scrape_regions st infoer provider w service regions last).1 ≡ last
  unfolding scrape_regions
  regions_complete service [] w last n h = refl
  regions_complete service ((region, name) ∷ regions) w last (n, ns) (a, hs) =
      regions_complete service regions _ _ ns hs
      ∙ ap (λ o. last_error last o.1) (scrape_region_lem st infoer provider service region n a w)

  module _ (tidy : IsTidy st infoer provider) where
    services_complete :
        (services : List Service) (w : World st infoer provider) (last : Option ScrapeError)
        → All (λ s. IsName s.service) services
        → All IsServiceComplete services
        → (scrape_service_region_info st infoer provider w services last).1 ≡ last
    unfolding scrape_service_region_info
    services_complete [] w last n h = refl
    services_complete (s ∷ services) w last (n, ns) (h, hs) = elim (Bool-cases s.is_static) [
      | inl e ↦
          rw (after_static st infoer provider s services w last e)
            (services_complete services _ last ns hs)
      | inr e ↦
          let (regions, r, answers) = h e in
          rw (after_dynamic st infoer provider s services w last regions e r) (
            services_complete services _ _ ns hs
            ∙ regions_complete s.service regions _ last
                (all_AreNames st infoer provider (status_key provider) tidy.provider_name tidy
                  s.service regions n (tidy.region_names s.service regions r))
                answers)
    ]

    status-IsForeign :
        (services : List Service)
        → All (λ s. IsName s.service) services
        → All
            (λ s. IsName s.service × IsForeign st infoer provider (status_key provider) s.service)
            services
    status-IsForeign [] n = tt
    status-IsForeign (s ∷ services) (n, ns) = (
      (
        n,
        record {
          elsewhere =
              λ r. record { zones = λ e. cc; vms = λ e. cc; images = λ e. cc; versions = λ e. cc };
          regions = λ e. cc;
        },
      ),
      status-IsForeign services ns,
    )

    module _ (services : List Service) (w : World st infoer provider) (now : String)
        (stored : get_services st w.store provider ≡ some services)
        (n : All (λ s. IsName s.service) services) where
      abbrev info : Outcome st infoer provider
      info =
          scrape_service_region_info st infoer provider (initialize st infoer provider w) services
            none

      scrape-store :
          (scrape st infoer provider w now).store
          ≡ (finish_service_information st infoer provider now info).store
      unfolding scrape scrape_service_information emit
      scrape-store =
          rw
            (
              initialize-fetch st infoer provider (services_key provider) tidy.provider_name tidy w
                    (λ r t e. cc)
                  ∙ stored,
              scrape_service_information,
            )
            refl

      info-status : get_status st info.0.store provider ≡ get_status st w.store provider
      info-status =
          scrape_service_region_info-fetch st infoer provider (status_key provider)
            tidy.provider_name tidy services (initialize st infoer provider w) none
            (status-IsForeign services n)
          ∙ initialize-fetch st infoer provider (status_key provider) tidy.provider_name tidy w
              λ r t e. cc

      finish-status :
          (o : Outcome st infoer provider)
          → ((o.1 ≡ none)
              × (get_status st (finish_service_information st infoer provider now o).store provider
                  ≡ some now))
            ⊎ (get_status st (finish_service_information st infoer provider now o).store provider
                ≡ get_status st o.0.store provider)
      unfolding finish_service_information update_status emit
      finish-status (v, none) =
          inl (refl, st.fetch-put v.store (status_key provider) now tidy.provider_name)
      finish-status (v, some e) = inr refl

      -- A run never claims more than it did: either the status is the time of the run, and then
      -- the regions of every service that is not static and every call for each of them were
      -- answered, or the status is what it was before the run. No name holds a slash.
      pub scrape-status_sound :
          ((get_status st (scrape st infoer provider w now).store provider ≡ some now)
            × All (IsServiceAnswered st infoer provider) services)
          ⊎ (get_status st (scrape st infoer provider w now).store provider
              ≡ get_status st w.store provider)
      scrape-status_sound = elim (finish-status info) [
        | inl (e, h) ↦ inl (
          ap (λ s. get_status st s provider) scrape-store ∙ h,
          (services_answered st infoer provider services _ none e).1,
        )
        | inr h ↦ inr (ap (λ s. get_status st s provider) scrape-store ∙ h ∙ info-status)
      ]

      finish-status_none :
          (o : Outcome st infoer provider)
          → o.1 ≡ none
          → get_status st (finish_service_information st infoer provider now o).store provider
            ≡ some now
      unfolding finish_service_information update_status
      finish-status_none (v, none) h =
          st.fetch-put v.store (status_key provider) now tidy.provider_name
      finish-status_none (v, some e) h = no_failure e h

      -- A run to which every call is answered sets the status to its time. A failing `Initialize`
      -- or a failing list of images of the static service pke does not stand in the way. No name
      -- holds a slash.
      pub scrape-status_complete :
          All IsServiceComplete services
          → get_status st (scrape st infoer provider w now).store provider ≡ some now
      scrape-status_complete h =
          ap (λ s. get_status st s provider) scrape-store
          ∙ finish-status_none info (services_complete services _ none n h)
