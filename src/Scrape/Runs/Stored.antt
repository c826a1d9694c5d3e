-- ===== src/Scrape/Runs/Stored.antt =====
-- What a run over all services leaves in the store for a region whose calls are answered.
use cloudinfo.Prelude.{
  String, ◌≡◌, refl, sym, ap, ◌∙◌, ◌≢◌, inl, inr, false, List, [], ◌∷◌, Option, none, some,
  Bool-cases, All, All-In, In, subst,
}
use cloudinfo.Prelude.Text.{IsName}
use cloudinfo.Prelude.Result.{ok}
use cloudinfo.Types.{Service}
use cloudinfo.Store.Key.{vm_key, region_key, services_key, status_key}
use cloudinfo.Store.Interface.{
  CloudInfoStore, get_vm, get_services, fetch-replace_other, delete_regions,
}
use cloudinfo.Scrape.{
  CloudInfoer, ScrapeError, or_nil, World, Outcome, emit, initialize, scrape_regions,
  scrape_service_region_info, update_status, finish_service_information, scrape_service_information,
  scrape,
}
use cloudinfo.Scrape.Regions.Frame.{AreNames, scrape_regions-fetch}
use cloudinfo.Scrape.Regions.Stored.{Answers, IsScraped}
use cloudinfo.Scrape.Regions.{scrape_regions-IsScraped}
use cloudinfo.Scrape.Runs.Frame.{
  after_service, after_static, after_dynamic, IsTidy, initialize-fetch, all_AreNames, with_regions,
}
use cloudinfo.Scrape.Runs.Kept.{
  IsMissing, AreDistinct, IsListed, IsMissing-In, IsComplete, known, AllKept, clean, all_kept,
  IsComplete-kept, known-kept, static_kept, dynamic_kept, later_kept, own_regions_names,
}

module _ (st : CloudInfoStore) (infoer : CloudInfoer) (provider : String) where
  module _ (tidy : IsTidy st infoer provider) (service region : String) (hs : IsName service)
      (hr : IsName region) where
    module _ (name : String) (regions : List (String × String))
        (a : Answers st infoer provider service region)
        (listed : infoer.get_regions service ≡ ok regions) (m : In (region, name) regions) where
      own_names : All (λ r. AreNames st infoer provider service r.0) regions
      own_names =
          all_AreNames st infoer provider (region_key provider service) (tidy.provider_name, hs)
            tidy service regions hs (tidy.region_names service regions listed)

      own_service :
          (w : World st infoer provider) (last : Option ScrapeError)
          → IsComplete st infoer provider service region regions a
              (known st infoer provider tidy service region hs hr w)
              (scrape_regions st infoer provider
                (with_regions st infoer provider w service regions)
                service
                regions
                last).0.store
      own_service w last = record {
        regions_stored =
            scrape_regions-fetch st infoer provider service (region_key provider service) regions _
              last (tidy.provider_name, hs)
              (own_regions_names st infoer provider tidy service region hs hr regions regions
                own_names)
            ∙ st.fetch-put (delete_regions st w.store provider service)
                (region_key provider service) regions (tidy.provider_name, hs);
        scraped =
            subst
              (λ vms.
                IsScraped st infoer provider service region a vms
                  (scrape_regions st infoer provider
                    (with_regions st infoer provider w service regions) service regions
                    last).0.store)
              (ap or_nil (
                fetch-replace_other st w.store (vm_key provider service region)
                  (region_key provider service) regions
                  (clean st infoer provider tidy service region hs hr) (tidy.provider_name, hs)
                  (λ e. cc) tt))
              (scrape_regions-IsScraped st infoer provider service region name a regions
                (with_regions st infoer provider w service regions) last m own_names
                (tidy.regions_distinct service regions listed));
      }

      own_service_kept :
          (s : Service) (services : List Service) (w : World st infoer provider)
          (last : Option ScrapeError)
          → s.service ≡ service
          → s.is_static ≡ false
          → All (λ t. IsName t.service) services
          → IsMissing service services
          → IsComplete st infoer provider service region regions a
              (known st infoer provider tidy service region hs hr w)
              (scrape_service_region_info st infoer provider w (s ∷ services) last).0.store
      own_service_kept s services w last named dynamic h missing =
          let answered : infoer.get_regions s.service ≡ ok regions =
            ap infoer.get_regions named ∙ listed in
          rw (after_dynamic st infoer provider s services w last regions dynamic answered) (
            subst
              (λ x.
                IsComplete st infoer provider service region regions a
                  (known st infoer provider tidy service region hs hr w)
                  (scrape_service_region_info st infoer provider
                    (after_service st infoer provider w x regions last).0 services
                    (after_service st infoer provider w x regions last).1).0.store)
              (sym named)
              (IsComplete-kept st infoer provider tidy service region hs hr regions a
                (known st infoer provider tidy service region hs hr w)
                (after_service st infoer provider w service regions last).0 _
                (later_kept st infoer provider tidy service region hs hr services _ _ h missing)
                (own_service w last)))

      seen_before :
          (v w : World st infoer provider) (s : st.State)
          → AllKept st infoer provider tidy service region hs hr v w
          → IsComplete st infoer provider service region regions a
              (known st infoer provider tidy service region hs hr w)
              s
          → IsComplete st infoer provider service region regions a
              (known st infoer provider tidy service region hs hr v)
              s
      seen_before v w s h =
          subst (λ vms. IsComplete st infoer provider service region regions a vms s)
            (known-kept st infoer provider tidy service region hs hr v w h)

      run_services-IsComplete :
          (ours : Service) (services : List Service) (w : World st infoer provider)
          (last : Option ScrapeError)
          → In ours services
          → ours.service ≡ service
          → ours.is_static ≡ false
          → All (λ t. IsName t.service) services
          → AreDistinct services
          → All (IsListed infoer) services
          → IsComplete st infoer provider service region regions a
              (known st infoer provider tidy service region hs hr w)
              (scrape_service_region_info st infoer provider w services last).0.store
      run_services-IsComplete ours [] w last i named dynamic n d l = elim i [ ]
      run_services-IsComplete ours (s ∷ services) w last (inl e) named dynamic (n, ns) (d, ds) l =
          let same : s.service ≡ service = ap (λ x. x.service) (sym e) ∙ named in
          own_service_kept s services w last same (ap (λ x. x.is_static) (sym e) ∙ dynamic) ns
            (subst (λ x. IsMissing x services) same d)
      run_services-IsComplete ours (s ∷ services) w last (inr i) named dynamic (n, ns) (d, ds)
            (l, ls) =
          let ne : s.service ≢ service =
            λ e. IsMissing-In s.service services ours d i (e ∙ sym named) in
          elim (Bool-cases s.is_static) [
            | inl e ↦ rw (after_static st infoer provider s services w last e) (
                seen_before w _ _
                  (static_kept st infoer provider tidy service region hs hr s w n ne)
                  (run_services-IsComplete ours services _ last i named dynamic ns ds ls))
            | inr e ↦ rw (after_dynamic st infoer provider s services w last (l e).0 e (l e).1) (
                seen_before w _ _
                  (dynamic_kept st infoer provider tidy service region hs hr s (l e).0 w last n ne
                    (l e).1)
                  (run_services-IsComplete ours services _ _ i named dynamic ns ds ls))
          ]

    finish_kept :
        (now : String) (o : Outcome st infoer provider)
        → AllKept st infoer provider tidy service region hs hr o.0
            (finish_service_information st infoer provider now o)
    unfolding finish_service_information update_status emit
    finish_kept now (w, none) =
        all_kept st infoer provider tidy service region hs hr w _ λ k hk other away.
          st.fetch-put_other w.store k (status_key provider) now hk tidy.provider_name other
    finish_kept now (w, some e) =
        all_kept st infoer provider tidy service region hs hr w _ λ k hk other away. refl

    initialize-known :
        (w : World st infoer provider)
        → known st infoer provider tidy service region hs hr (initialize st infoer provider w)
          ≡ known st infoer provider tidy service region hs hr w
    initialize-known w = ap or_nil (
        initialize-fetch st infoer provider (vm_key provider service region)
          (clean st infoer provider tidy service region hs hr) tidy w λ r t e. cc)

    initialize-services :
        (w : World st infoer provider) (services : List Service)
        → get_services st w.store provider ≡ some services
        → get_services st (initialize st infoer provider w).store provider ≡ some services
    initialize-services w services h =
        initialize-fetch st infoer provider (services_key provider) tidy.provider_name tidy w
          (λ r t e. cc)
        ∙ h

module _ (st : CloudInfoStore) (infoer : CloudInfoer) (provider : String)
    (tidy : IsTidy st infoer provider) where
  -- A run completes every region whose calls are answered: if no service's list of regions fails,
  -- then after `scrape` the store has the regions of the service and, for the region, the zones,
  -- versions and images (where there are images) that were answered, and the machines answered
  -- for those that the store had before the run, at the prices that it has after the run. The
  -- service is one of the stored ones and not static, none stands twice, and no name has a slash.
  pub scrape-IsComplete :
      (ours : Service) (services : List Service) (region name : String)
      (regions : List (String × String)) (a : Answers st infoer provider ours.service region)
      (w : World st infoer provider) (now : String)
      → get_services st w.store provider ≡ some services
      → In ours services
      → ours.is_static ≡ false
      → infoer.get_regions ours.service ≡ ok regions
      → In (region, name) regions
      → IsName region
      → All (λ s. IsName s.service) services
      → AreDistinct services
      → All (IsListed infoer) services
      → IsComplete st infoer provider ours.service region regions a
          (or_nil (get_vm st w.store provider ours.service region))
          (scrape st infoer provider w now).store
  unfolding scrape scrape_service_information emit
  scrape-IsComplete ours services region name regions a w now stored i dynamic listed m hr n d l =
      let hs : IsName ours.service = All-In (λ s. IsName s.service) services n ours i in
      let v : World st infoer provider = initialize st infoer provider w in
      let o : Outcome st infoer provider =
        scrape_service_region_info st infoer provider v services none in
      subst
        (λ vms.
          IsComplete st infoer provider ours.service region regions a vms
            (scrape st infoer provider w now).store)
        (initialize-known st infoer provider tidy ours.service region hs hr w)
        (rw
          (
            initialize-services st infoer provider tidy ours.service region hs hr w services stored,
            scrape_service_information,
          )
          (IsComplete-kept st infoer provider tidy ours.service region hs hr regions a _ o.0 _
            (finish_kept st infoer provider tidy ours.service region hs hr now o)
            (run_services-IsComplete st infoer provider tidy ours.service region hs hr name regions
              a listed m ours services v none i refl dynamic n d l)))
