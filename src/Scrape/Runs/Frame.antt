-- ===== src/Scrape/Runs/Frame.antt =====
-- The entries that a run over all services does not touch.
use cloudinfo.Prelude.{
  String, ◌≡◌, refl, ap, ◌∙◌, ◌≢◌, inl, inr, true, false, List, [], ◌∷◌, Option, none, some,
  Bool-cases, All, str_eq,
}
use cloudinfo.Prelude.Text.{IsName}
use cloudinfo.Prelude.Maps.{HasDistinctKeys}
use cloudinfo.Prelude.Result.{ok, Result-cases}
use cloudinfo.Types.{Service, Price}
use cloudinfo.Store.Key.{Key, price_key, region_key, IsClean}
use cloudinfo.Store.Interface.{CloudInfoStore, fetch-replace_other, store_regions, delete_regions}
use cloudinfo.Scrape.{
  CloudInfoer, ScrapeError, World, Outcome, emit, store_prices, store_all_prices, initialize,
  scrape_regions, scrape_service_region_images, pke_regions, pke_images, scrape_pke_images,
  handle_error, scrape_service_region_info,
}
use cloudinfo.Scrape.Regions.Frame.{
  AreNames, IsElsewhere, images-fetch, or_report-fetch, scrape_regions-fetch,
}

module _ (st : CloudInfoStore) (infoer : CloudInfoer) (provider : String) where
  -- No name that the provider's client answers holds a slash, and a map has free key twice.
  pub record IsTidy : Type 0 where
    pub provider_name : IsName provider
    pub region_names :
        (service : String) (regions : List (String × String))
        → infoer.get_regions service ≡ ok regions
        → All (λ r. IsName r.0) regions
    pub regions_distinct :
        (service : String) (regions : List (String × String))
        → infoer.get_regions service ≡ ok regions
        → HasDistinctKeys regions
    pub price_names :
        (prices : List (String × List (String × Price)))
        → infoer.initialize ≡ ok prices
        → All (λ p. IsName p.0 × All (λ q. IsName q.0) p.1) prices

  -- The key is free entry of the service.
  pub record IsForeign (k : Key) (service : String) : Type 0 where
    pub elsewhere : (region : String) → IsElsewhere st infoer provider service region k
    pub regions : k ≢ region_key provider service

  abbrev pub IsNoPrice : Key → Type 0
  IsNoPrice k = (region inst_type : String) → k ≢ price_key provider region inst_type

  abbrev pub with_regions :
      World st infoer provider → String → List (String × String) → World st infoer provider
  with_regions w service regions = record w {
    store = store_regions st (delete_regions st w.store provider service) provider service regions;
  }

  -- The regions of a service are listed, stored and scraped.
  abbrev pub after_service :
      World st infoer provider
      → String
      → List (String × String)
      → Option ScrapeError
      → Outcome st infoer provider
  after_service w service regions last =
      scrape_regions st infoer provider (with_regions w service regions) service regions last

  pub after_static :
      (service : Service) (services : List Service) (w : World st infoer provider)
      (last : Option ScrapeError)
      → service.is_static ≡ true
      → scrape_service_region_info st infoer provider w (service ∷ services) last
        ≡ scrape_service_region_info st infoer provider
            (handle_error st infoer provider (scrape_pke_images st infoer provider w service))
            services
            last
  unfolding scrape_service_region_info
  after_static service services w last e = rw (e, scrape_service_region_info) refl

  pub after_dynamic :
      (service : Service) (services : List Service) (w : World st infoer provider)
      (last : Option ScrapeError) (regions : List (String × String))
      → service.is_static ≡ false
      → infoer.get_regions service.service ≡ ok regions
      → scrape_service_region_info st infoer provider w (service ∷ services) last
        ≡ scrape_service_region_info st infoer provider
            (after_service w service.service regions last).0
            services
            (after_service w service.service regions last).1
  unfolding scrape_service_region_info
  after_dynamic service services w last regions e r = rw (e, r, scrape_service_region_info) refl

  module _ (k : Key) (hk : IsClean k) (tidy : IsTidy) where
    store_prices-fetch :
        (region : String) (prices : List (String × Price)) (s : st.State)
        → IsNoPrice k
        → IsName region
        → All (λ q. IsName q.0) prices
        → st.fetch (store_prices st infoer provider s region prices) k ≡ st.fetch s k
    unfolding store_prices
    store_prices-fetch region [] s free n h = refl
    store_prices-fetch region ((t, price) ∷ rest) s free n (named, h) =
        store_prices-fetch region rest _ free n h
        ∙ st.fetch-put_other s k (price_key provider region t) price hk
            (tidy.provider_name, n, named) (free region t)

    store_all_prices-fetch :
        (prices : List (String × List (String × Price))) (s : st.State)
        → IsNoPrice k
        → All (λ p. IsName p.0 × All (λ q. IsName q.0) p.1) prices
        → st.fetch (store_all_prices st infoer provider s prices) k ≡ st.fetch s k
    unfolding store_all_prices
    store_all_prices-fetch [] s free h = refl
    store_all_prices-fetch ((region, prices) ∷ rest) s free ((n, named), h) =
        store_all_prices-fetch rest _ free h ∙ store_prices-fetch region prices s free n named

    pub initialize-fetch :
        (w : World st infoer provider)
        → IsNoPrice k
        → st.fetch (initialize st infoer provider w).store k ≡ st.fetch w.store k
    unfolding initialize emit
    initialize-fetch w free = elim (Result-cases infoer.initialize) [
      | inl (prices, e) ↦
          rw (e, initialize)
            (store_all_prices-fetch prices w.store free (tidy.price_names prices e))
      | inr (e, r) ↦ rw (r, initialize) refl
    ]

    pub all_AreNames :
        (service : String) (regions : List (String × String))
        → IsName service
        → All (λ r. IsName r.0) regions
        → All (λ r. AreNames st infoer provider service r.0) regions
    all_AreNames service [] n h = tt
    all_AreNames service (r ∷ regions) n (m, h) = (
      record { provider_name = tidy.provider_name; service_name = n; region_name = m },
      all_AreNames service regions n h,
    )

    all_elsewhere :
        (service : String) (regions : List (String × String))
        → IsForeign k service
        → All (λ r. AreNames st infoer provider service r.0) regions
        → All
            (λ r.
              AreNames st infoer provider service r.0
              × IsElsewhere st infoer provider service r.0 k)
            regions
    all_elsewhere service [] away h = tt
    all_elsewhere service ((r, name) ∷ regions) away (n, h) =
        ((n, away.elsewhere r), all_elsewhere service regions away h)

    pke_regions-fetch :
        (service : String) (regions : List (String × String)) (w : World st infoer provider)
        → IsForeign k service
        → All (λ r. AreNames st infoer provider service r.0) regions
        → st.fetch (pke_regions st infoer provider w service regions).0.store k ≡ st.fetch w.store k
    unfolding pke_regions
    pke_regions-fetch service [] w away h = refl
    pke_regions-fetch service ((region, name) ∷ regions) w away (n, h) =
        or_report-fetch st infoer provider service region k hk n w
          (scrape_service_region_images st infoer provider w service region)
          (λ v. pke_regions st infoer provider v service regions)
          (images-fetch st infoer provider service region k hk n w (away.elsewhere region).images)
          λ v. pke_regions-fetch service regions v away h

    pke_images-fetch :
        (service : String) (w : World st infoer provider)
        → IsForeign k service
        → IsName service
        → st.fetch (pke_images st infoer provider w service).0.store k ≡ st.fetch w.store k
    unfolding pke_images emit
    pke_images-fetch service w away n = elim (Result-cases (infoer.get_regions service)) [
      | inl (regions, e) ↦
          rw (e, pke_images)
            (pke_regions-fetch service regions w away
              (all_AreNames service regions n (tidy.region_names service regions e)))
      | inr (e, r) ↦ rw (r, pke_images) refl
    ]

    handle_error-store :
        (o : Outcome st infoer provider) → (handle_error st infoer provider o).store ≡ o.0.store
    unfolding handle_error emit
    handle_error-store (w, none) = refl
    handle_error-store (w, some e) = refl

    pub static-fetch :
        (service : Service) (w : World st infoer provider)
        → IsForeign k service.service
        → IsName service.service
        → st.fetch
            (handle_error st infoer provider (scrape_pke_images st infoer provider w service)).store
            k
          ≡ st.fetch w.store k
    unfolding scrape_pke_images
    static-fetch service w away n =
        ap (λ s. st.fetch s k) (handle_error-store (scrape_pke_images st infoer provider w service))
        ∙ elim (Bool-cases (str_eq service.service "pke")) [
          | inl e ↦ rw (e, scrape_pke_images) (pke_images-fetch service.service w away n)
          | inr e ↦ rw (e, scrape_pke_images) refl
        ]

    -- The regions of a service and what is stored for each of them.
    pub dynamic-fetch :
        (service : String) (regions : List (String × String)) (w : World st infoer provider)
        (last : Option ScrapeError)
        → IsForeign k service
        → IsName service
        → infoer.get_regions service ≡ ok regions
        → st.fetch
            (scrape_regions st infoer provider
              (with_regions w service regions)
              service
              regions
              last).0.store
            k
          ≡ st.fetch w.store k
    dynamic-fetch service regions w last away n e =
        scrape_regions-fetch st infoer provider service k regions (with_regions w service regions)
          last hk
          (all_elsewhere service regions away
            (all_AreNames service regions n (tidy.region_names service regions e)))
        ∙ fetch-replace_other st w.store k (region_key provider service) regions hk
            (tidy.provider_name, n) away.regions tt

    -- A run over services leaves every entry alone that belongs to none of them, whatever fails.
    pub scrape_service_region_info-fetch :
        (services : List Service) (w : World st infoer provider) (last : Option ScrapeError)
        → All (λ s. IsName s.service × IsForeign k s.service) services
        → st.fetch (scrape_service_region_info st infoer provider w services last).0.store k
          ≡ st.fetch w.store k
    unfolding scrape_service_region_info emit
    scrape_service_region_info-fetch [] w last h = refl
    scrape_service_region_info-fetch (service ∷ services) w last ((n, away), h) =
        elim (Bool-cases service.is_static) [
          | inl e ↦
              rw (e, scrape_service_region_info)
                (scrape_service_region_info-fetch services _ last h ∙ static-fetch service w away n)
          | inr e ↦ elim (Result-cases (infoer.get_regions service.service)) [
            | inl (regions, r) ↦
                rw (e, r, scrape_service_region_info)
                  (scrape_service_region_info-fetch services _ _ h
                    ∙ dynamic-fetch service.service regions w last away n r)
            | inr (x, r) ↦ rw (e, r, scrape_service_region_info) refl
          ]
        ]
