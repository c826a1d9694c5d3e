-- ===== src/Scrape/Runs/Answered.antt =====
-- The calls that were answered when the regions of the services report no failure.
use cloudinfo.Prelude.{
  String, ◌≡◌, refl, inl, inr, true, false, List, [], ◌∷◌, Option, none, some, Bool-cases, All,
}
use cloudinfo.Prelude.Result.{ok, Result-cases}
use cloudinfo.Types.{Service, VmInfo, Image, LocationVersion}
use cloudinfo.Store.Interface.{CloudInfoStore, get_vm}
use cloudinfo.Scrape.{
  CloudInfoer, ScrapeError, last_error, or_nil, World, Outcome, emit, scrape_region, scrape_regions,
  scrape_service_region_zones, scrape_service_region_products, scrape_service_region_images,
  scrape_service_region_versions, store_images, or_stop, or_report, versions_step, images_step,
  products_step, scrape_service_region_info,
}
use cloudinfo.Scrape.Runs.Frame.{after_static, after_dynamic}

pub no_failure : {B : Type 0} (e : ScrapeError) → ◌≡◌ {A = Option ScrapeError} (some e) none → B
no_failure e h = cc

last_error-none :
    (last e : Option ScrapeError) → last_error last e ≡ none → (last ≡ none) × (e ≡ none)
last_error-none last none h = (h, refl)
last_error-none last (some e) h = cc

module _ (st : CloudInfoStore) (infoer : CloudInfoer) (provider : String) where
  -- The provider's client answered each call that a run makes for the region.
  pub record IsAnswered (service region : String) : Type 0 where
    pub zones : (zones : List String) × (infoer.get_zones region ≡ ok zones)
    pub products :
        (asked : List VmInfo) × (vms : List VmInfo) × (infoer.get_products asked service region
          ≡ ok vms)
    pub images :
        infoer.has_images ≡ true
        → (images : List Image) × (infoer.get_service_images service region ≡ ok images)
    pub versions :
        (versions : List LocationVersion) × (infoer.get_versions service region ≡ ok versions)

  -- Its regions and each of them, if the service is not static.
  abbrev pub IsServiceAnswered : Service → Type 0
  IsServiceAnswered s =
      s.is_static ≡ false
      → (regions : List (String × String)) × (infoer.get_regions s.service ≡ ok regions)
        × All (λ r. IsAnswered s.service r.0) regions

  module _ (service region : String) where
    zones_answered :
        (w : World st infoer provider)
        → (scrape_service_region_zones st infoer provider w service region).1 ≡ none
        → (zones : List String) × (infoer.get_zones region ≡ ok zones)
    unfolding scrape_service_region_zones
    zones_answered w h = elim (Result-cases (infoer.get_zones region)) [
      | inl answer ↦ answer
      | inr (e, r) ↦ no_failure _ (rw (r, scrape_service_region_zones) at h)
    ]

    products_answered :
        (w : World st infoer provider)
        → (scrape_service_region_products st infoer provider w service region).1 ≡ none
        → (asked : List VmInfo) × (vms : List VmInfo) × (infoer.get_products asked service region
            ≡ ok vms)
    unfolding scrape_service_region_products
    products_answered w h =
        let asked : List VmInfo = or_nil (get_vm st w.store provider service region) in
        elim (Result-cases (infoer.get_products asked service region)) [
          | inl (vms, e) ↦ (asked, vms, e)
          | inr (e, r) ↦ no_failure _ (rw (r, scrape_service_region_products) at h)
        ]

    images_answered :
        (w : World st infoer provider)
        → (scrape_service_region_images st infoer provider w service region).1 ≡ none
        → infoer.has_images ≡ true
        → (images : List Image) × (infoer.get_service_images service region ≡ ok images)
    unfolding scrape_service_region_images store_images
    images_answered w h has = elim (Result-cases (infoer.get_service_images service region)) [
      | inl answer ↦ answer
      | inr (e, r) ↦ no_failure _ (rw (has, r, scrape_service_region_images, store_images) at h)
    ]

    versions_answered :
        (w : World st infoer provider)
        → (scrape_service_region_versions st infoer provider w service region).1 ≡ none
        → (versions : List LocationVersion) × (infoer.get_versions service region ≡ ok versions)
    unfolding scrape_service_region_versions
    versions_answered w h = elim (Result-cases (infoer.get_versions service region)) [
      | inl answer ↦ answer
      | inr (e, r) ↦ no_failure _ (rw (r, scrape_service_region_versions) at h)
    ]

    or_stop_ends :
        (o : Outcome st infoer provider)
        (next : World st infoer provider → Outcome st infoer provider)
        → (or_stop st infoer provider o next).1 ≡ none
        → (o.1 ≡ none) × ((next o.0).1 ≡ none)
    unfolding or_stop
    or_stop_ends (w, none) next h = (refl, h)
    or_stop_ends (w, some e) next h = no_failure e h

    or_report_ends :
        (o : Outcome st infoer provider)
        (next : World st infoer provider → Outcome st infoer provider)
        → (or_report st infoer provider service region o next).1 ≡ none
        → (o.1 ≡ none) × ((next o.0).1 ≡ none)
    unfolding or_report
    or_report_ends (w, none) next h = (refl, h)
    or_report_ends (w, some e) next h = no_failure e h

    region-IsAnswered :
        (w : World st infoer provider)
        → (scrape_region st infoer provider w service region).1 ≡ none
        → IsAnswered service region
    unfolding scrape_region products_step images_step versions_step
    region-IsAnswered w h =
        let (z, h1) =
          or_stop_ends (scrape_service_region_zones st infoer provider w service region)
            (λ v. products_step st infoer provider v service region) h in
        let (p, h2) = or_report_ends _ (λ v. images_step st infoer provider v service region) h1 in
        let (i, h3) =
          or_report_ends _ (λ v. versions_step st infoer provider v service region) h2 in
        let (l, h4) = or_report_ends _ (λ v. (v, none)) h3 in
        record {
          zones = zones_answered _ z;
          products = products_answered _ p;
          images = images_answered _ i;
          versions = versions_answered _ l;
        }

  regions-IsAnswered :
      (service : String) (regions : List (String × String)) (w : World st infoer provider)
      (last : Option ScrapeError)
      → (scrape_regions st infoer provider w service regions last).1 ≡ none
      → (last ≡ none) × All (λ r. IsAnswered service r.0) regions
  unfolding scrape_regions
  regions-IsAnswered service [] w last h = (h, tt)
  regions-IsAnswered service ((region, name) ∷ regions) w last h =
      let o : Outcome st infoer provider = scrape_region st infoer provider w service region in
      let (e, hs) = regions-IsAnswered service regions o.0 (last_error last o.1) h in
      let (l, n) = last_error-none last o.1 e in (l, (region-IsAnswered service region w n, hs))

  pub services_answered :
      (services : List Service) (w : World st infoer provider) (last : Option ScrapeError)
      → (scrape_service_region_info st infoer provider w services last).1 ≡ none
      → (last ≡ none) × All IsServiceAnswered services
  unfolding scrape_service_region_info emit
  services_answered [] w last h = (h, tt)
  services_answered (s ∷ services) w last h = elim (Bool-cases s.is_static) [
    | inl e ↦
        let (l, hs) =
          services_answered services _ last
            (rw (after_static st infoer provider s services w last e) at h) in
        (l, ((λ d. cc), hs))
    | inr e ↦ elim (Result-cases (infoer.get_regions s.service)) [
      | inl (regions, r) ↦
          let (l, hs) =
            services_answered services _ _
              (rw (after_dynamic st infoer provider s services w last regions e r) at h) in
          let (l', answered) = regions-IsAnswered s.service regions _ last l in
          (l', ((λ d. (regions, r, answered)), hs))
      | inr (x, r) ↦ no_failure _ (rw (e, r, scrape_service_region_info) at h)
    ]
  ]
