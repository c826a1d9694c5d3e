-- ===== src/Scrape/Regions/Frame.antt =====
-- The entries that the scraping of a region does not touch.
use cloudinfo.Prelude.{
  String, ◌≡◌, refl, ap, ◌∙◌, ◌≢◌, inl, inr, List, [], ◌∷◌, Option, none, some, Bool-cases, All,
}
use cloudinfo.Prelude.Text.{IsName}
use cloudinfo.Prelude.Result.{Result-cases}
use cloudinfo.Store.Key.{Key, vm_key, zone_key, image_key, version_key, IsClean}
use cloudinfo.Store.Interface.{CloudInfoStore, get_vm, store_vm, fetch-replace_other}
use cloudinfo.Scrape.{
  CloudInfoer, ScrapeError, or_nil, World, Outcome, scrape_region, scrape_regions,
  scrape_service_region_zones, scrape_service_region_products, scrape_service_region_images,
  scrape_service_region_versions, store_images, or_stop, or_report, last_error, versions_step,
  images_step, products_step,
}
use cloudinfo.Scrape.Machines.{scrape_service_region_products_lem}

module _ (st : CloudInfoStore) (infoer : CloudInfoer) (provider : String) where
  -- The key is none of the four under which a region's data are stored.
  pub record IsElsewhere (service region : String) (k : Key) : Type 0 where
    pub zones : k ≢ zone_key provider service region
    pub vms : k ≢ vm_key provider service region
    pub images : k ≢ image_key provider service region
    pub versions : k ≢ version_key provider service region

  pub record AreNames (service region : String) : Type 0 where
    pub provider_name : IsName provider
    pub service_name : IsName service
    pub region_name : IsName region

  module _ (service region : String) (k : Key) (hk : IsClean k) (n : AreNames service region) where
    names : IsName provider × IsName service × IsName region
    names = (n.provider_name, n.service_name, n.region_name)

    pub zones-fetch :
        (w : World st infoer provider)
        → k ≢ zone_key provider service region
        → st.fetch (scrape_service_region_zones st infoer provider w service region).0.store k
          ≡ st.fetch w.store k
    unfolding scrape_service_region_zones
    zones-fetch w other = elim (Result-cases (infoer.get_zones region)) [
      | inl (zones, e) ↦
          rw (e, scrape_service_region_zones)
            (fetch-replace_other st w.store k _ zones hk names other tt)
      | inr (e, r) ↦ rw (r, scrape_service_region_zones)
    ]

    pub products-fetch :
        (w : World st infoer provider)
        → k ≢ vm_key provider service region
        → st.fetch (scrape_service_region_products st infoer provider w service region).0.store k
          ≡ st.fetch w.store k
    unfolding scrape_service_region_products
    products-fetch w other =
        elim (Result-cases (
          infoer.get_products (or_nil (get_vm st w.store provider service region)) service
            region)) [
              | inl (values, e) ↦
                  ap (λ o. st.fetch o.0.store k)
                    (scrape_service_region_products_lem st infoer provider w service region values
                      n.provider_name n.service_name n.region_name e)
                  ∙ fetch-replace_other st (store_vm st w.store provider service region values) k _
                      _ hk names other tt
                  ∙ st.fetch-put_other w.store k _ values hk names other
              | inr (e, r) ↦ rw (r, scrape_service_region_products)
            ]

    pub images-fetch :
        (w : World st infoer provider)
        → k ≢ image_key provider service region
        → st.fetch (scrape_service_region_images st infoer provider w service region).0.store k
          ≡ st.fetch w.store k
    unfolding scrape_service_region_images store_images
    images-fetch w other = elim (Bool-cases infoer.has_images) [
      | inr skipped ↦ rw (skipped, scrape_service_region_images)
      | inl has ↦ elim (Result-cases (infoer.get_service_images service region)) [
        | inl (images, e) ↦
            rw (has, scrape_service_region_images)
              (rw (e, store_images) (fetch-replace_other st w.store k _ images hk names other tt))
        | inr (e, r) ↦ rw (has, scrape_service_region_images) (rw (r, store_images))
      ]
    ]

    pub versions-fetch :
        (w : World st infoer provider)
        → k ≢ version_key provider service region
        → st.fetch (scrape_service_region_versions st infoer provider w service region).0.store k
          ≡ st.fetch w.store k
    unfolding scrape_service_region_versions
    versions-fetch w other = elim (Result-cases (infoer.get_versions service region)) [
      | inl (versions, e) ↦
          rw (e, scrape_service_region_versions)
            (fetch-replace_other st w.store k _ versions hk names other tt)
      | inr (e, r) ↦ rw (r, scrape_service_region_versions)
    ]

    or_stop-fetch :
        (w : World st infoer provider) (o : Outcome st infoer provider)
        (next : World st infoer provider → Outcome st infoer provider)
        → st.fetch o.0.store k ≡ st.fetch w.store k
        → ((v : World st infoer provider) → st.fetch (next v).0.store k ≡ st.fetch v.store k)
        → st.fetch (or_stop st infoer provider o next).0.store k ≡ st.fetch w.store k
    unfolding or_stop
    or_stop-fetch w (v, none) next h step = step v ∙ h
    or_stop-fetch w (v, some e) next h step = h

    pub or_report-fetch :
        (w : World st infoer provider) (o : Outcome st infoer provider)
        (next : World st infoer provider → Outcome st infoer provider)
        → st.fetch o.0.store k ≡ st.fetch w.store k
        → ((v : World st infoer provider) → st.fetch (next v).0.store k ≡ st.fetch v.store k)
        → st.fetch (or_report st infoer provider service region o next).0.store k
          ≡ st.fetch w.store k
    unfolding or_report
    or_report-fetch w (v, none) next h step = step v ∙ h
    or_report-fetch w (v, some e) next h step = h

    versions_step-fetch :
        (w : World st infoer provider)
        → IsElsewhere service region k
        → st.fetch (versions_step st infoer provider w service region).0.store k
          ≡ st.fetch w.store k
    unfolding versions_step
    versions_step-fetch w away =
        or_report-fetch w (scrape_service_region_versions st infoer provider w service region)
          (λ v. (v, none)) (versions-fetch w away.versions) λ v. refl

    images_step-fetch :
        (w : World st infoer provider)
        → IsElsewhere service region k
        → st.fetch (images_step st infoer provider w service region).0.store k ≡ st.fetch w.store k
    unfolding images_step
    images_step-fetch w away =
        or_report-fetch w (scrape_service_region_images st infoer provider w service region)
          (λ v. versions_step st infoer provider v service region) (images-fetch w away.images)
          λ v. versions_step-fetch v away

    products_step-fetch :
        (w : World st infoer provider)
        → IsElsewhere service region k
        → st.fetch (products_step st infoer provider w service region).0.store k
          ≡ st.fetch w.store k
    unfolding products_step
    products_step-fetch w away =
        or_report-fetch w (scrape_service_region_products st infoer provider w service region)
          (λ v. images_step st infoer provider v service region) (products-fetch w away.vms)
          λ v. images_step-fetch v away

    -- Whether it succeeds or fails, the scraping of a region leaves every entry alone that is not
    -- one of the region's four. No name in the keys holds a slash.
    pub scrape_region-fetch :
        (w : World st infoer provider)
        → IsElsewhere service region k
        → st.fetch (scrape_region st infoer provider w service region).0.store k
          ≡ st.fetch w.store k
    unfolding scrape_region
    scrape_region-fetch w away =
        or_stop-fetch w (scrape_service_region_zones st infoer provider w service region)
          (λ v. products_step st infoer provider v service region) (zones-fetch w away.zones)
          λ v. products_step-fetch v away

  -- So do the regions of a service, one after the other.
  pub scrape_regions-fetch :
      (service : String) (k : Key) (regions : List (String × String)) (w : World st infoer provider)
      (last : Option ScrapeError)
      → IsClean k
      → All (λ r. AreNames service r.0 × IsElsewhere service r.0 k) regions
      → st.fetch (scrape_regions st infoer provider w service regions last).0.store k
        ≡ st.fetch w.store k
  unfolding scrape_regions
  scrape_regions-fetch service k [] w last hk h = refl
  scrape_regions-fetch service k ((region, name) ∷ regions) w last hk ((n, away), hs) =
      scrape_regions-fetch service k regions (scrape_region st infoer provider w service region).0
        (last_error last (scrape_region st infoer provider w service region).1) hk hs
      ∙ scrape_region-fetch service region k hk n w away
