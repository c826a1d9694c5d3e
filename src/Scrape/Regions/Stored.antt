-- ===== src/Scrape/Regions/Stored.antt =====
-- The entries that a region has after it has been scraped without a failure.
use cloudinfo.Prelude.{
  String, ◌≡◌, refl, ap, ◌∙◌, ◌≢◌, Bool, true, false, List, Option, none, some, Bool-cases, inl,
  inr,
}
use cloudinfo.Prelude.Text.{IsName}
use cloudinfo.Prelude.Result.{ok}
use cloudinfo.Types.{VmInfo, Image, LocationVersion}
use cloudinfo.Store.Key.{Key, vm_key, price_key, zone_key, image_key, version_key, IsClean}
use cloudinfo.Store.Interface.{
  CloudInfoStore, get_vm, get_price, get_zones, get_image, get_version, store_vm, delete_zones,
  delete_image, delete_version, fetch-replace_other,
}
use cloudinfo.Scrape.{
  CloudInfoer, or_nil, World, Outcome, virtual_machines, scrape_region, scrape_service_region_zones,
  scrape_service_region_products, scrape_service_region_images, scrape_service_region_versions,
  store_images, or_stop, or_report, versions_step, images_step, products_step,
}
use cloudinfo.Scrape.Machines.{with_machines, scrape_service_region_products_lem}
use cloudinfo.Scrape.Regions.Frame.{
  AreNames, zones-fetch, products-fetch, images-fetch, versions-fetch,
}

-- What is stored of the images, which not every provider has.
abbrev pub ImagesStored : Bool → Option (List Image) → List Image → Type 0
ImagesStored true stored images = stored ≡ some images
ImagesStored false stored images = Unit

module _ (st : CloudInfoStore) (infoer : CloudInfoer) (provider service region : String) where
  -- The provider's client answers each call of a run for the region; images are only asked for if
  -- the provider has them.
  pub record Answers : Type 0 where
    pub zones : List String
    pub zones_ok : infoer.get_zones region ≡ ok zones
    pub products : List VmInfo → List VmInfo
    pub products_ok :
        (vms : List VmInfo) → infoer.get_products vms service region ≡ ok (products vms)
    pub images : List Image
    pub images_ok : infoer.has_images ≡ true → infoer.get_service_images service region ≡ ok images
    pub versions : List LocationVersion
    pub versions_ok : infoer.get_versions service region ≡ ok versions

  -- The store's entries after the provider's answers, where `seen` are the machines that it was
  -- asked to fill in. `before` is the store from which the prices of the machines were read.
  pub record IsScraped (a : Answers) (seen : List VmInfo) (s : st.State) : Type 0 where
    pub zones : get_zones st s provider service region ≡ some a.zones
    pub before : st.State
    pub prices :
        (inst_type : String)
        → IsName inst_type
        → get_price st s provider region inst_type ≡ get_price st before provider region inst_type
    pub machines :
        get_vm st s provider service region
        ≡ some (virtual_machines st infoer provider before region (a.products seen))
    pub images : ImagesStored infoer.has_images (get_image st s provider service region) a.images
    pub versions : get_version st s provider service region ≡ some a.versions

  ImagesStored-store :
      (b : Bool) (o o' : Option (List Image)) (images : List Image)
      → o' ≡ o
      → ImagesStored b o images
      → ImagesStored b o' images
  ImagesStored-store true o o' images e h = e ∙ h
  ImagesStored-store false o o' images e h = tt

  -- A store that agrees on the entries of the region.
  pub record Agrees (s t : st.State) : Type 0 where
    pub zones :
        st.fetch t (zone_key provider service region)
        ≡ st.fetch s (zone_key provider service region)
    pub vms :
        st.fetch t (vm_key provider service region) ≡ st.fetch s (vm_key provider service region)
    pub images :
        st.fetch t (image_key provider service region)
        ≡ st.fetch s (image_key provider service region)
    pub versions :
        st.fetch t (version_key provider service region)
        ≡ st.fetch s (version_key provider service region)
    pub prices :
        (inst_type : String)
        → IsName inst_type
        → st.fetch t (price_key provider region inst_type)
          ≡ st.fetch s (price_key provider region inst_type)

  pub IsScraped-store :
      (a : Answers) (seen : List VmInfo) (s t : st.State)
      → Agrees s t
      → IsScraped a seen s
      → IsScraped a seen t
  IsScraped-store a seen s t g c = record {
    zones = g.zones ∙ c.zones;
    before = c.before;
    prices = λ i n. g.prices i n ∙ c.prices i n;
    machines = g.vms ∙ c.machines;
    images = ImagesStored-store infoer.has_images _ _ a.images g.images c.images;
    versions = g.versions ∙ c.versions;
  }

  or_stop-none :
      (o : Outcome st infoer provider)
      (next : World st infoer provider → Outcome st infoer provider)
      → o.1 ≡ none
      → or_stop st infoer provider o next ≡ next o.0
  unfolding or_stop
  or_stop-none (w, none) next h = refl
  or_stop-none (w, some e) next h = cc

  or_report-none :
      (o : Outcome st infoer provider)
      (next : World st infoer provider → Outcome st infoer provider)
      → o.1 ≡ none
      → or_report st infoer provider service region o next ≡ next o.0
  unfolding or_report
  or_report-none (w, none) next h = refl
  or_report-none (w, some e) next h = cc

  module _ (n : AreNames st infoer provider service region) (a : Answers)
      (w : World st infoer provider) where
    clean : IsName provider × IsName service × IsName region
    clean = (n.provider_name, n.service_name, n.region_name)

    abbrev after_zones : Outcome st infoer provider
    after_zones = scrape_service_region_zones st infoer provider w service region

    abbrev after_products : Outcome st infoer provider
    after_products = scrape_service_region_products st infoer provider after_zones.0 service region

    abbrev after_images : Outcome st infoer provider
    after_images = scrape_service_region_images st infoer provider after_products.0 service region

    abbrev after_versions : Outcome st infoer provider
    after_versions = scrape_service_region_versions st infoer provider after_images.0 service region

    zones_stored :
        (after_zones.1 ≡ none)
        × (st.fetch after_zones.0.store (zone_key provider service region) ≡ some a.zones)
    unfolding scrape_service_region_zones
    zones_stored =
        rw (a.zones_ok, scrape_service_region_zones)
          (
            refl,
            st.fetch-put (delete_zones st w.store provider service region)
                (zone_key provider service region) a.zones clean,
          )

    products_answered : after_products ≡ (
      with_machines st infoer provider after_zones.0 service region
          (a.products (or_nil (get_vm st after_zones.0.store provider service region))),
      none,
    )
    products_answered =
        scrape_service_region_products_lem st infoer provider after_zones.0 service region _
          n.provider_name n.service_name n.region_name (a.products_ok _)

    images_stored :
        (after_images.1 ≡ none)
        × ImagesStored infoer.has_images
            (st.fetch after_images.0.store (image_key provider service region))
            a.images
    unfolding scrape_service_region_images store_images
    images_stored = elim (Bool-cases infoer.has_images) [
      | inr e ↦ rw (e, scrape_service_region_images) (refl, tt)
      | inl e ↦
          rw (e, scrape_service_region_images)
            (rw (a.images_ok e, store_images)
              (
                refl,
                st.fetch-put (delete_image st after_products.0.store provider service region)
                    (image_key provider service region) a.images clean,
              ))
    ]

    versions_stored :
        (after_versions.1 ≡ none)
        × (st.fetch after_versions.0.store (version_key provider service region) ≡ some a.versions)
    unfolding scrape_service_region_versions
    versions_stored =
        rw (a.versions_ok, scrape_service_region_versions)
          (
            refl,
            st.fetch-put (delete_version st after_images.0.store provider service region)
                (version_key provider service region) a.versions clean,
          )

    -- With every call answered a region is scraped to its end.
    pub scrape_region_lem :
        scrape_region st infoer provider w service region ≡ (after_versions.0, none)
    unfolding scrape_region products_step images_step versions_step
    scrape_region_lem =
        or_stop-none after_zones (λ v. products_step st infoer provider v service region)
          zones_stored.0
        ∙ or_report-none after_products (λ v. images_step st infoer provider v service region)
            (ap (λ o. o.1) products_answered)
        ∙ or_report-none after_images (λ v. versions_step st infoer provider v service region)
            images_stored.0
        ∙ or_report-none after_versions (λ v. (v, none)) versions_stored.0

    abbrev seen : List VmInfo
    seen = or_nil (get_vm st w.store provider service region)

    abbrev machines_world : List VmInfo → World st infoer provider
    machines_world vms =
        with_machines st infoer provider after_zones.0 service region (a.products vms)

    seen_after_zones : or_nil (get_vm st after_zones.0.store provider service region) ≡ seen
    seen_after_zones = ap or_nil (
        zones-fetch st infoer provider service region (vm_key provider service region) clean n w
          λ e. cc)

    after_products_lem : after_products ≡ (machines_world seen, none)
    after_products_lem = products_answered ∙ ap (λ vms. (machines_world vms, none)) seen_after_zones

    -- The entries other than images and versions stay after the products.
    after_products-fetch :
        (k : Key)
        → IsClean k
        → k ≢ image_key provider service region
        → k ≢ version_key provider service region
        → st.fetch after_versions.0.store k ≡ st.fetch after_products.0.store k
    after_products-fetch k hk i v =
        versions-fetch st infoer provider service region k hk n after_images.0 v
        ∙ images-fetch st infoer provider service region k hk n after_products.0 i

    abbrev machines_read : st.State
    machines_read = store_vm st after_zones.0.store provider service region (a.products seen)

    prices_read :
        (inst_type : String)
        → IsName inst_type
        → get_price st after_versions.0.store provider region inst_type
          ≡ get_price st machines_read provider region inst_type
    prices_read inst_type named =
        after_products-fetch (price_key provider region inst_type)
          (n.provider_name, n.region_name, named) (λ e. cc) (λ e. cc)
        ∙ ap (λ o. st.fetch o.0.store (price_key provider region inst_type)) after_products_lem
        ∙ fetch-replace_other st machines_read (price_key provider region inst_type)
            (vm_key provider service region) _ (n.provider_name, n.region_name, named) clean
            (λ e. cc) tt

    after_versions-IsScraped : IsScraped a seen after_versions.0.store
    after_versions-IsScraped = record {
      zones =
          after_products-fetch (zone_key provider service region) clean (λ e. cc) (λ e. cc)
          ∙ products-fetch st infoer provider service region (zone_key provider service region)
              clean n after_zones.0 (λ e. cc)
          ∙ zones_stored.1;
      before = machines_read;
      prices = prices_read;
      machines =
          after_products-fetch (vm_key provider service region) clean (λ e. cc) (λ e. cc)
          ∙ ap (λ o. get_vm st o.0.store provider service region) after_products_lem
          ∙ st.fetch-put _ (vm_key provider service region)
              (virtual_machines st infoer provider machines_read region (a.products seen)) clean;
      images =
          ImagesStored-store infoer.has_images _ _ a.images
            (versions-fetch st infoer provider service region (image_key provider service region)
              clean n after_images.0 λ e. cc)
            images_stored.1;
      versions = versions_stored.1;
    }

    pub scrape_region-IsScraped :
        IsScraped a seen (scrape_region st infoer provider w service region).0.store
    scrape_region-IsScraped = rw scrape_region_lem after_versions-IsScraped
