-- ===== src/Scrape/Runs/Kept.antt =====
-- What a run over the other services leaves as it is.
use cloudinfo.Prelude.{
  String, ◌≡◌, sym, ap, ◌∙◌, ◌≢◌, inl, inr, false, List, [], ◌∷◌, Option, some, All, In,
}
use cloudinfo.Prelude.Text.{IsName}
use cloudinfo.Prelude.Result.{ok}
use cloudinfo.Types.{Service, VmInfo}
use cloudinfo.Store.Key.{
  Key, vm_key, zone_key, image_key, version_key, price_key, region_key, status_key, IsClean,
}
use cloudinfo.Store.Interface.{CloudInfoStore, get_vm, get_regions}
use cloudinfo.Scrape.{
  CloudInfoer, ScrapeError, or_nil, World, scrape_regions, scrape_pke_images, handle_error,
  scrape_service_region_info,
}
use cloudinfo.Scrape.Regions.Frame.{AreNames, IsElsewhere}
use cloudinfo.Scrape.Regions.Stored.{Answers, Agrees, IsScraped, IsScraped-store}
use cloudinfo.Scrape.Runs.Frame.{
  IsTidy, IsForeign, static-fetch, with_regions, dynamic-fetch, scrape_service_region_info-fetch,
}

-- No service stands twice in the list.
abbrev pub IsMissing : String → List Service → Type 0
IsMissing name [] = Unit
IsMissing name (s ∷ services) = (s.service ≢ name) × IsMissing name services

abbrev pub AreDistinct : List Service → Type 0
AreDistinct [] = Unit
AreDistinct (s ∷ services) = IsMissing s.service services × AreDistinct services

-- The regions of a service that is not static are answered.
abbrev pub IsListed : CloudInfoer → Service → Type 0
IsListed infoer s =
    s.is_static ≡ false → (rs : List (String × String)) × (infoer.get_regions s.service ≡ ok rs)

pub IsMissing-In :
    (name : String) (services : List Service) (s : Service)
    → IsMissing name services
    → In s services
    → name ≢ s.service
IsMissing-In name [] s h m = elim m [ ]
IsMissing-In name (t ∷ services) s (n, h) (inl e) =
    λ same. n (ap (λ x. x.service) (sym e) ∙ sym same)
IsMissing-In name (t ∷ services) s (n, h) (inr m) = IsMissing-In name services s h m

module _ (st : CloudInfoStore) (infoer : CloudInfoer) (provider : String) where
  -- The regions of the service, and the entries of one of them.
  pub record IsComplete (service region : String) (regions : List (String × String))
      (a : Answers st infoer provider service region) (seen : List VmInfo) (s : st.State)
      : Type 0 where
    pub regions_stored : get_regions st s provider service ≡ some regions
    pub scraped : IsScraped st infoer provider service region a seen s

  module _ (tidy : IsTidy st infoer provider) (service region : String) (hs : IsName service)
      (hr : IsName region) where
    abbrev pub known : World st infoer provider → List VmInfo
    known w = or_nil (get_vm st w.store provider service region)

    abbrev pub Kept : Key → World st infoer provider → World st infoer provider → Type 0
    Kept k v w = st.fetch w.store k ≡ st.fetch v.store k

    -- The keys of our region.
    pub record AllKept (v w : World st infoer provider) : Type 0 where
      pub agrees : Agrees st infoer provider service region v.store w.store
      pub regions_kept : Kept (region_key provider service) v w

    pub clean : IsName provider × IsName service × IsName region
    clean = (tidy.provider_name, hs, hr)

    foreign :
        (other : String)
        → other ≢ service
        → IsForeign st infoer provider (zone_key provider service region) other
          × IsForeign st infoer provider (vm_key provider service region) other
          × IsForeign st infoer provider (image_key provider service region) other
          × IsForeign st infoer provider (version_key provider service region) other
          × IsForeign st infoer provider (region_key provider service) other
    foreign other n = (
      record {
        elsewhere = λ r. record {
          zones = λ e. n (cc);
          vms = λ e. cc;
          images = λ e. cc;
          versions = λ e. cc;
        };
        regions = λ e. cc;
      },
      record {
        elsewhere = λ r. record {
          zones = λ e. cc;
          vms = λ e. n (cc);
          images = λ e. cc;
          versions = λ e. cc;
        };
        regions = λ e. cc;
      },
      record {
        elsewhere = λ r. record {
          zones = λ e. cc;
          vms = λ e. cc;
          images = λ e. n (cc);
          versions = λ e. cc;
        };
        regions = λ e. cc;
      },
      record {
        elsewhere = λ r. record {
          zones = λ e. cc;
          vms = λ e. cc;
          images = λ e. cc;
          versions = λ e. n (cc);
        };
        regions = λ e. cc;
      },
      record {
        elsewhere =
            λ r. record { zones = λ e. cc; vms = λ e. cc; images = λ e. cc; versions = λ e. cc };
        regions = λ e. n (cc);
      },
    )

    price-IsForeign :
        (inst_type other : String)
        → IsForeign st infoer provider (price_key provider region inst_type) other
    price-IsForeign inst_type other = record {
      elsewhere =
          λ r. record { zones = λ e. cc; vms = λ e. cc; images = λ e. cc; versions = λ e. cc };
      regions = λ e. cc;
    }

    -- Whatever keeps every entry of other services keeps ours.
    pub all_kept :
        (v w : World st infoer provider)
        → ((k : Key)
            → IsClean k
            → k ≢ status_key provider
            → ((other : String) → other ≢ service → IsForeign st infoer provider k other)
            → Kept k v w)
        → AllKept v w
    all_kept v w keeps = record {
      agrees = record {
        zones = keeps (zone_key provider service region) clean (λ e. cc) λ o n. (foreign o n).0;
        vms = keeps (vm_key provider service region) clean (λ e. cc) λ o n. (foreign o n).1;
        images = keeps (image_key provider service region) clean (λ e. cc) λ o n. (foreign o n).2;
        versions =
            keeps (version_key provider service region) clean (λ e. cc) λ o n. (foreign o n).3;
        prices = λ i n.
            keeps (price_key provider region i) (tidy.provider_name, hr, n) (λ e. cc)
              λ o m. price-IsForeign i o;
      };
      regions_kept =
          keeps (region_key provider service) (tidy.provider_name, hs) (λ e. cc)
            λ o n. (foreign o n).4;
    }

    pub IsComplete-kept :
        (regions : List (String × String)) (a : Answers st infoer provider service region)
        (seen : List VmInfo) (v w : World st infoer provider)
        → AllKept v w
        → IsComplete service region regions a seen v.store
        → IsComplete service region regions a seen w.store
    IsComplete-kept regions a seen v w h c = record {
      regions_stored = h.regions_kept ∙ c.regions_stored;
      scraped = IsScraped-store st infoer provider service region a seen _ _ h.agrees c.scraped;
    }

    later_services :
        (services : List Service) (k : Key)
        → ((other : String) → other ≢ service → IsForeign st infoer provider k other)
        → All (λ s. IsName s.service) services
        → IsMissing service services
        → All (λ s. IsName s.service × IsForeign st infoer provider k s.service) services
    later_services [] k away h n = tt
    later_services (s ∷ services) k away (m, h) (n, ns) =
        ((m, away s.service n), later_services services k away h ns)

    pub known-kept : (v w : World st infoer provider) → AllKept v w → known w ≡ known v
    known-kept v w h = ap or_nil h.agrees.vms

    pub static_kept :
        (s : Service) (w : World st infoer provider)
        → IsName s.service
        → s.service ≢ service
        → AllKept w (handle_error st infoer provider (scrape_pke_images st infoer provider w s))
    static_kept s w n ne =
        all_kept w _
          λ k hk other away. static-fetch st infoer provider k hk tidy s w (away s.service ne) n

    pub dynamic_kept :
        (s : Service) (listed : List (String × String)) (w : World st infoer provider)
        (last : Option ScrapeError)
        → IsName s.service
        → s.service ≢ service
        → infoer.get_regions s.service ≡ ok listed
        → AllKept w
            (scrape_regions st infoer provider
              (with_regions st infoer provider w s.service listed)
              s.service
              listed
              last).0
    dynamic_kept s listed w last n ne e = all_kept w _ λ k hk other away.
        dynamic-fetch st infoer provider k hk tidy s.service listed w last (away s.service ne) n e

    pub later_kept :
        (services : List Service) (w : World st infoer provider) (last : Option ScrapeError)
        → All (λ s. IsName s.service) services
        → IsMissing service services
        → AllKept w (scrape_service_region_info st infoer provider w services last).0
    later_kept services w last h ns = all_kept w _ λ k hk other away.
        scrape_service_region_info-fetch st infoer provider k hk tidy services w last
          (later_services services k away h ns)

    pub own_regions_names :
        (regions listed : List (String × String))
        → All (λ r. AreNames st infoer provider service r.0) regions
        → All
            (λ r.
              AreNames st infoer provider service r.0
              × IsElsewhere st infoer provider service r.0 (region_key provider service))
            regions
    own_regions_names [] listed h = tt
    own_regions_names (r ∷ regions) listed (n, h) = (
      (n, record { zones = λ e. cc; vms = λ e. cc; images = λ e. cc; versions = λ e. cc }),
      own_regions_names regions listed h,
    )
