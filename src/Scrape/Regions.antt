-- ===== src/Scrape/Regions.antt =====
-- What the scraping of a region stores, and that a failure in one region spares the others.
pub mod Frame
pub mod Stored
use cloudinfo.Prelude.{
  String, ◌≡◌, refl, sym, ap, ◌∙◌, ◌≢◌, ◌⊎◌, inl, inr, Bool, true, false, List, [], ◌∷◌, Option,
  none, some, In, All, All-In, subst,
}
use cloudinfo.Prelude.Text.{IsName}
use cloudinfo.Prelude.Maps.{HasDistinctKeys, Absent, Absent-In}
use cloudinfo.Types.{VmInfo}
use cloudinfo.Store.Key.{Key, vm_key, price_key, zone_key, image_key, version_key, IsClean}
use cloudinfo.Store.Interface.{CloudInfoStore, get_vm}
use cloudinfo.Scrape.{
  CloudInfoer, ScrapeError, or_nil, World, scrape_region, scrape_regions, last_error,
}
use Frame.{AreNames, IsElsewhere, scrape_region-fetch, scrape_regions-fetch}
use Stored.{Answers, Agrees, IsScraped, IsScraped-store, scrape_region-IsScraped}

module _ (st : CloudInfoStore) (infoer : CloudInfoer) (provider service : String) where
  elsewhere :
      (region other : String)
      → other ≢ region
      → IsElsewhere st infoer provider service other (zone_key provider service region)
        × IsElsewhere st infoer provider service other (vm_key provider service region)
        × IsElsewhere st infoer provider service other (image_key provider service region)
        × IsElsewhere st infoer provider service other (version_key provider service region)
  elsewhere region other n = (
    record { zones = λ e. n (cc); vms = λ e. cc; images = λ e. cc; versions = λ e. cc },
    record { zones = λ e. cc; vms = λ e. n (cc); images = λ e. cc; versions = λ e. cc },
    record { zones = λ e. cc; vms = λ e. cc; images = λ e. n (cc); versions = λ e. cc },
    record { zones = λ e. cc; vms = λ e. cc; images = λ e. cc; versions = λ e. n (cc) },
  )

  price-IsElsewhere :
      (region other inst_type : String)
      → IsElsewhere st infoer provider service other (price_key provider region inst_type)
  price-IsElsewhere region other inst_type = record {
    zones = λ e. cc;
    vms = λ e. cc;
    images = λ e. cc;
    versions = λ e. cc;
  }

  others :
      (region : String) (regions : List (String × String)) (k : Key)
      → ((other : String) → other ≢ region → IsElsewhere st infoer provider service other k)
      → All (λ r. AreNames st infoer provider service r.0) regions
      → Absent region regions
      → All
          (λ r.
            AreNames st infoer provider service r.0 × IsElsewhere st infoer provider service r.0 k)
          regions
  others region [] k away h a = tt
  others region ((other, name) ∷ regions) k away (n, h) (ne, a) =
      ((n, away other ne), others region regions k away h a)

  -- What is stored for a region stays through the regions that follow.
  later_regions :
      (region : String) (regions : List (String × String)) (w : World st infoer provider)
      (last : Option ScrapeError)
      → AreNames st infoer provider service region
      → All (λ r. AreNames st infoer provider service r.0) regions
      → Absent region regions
      → Agrees st infoer provider service region w.store
          (scrape_regions st infoer provider w service regions last).0.store
  later_regions region regions w last n h absent =
      let clean : IsName provider × IsName service × IsName region =
        (n.provider_name, n.service_name, n.region_name) in
      let keeps =
        λ (k : Key) (hk : IsClean k)
            (away : (other : String)
              → other ≢ region
              → IsElsewhere st infoer provider service other k).
          scrape_regions-fetch st infoer provider service k regions w last hk
            (others region regions k away h absent) in
      record {
        zones = keeps (zone_key provider service region) clean λ o ne. (elsewhere region o ne).0;
        vms = keeps (vm_key provider service region) clean λ o ne. (elsewhere region o ne).1;
        images = keeps (image_key provider service region) clean λ o ne. (elsewhere region o ne).2;
        versions =
            keeps (version_key provider service region) clean λ o ne. (elsewhere region o ne).3;
        prices = λ i named.
            keeps (price_key provider region i) (n.provider_name, n.region_name, named)
              λ o ne. price-IsElsewhere region o i;
      }

  abbrev known_machines : String → World st infoer provider → List VmInfo
  known_machines region w = or_nil (get_vm st w.store provider service region)

  -- A region before ours leaves our machines as they were.
  known_machines-scrape_region :
      (region other : String) (w : World st infoer provider)
      → AreNames st infoer provider service region
      → AreNames st infoer provider service other
      → other ≢ region
      → known_machines region (scrape_region st infoer provider w service other).0
        ≡ known_machines region w
  known_machines-scrape_region region other w n m ne = ap or_nil (
      scrape_region-fetch st infoer provider service other (vm_key provider service region)
        (n.provider_name, n.service_name, n.region_name) m w (elsewhere region other ne).1)

  head-IsScraped :
      (region : String) (a : Answers st infoer provider service region)
      (regions : List (String × String)) (w : World st infoer provider) (last : Option ScrapeError)
      → AreNames st infoer provider service region
      → All (λ r. AreNames st infoer provider service r.0) regions
      → Absent region regions
      → IsScraped st infoer provider service region a
          (known_machines region w)
          (scrape_regions st infoer provider
            (scrape_region st infoer provider w service region).0
            service
            regions
            last).0.store
  head-IsScraped region a regions w last n h absent =
      IsScraped-store st infoer provider service region a (known_machines region w) _ _
        (later_regions region regions (scrape_region st infoer provider w service region).0 last n h
          absent)
        (scrape_region-IsScraped st infoer provider service region n a w)

  rest-IsScraped :
      (region other : String) (a : Answers st infoer provider service region)
      (w : World st infoer provider) (s : st.State)
      → AreNames st infoer provider service region
      → AreNames st infoer provider service other
      → other ≢ region
      → IsScraped st infoer provider service region a
          (known_machines region (scrape_region st infoer provider w service other).0)
          s
      → IsScraped st infoer provider service region a (known_machines region w) s
  rest-IsScraped region other a w s n m ne c =
      subst (λ vms. IsScraped st infoer provider service region a vms s)
        (known_machines-scrape_region region other w n m ne) c

  -- A region for which the provider's client answers every call is complete in the store after a
  -- run over the regions of the service, whatever failures happen in the other regions, and
  -- wherever in the order of the map it stands: its zones and versions are those of the answers,
  -- so are its images if the provider has images, and its machines are those that
  -- `updateVirtualMachines` keeps, at the stored prices, of the products answered for the
  -- machines that the store had before the run. No name holds a slash.
  pub scrape_regions-IsScraped :
      (region name : String) (a : Answers st infoer provider service region)
      (regions : List (String × String)) (w : World st infoer provider) (last : Option ScrapeError)
      → In (region, name) regions
      → All (λ r. AreNames st infoer provider service r.0) regions
      → HasDistinctKeys regions
      → IsScraped st infoer provider service region a
          (known_machines region w)
          (scrape_regions st infoer provider w service regions last).0.store
  unfolding scrape_regions
  scrape_regions-IsScraped region name a [] w last m h d = elim m [ ]
  scrape_regions-IsScraped region name a ((r, n) ∷ regions) w last (inl e) (names, h) (absent, d) =
      let same : region ≡ r = ap (λ p. p.0) e in
      subst
        (λ x.
          IsScraped st infoer provider service region a (known_machines region w)
            (scrape_regions st infoer provider (scrape_region st infoer provider w service x).0
              service regions
              (last_error last (scrape_region st infoer provider w service x).1)).0.store)
        same
        (head-IsScraped region a regions w _
          (subst (AreNames st infoer provider service) (sym same) names) h
          (subst (λ x. Absent x regions) (sym same) absent))
  scrape_regions-IsScraped region name a ((r, n) ∷ regions) w last (inr m) (names, h) (absent, d) =
      rest-IsScraped region r a w
        (scrape_regions st infoer provider (scrape_region st infoer provider w service r).0 service
          regions (last_error last (scrape_region st infoer provider w service r).1)).0.store
        (All-In (λ x. AreNames st infoer provider service x.0) regions h (region, name) m) names
        (Absent-In r region name regions absent m)
        (scrape_regions-IsScraped region name a regions
          (scrape_region st infoer provider w service r).0
          (last_error last (scrape_region st infoer provider w service r).1) m h d)
