-- ===== src/Providers/DigitalOcean/Tests.antt =====
-- Tests of the client of DigitalOcean, and its theorems at concrete inputs.
use cloudinfo.Prelude.{
  ℕ, ◌==◌, if◌then◌else◌, In, String, List, ◌≡◌, refl, ap, true, [], ◌∷◌, inl, some, none, All,
  arith,
}
use cloudinfo.Prelude.Float.{float_one}
use cloudinfo.Prelude.Result.{Result, ok, err}
use cloudinfo.Store.Cache.{table_cache}
use cloudinfo.Store.GoCache.{Item, new_cache_product_store}
use cloudinfo.Store.GoCache.Refinement.{go_cache_store}
use cloudinfo.Store.Interface.{CloudInfoStore, delete_vm, get_vm}
use cloudinfo.Store.Key.{vm_key}
use cloudinfo.Prelude.Text.{distinct}
use cloudinfo.Scrape.{CloudInfoer, or_nil, World, scrape_regions, scrape_service_region_products}
use cloudinfo.Scrape.Regions.Frame.{AreNames}
use cloudinfo.Scrape.Regions.Stored.{Answers, IsScraped}
use cloudinfo.Scrape.Regions.{scrape_regions-IsScraped}
use cloudinfo.Types.{new_location_version}
use cloudinfo.Providers.Prices.{price_in}
use cloudinfo.Providers.DigitalOcean.{
  Size, last_page, page_of, SizesPage, Client, get_sizes, price_sizes, to_vm, machines_of_sizes,
  get_category, digitalocean_infoer, offered, get_products, get_versions,
}
use cloudinfo.Providers.DigitalOcean.Pages.{joined, get_sizes-ServesFrom}
use cloudinfo.Providers.DigitalOcean.Machines.{machines_of_sizes-price_sizes}
use cloudinfo.Providers.DigitalOcean.Scraped.{machines, scrape_service_region_products-machines}

abbrev size : String → Size
size slug = record {
  slug = slug;
  memory = 2048;
  vcpus = 2;
  price_hourly = float_one;
  regions = "ams3" ∷ "nyc1" ∷ [];
  available = true;
}

-- Two pages, of which the second is the last.
abbrev pages_of : Result String SizesPage
pages_of = ok (record { sizes = size "s-1" ∷ []; links = page_of (ok 1) })

abbrev list_sizes : ℕ → Result String SizesPage
list_sizes page =
    if page == 0 then pages_of else ok (record { sizes = size "c-2" ∷ []; links = last_page })

abbrev client : Client
client = record {
  list_sizes = list_sizes;
  get_options =
      ok (record { size_slugs = "s-1" ∷ []; region_slugs = []; version_slugs = "1.15" ∷ [] });
  list_regions = err "down";
}

get_category_tests :
    (get_category "c-2" ≡ "Compute optimized") × (get_category "m-1" ≡ "General purpose")
unfolding get_category
get_category_tests = (refl, refl)

get_sizes-ServesFrom_example :
    get_sizes client 2 ≡ some (ok (joined ((size "s-1" ∷ []) ∷ (size "c-2" ∷ []) ∷ [])))
get_sizes-ServesFrom_example =
    get_sizes-ServesFrom client 2 (size "s-1" ∷ []) ((size "c-2" ∷ []) ∷ []) (omega arith)
      (refl, refl)

new_york_size : In (to_vm (size "s-1")) (machines_of_sizes "nyc1" (size "s-1" ∷ size "c-2" ∷ []))
unfolding machines_of_sizes
new_york_size = inl refl

machines_of_sizes-price_sizes_example :
    price_in "nyc1" (to_vm (size "s-1")).type (price_sizes (size "s-1" ∷ size "c-2" ∷ []) [])
    ≡ some (record { on_demand_price = (to_vm (size "s-1")).on_demand_price; spot_price = [] })
machines_of_sizes-price_sizes_example =
    machines_of_sizes-price_sizes "nyc1" (size "s-1" ∷ size "c-2" ∷ []) [] (to_vm (size "s-1"))
      ((distinct "s-1" "c-2" refl, tt), (tt, tt)) new_york_size

abbrev memory_store : CloudInfoStore
memory_store = go_cache_store (table_cache Item) 5

abbrev infoer : CloudInfoer
infoer = digitalocean_infoer client (ok [])

abbrev empty_cache : memory_store.State
unfolding go_cache_store
empty_cache = new_cache_product_store (table_cache Item) 60 10

abbrev before : World memory_store infoer "digitalocean"
before = record {
  store = delete_vm memory_store empty_cache "digitalocean" "dok" "nyc1";
  effects = [];
}

nothing_stored : machines memory_store client (ok []) "digitalocean" before "dok" "nyc1" ≡ []
nothing_stored =
    ap or_nil
      (memory_store.fetch-drop empty_cache (vm_key "digitalocean" "dok" "nyc1") (ground arith) tt)

scrape_service_region_products-machines_example :
    machines memory_store client
      (ok [])
      "digitalocean"
      (scrape_service_region_products memory_store infoer "digitalocean" before "dok" "nyc1").0
      "dok"
      "nyc1"
    ≡ []
scrape_service_region_products-machines_example =
    scrape_service_region_products-machines memory_store client (ok []) "digitalocean" before "dok"
      "nyc1" (ground arith) (ground arith) (ground arith) nothing_stored

never_asked : infoer.has_images ≡ true → infoer.get_service_images "dok" "nyc1" ≡ ok []
unfolding digitalocean_infoer
never_asked has = cc

-- The calls of a run are answered, although asking for images is an error.
abbrev answers : Answers memory_store infoer "digitalocean" "dok" "nyc1"
unfolding digitalocean_infoer get_products get_versions
answers = record {
  zones = [];
  zones_ok = refl;
  products = λ vms. offered ("s-1" ∷ []) vms;
  products_ok = λ vms. refl;
  images = [];
  images_ok = never_asked;
  versions = new_location_version "nyc1" ("1.15" ∷ []) "1.15" ∷ [];
  versions_ok = refl;
}

abbrev regions : List (String × String)
regions = ("nyc1", "New York") ∷ []

names : All (λ r. AreNames memory_store infoer "digitalocean" "dok" r.0) regions
names = (
  record { provider_name = ground arith; service_name = ground arith; region_name = ground arith },
  tt,
)

scrape_regions-IsScraped_example :
    IsScraped memory_store infoer "digitalocean" "dok" "nyc1" answers
      (or_nil (get_vm memory_store before.store "digitalocean" "dok" "nyc1"))
      (scrape_regions memory_store infoer "digitalocean" before "dok" regions none).0.store
scrape_regions-IsScraped_example =
    scrape_regions-IsScraped memory_store infoer "digitalocean" "dok" "nyc1" "New York" answers
      regions before none (inl refl) names (tt, tt)
