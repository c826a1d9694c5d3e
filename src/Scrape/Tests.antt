-- ===== src/Scrape/Tests.antt =====
-- The theorems on the scraping at concrete inputs.
use cloudinfo.Prelude.{
  String, ◌≡◌, refl, sym, ap, ◌↔◌, ◌⊎◌, inl, inr, Bool, true, false, List, [], ◌∷◌, some, subst,
  All, In, arith,
}
use cloudinfo.Prelude.Text.{IsName, distinct}
use cloudinfo.Prelude.Maps.{HasDistinctKeys}
use cloudinfo.Prelude.Float.{Float64, float_one, float_two, float_eq, float_lt}
use cloudinfo.Prelude.Result.{Result, ok, err, ok-injective}
use cloudinfo.Types.{VmInfo, Price, Image, Service, empty_vm, empty_price, new_image}
use cloudinfo.Store.Key.{services_key, price_key}
use cloudinfo.Store.Interface.{
  CloudInfoStore, get_vm, get_price, get_status, get_services, store_services, store_price,
}
use cloudinfo.Store.Cache.{table_cache}
use cloudinfo.Store.GoCache.{Item, new_cache_product_store}
use cloudinfo.Store.GoCache.Refinement.{go_cache_store}
use cloudinfo.Scrape.{CloudInfoer, World, or_nil, virtual_machines, scrape}
use cloudinfo.Scrape.Machines.{IsKept, virtual_machines_iff}
use cloudinfo.Scrape.Regions.Frame.{AreNames}
use cloudinfo.Scrape.Regions.Stored.{Answers}
use cloudinfo.Scrape.Runs.Frame.{IsTidy}
use cloudinfo.Scrape.Runs.Answered.{IsServiceAnswered}
use cloudinfo.Scrape.Runs.Kept.{IsComplete}
use cloudinfo.Scrape.Runs.Stored.{scrape-IsComplete}
use cloudinfo.Scrape.Runs.Status.{scrape-status_sound, scrape-status_complete}
use cloudinfo.Scrape.Prices.{price_regions, goroutines, perform, handle_regions}
use cloudinfo.Scrape.Prices.Merge.{one_by_one}
use cloudinfo.Scrape.Prices.Outcome.{
  IsCurrent, HasTidyPrices, price_run-IsCurrent, one_by_one-IsPriceRun,
}

abbrev memory_store : CloudInfoStore
memory_store = go_cache_store (table_cache Item) 5

abbrev empty_memory : memory_store.State
unfolding go_cache_store
empty_memory = new_cache_product_store (table_cache Item) 60 10

abbrev regions : List (String × String)
regions = ("eu-west-1", "Ireland") ∷ ("us-east-1", "Virginia") ∷ []

abbrev large_price : Price
large_price = record empty_price { on_demand_price = float_two }

abbrev large : VmInfo
large = record empty_vm { type = "c5.large"; on_demand_price = float_one }

-- A client with two regions that answers the other calls of a run with one machine and one zone.
abbrev client_with : Bool → Result String (List Image) → CloudInfoer
client_with has images = record {
  initialize = ok [];
  get_products = λ vms service region. ok (large ∷ vms);
  get_zones = λ region. ok ("a" ∷ []);
  get_regions = λ service. ok regions;
  get_current_prices = λ region. ok (("c5.large", large_price) ∷ []);
  has_short_lived_price_info = true;
  has_images = has;
  get_service_images = λ service region. images;
  get_versions = λ service region. ok [];
}

-- Without images, where asking for them is an error.
abbrev client : CloudInfoer
client = client_with false (err "not yet implemented")

abbrev node_image : Image
node_image = new_image "ami-1" "1.24" false

abbrev image_client : CloudInfoer
image_client = client_with true (ok (node_image ∷ []))

abbrev eks : Service
eks = record { service = "eks"; is_static = false }

abbrev store_before : memory_store.State
store_before = store_services memory_store empty_memory "amazon" (eks ∷ [])

abbrev before : World memory_store client "amazon"
before = record { store = store_before; effects = [] }

abbrev before_images : World memory_store image_client "amazon"
before_images = record { store = store_before; effects = [] }

never_asked :
    {images : Result String (List Image)} → false ≡ true → err "not yet implemented" ≡ images
never_asked has = cc

abbrev answers : Answers memory_store client "amazon" "eks" "eu-west-1"
answers = record {
  zones = "a" ∷ [];
  zones_ok = refl;
  products = λ vms. large ∷ vms;
  products_ok = λ vms. refl;
  images = [];
  images_ok = never_asked;
  versions = [];
  versions_ok = refl;
}

abbrev image_answers : Answers memory_store image_client "amazon" "eks" "eu-west-1"
image_answers = record {
  zones = "a" ∷ [];
  zones_ok = refl;
  products = λ vms. large ∷ vms;
  products_ok = λ vms. refl;
  images = node_image ∷ [];
  images_ok = λ has. refl;
  versions = [];
  versions_ok = refl;
}

abbrev other_answers : Answers memory_store client "amazon" "eks" "us-east-1"
other_answers = record {
  zones = "a" ∷ [];
  zones_ok = refl;
  products = λ vms. large ∷ vms;
  products_ok = λ vms. refl;
  images = [];
  images_ok = never_asked;
  versions = [];
  versions_ok = refl;
}

names : All (λ r. AreNames memory_store client "amazon" "eks" r.0) regions
names = (
  record { provider_name = ground arith; service_name = ground arith; region_name = ground arith },
  (
    record {
      provider_name = ground arith;
      service_name = ground arith;
      region_name = ground arith;
    },
    tt,
  ),
)

distinct_regions : HasDistinctKeys regions
distinct_regions = ((distinct _ _ refl, tt), (tt, tt))

abbrev below_zero : Float64
below_zero = record float_one { is_negative = true }

-- A stored price above 0 replaces that of the machine, and one below 0 does not.
abbrev priced : Float64 → memory_store.State
priced price =
    store_price memory_store store_before "amazon" "eu-west-1" "c5.large"
      (record empty_price { on_demand_price = price })

abbrev repriced_large : VmInfo
repriced_large = record large { on_demand_price = float_two }

price_stored :
    (price : Float64)
    → get_price memory_store (priced price) "amazon" "eu-west-1" "c5.large"
      ≡ some (record empty_price { on_demand_price = price })
price_stored price =
    memory_store.fetch-put store_before (price_key "amazon" "eu-west-1" "c5.large") _ (ground arith)

virtual_machines_tests :
    (virtual_machines memory_store client "amazon" (priced float_two) "eu-west-1" (large ∷ [])
      ≡ repriced_large ∷ [])
    × (virtual_machines memory_store client "amazon" (priced below_zero) "eu-west-1" (large ∷ [])
        ≡ large ∷ [])
unfolding virtual_machines float_eq float_lt
virtual_machines_tests = (rw (price_stored float_two) refl, rw (price_stored below_zero) refl)

virtual_machines_iff_example :
    In repriced_large
      (virtual_machines memory_store client "amazon" (priced float_two) "eu-west-1" (large ∷ []))
    ↔ IsKept memory_store client "amazon" (priced float_two) "eu-west-1" (large ∷ []) repriced_large
virtual_machines_iff_example =
    virtual_machines_iff memory_store client "amazon" (priced float_two) "eu-west-1" (large ∷ [])
      repriced_large

names_of : (rs : List (String × String)) → rs ≡ regions → All (λ r. IsName r.0) rs
names_of rs e = subst (λ l. All (λ r. IsName r.0) l) (sym e) (ground arith)

tidy :
    (has : Bool) (images : Result String (List Image))
    → IsTidy memory_store (client_with has images) "amazon"
tidy has images = record {
  provider_name = ground arith;
  region_names = λ service rs e. names_of rs (sym (ok-injective e));
  regions_distinct =
      λ service rs e. subst (λ l. HasDistinctKeys l) (ok-injective e) distinct_regions;
  price_names = λ prices e.
      subst (λ l. All (λ p. IsName p.0 × All (λ q. IsName q.0) p.1) l) (ok-injective e) tt;
}

services_stored : get_services memory_store before.store "amazon" ≡ some (eks ∷ [])
services_stored =
    memory_store.fetch-put empty_memory (services_key "amazon") (eks ∷ []) (ground arith)

scrape-IsComplete_example :
    IsComplete memory_store image_client "amazon" "eks" "eu-west-1" regions image_answers
      (or_nil (get_vm memory_store before_images.store "amazon" "eks" "eu-west-1"))
      (scrape memory_store image_client "amazon" before_images "7").store
scrape-IsComplete_example =
    scrape-IsComplete memory_store image_client "amazon" (tidy true (ok (node_image ∷ []))) eks
      (eks ∷ []) "eu-west-1" "Ireland" regions image_answers before_images "7" services_stored
      (inl refl) refl refl (inl refl) (ground arith) (ground arith) (tt, tt)
      ((λ dynamic. (regions, refl)), tt)

scrape-status_sound_example :
    ((get_status memory_store (scrape memory_store client "amazon" before "7").store "amazon"
        ≡ some "7")
      × All (IsServiceAnswered memory_store client "amazon") (eks ∷ []))
    ⊎ (get_status memory_store (scrape memory_store client "amazon" before "7").store "amazon"
        ≡ get_status memory_store before.store "amazon")
scrape-status_sound_example =
    scrape-status_sound memory_store client "amazon" (tidy false (err "not yet implemented"))
      (eks ∷ []) before "7" services_stored (ground arith)

scrape-status_complete_example :
    get_status memory_store (scrape memory_store client "amazon" before "7").store "amazon"
    ≡ some "7"
scrape-status_complete_example =
    scrape-status_complete memory_store client "amazon" (tidy false (err "not yet implemented"))
      (eks ∷ []) before "7" services_stored (ground arith)
      ((λ dynamic. (regions, refl, (answers, (other_answers, tt)))), tt)

tidy_prices : HasTidyPrices client
unfolding price_regions
tidy_prices = record {
  region_names = ground arith;
  type_names = λ region ps e. subst (λ l. All (λ p. IsName p.0) l) (ok-injective e) (ground arith);
  types_distinct = λ region ps e. subst (λ l. HasDistinctKeys l) (ok-injective e) (tt, tt);
}

abbrev after : World memory_store client "amazon"
after =
    perform memory_store client "amazon" (handle_regions memory_store client "amazon" before)
      (one_by_one (goroutines client (price_regions client)))

price_run-IsCurrent_example :
    get_price memory_store after.store "amazon" "eu-west-1" "c5.large" ≡ some large_price
unfolding price_regions
price_run-IsCurrent_example =
    price_run-IsCurrent memory_store client "amazon" (ground arith) tidy_prices "eu-west-1"
      "c5.large" "Ireland" large_price before after
      (one_by_one-IsPriceRun memory_store client "amazon" (ground arith) tidy_prices before)
      (ground arith) (ground arith) (inl refl)
      (record { prices = ("c5.large", large_price) ∷ []; answered = refl; listed = inl refl })

not_current : (p : Price) → IsCurrent client "eu-west-1" "c5.small" p → ⊥
not_current p c =
    elim (subst (λ l. In ("c5.small", p) l) (sym (ok-injective c.answered)) c.listed) [
      | inl e ↦ distinct "c5.small" "c5.large" refl (ap (λ x. x.0) e)
      | inr m ↦ elim m [ ]
    ]
