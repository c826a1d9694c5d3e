-- ===== src/Scrape/Prices.antt =====
-- internal/cloudinfo/scrape.go: `scrapePricesInAllRegions`, with a goroutine for each region. What
-- the goroutines do to the store and to the handlers comes in any order that keeps the order of
-- each; every single call is atomic, as the stores lock around it.
pub mod Agreement
pub mod Merge
pub mod Outcome
use cloudinfo.Prelude.{
  String, ◌≡◌, refl, sym, ap, ◌∙◌, ◌≢◌, ◌⊎◌, inl, inr, Bool, true, false, List, [], ◌∷◌, ◌++◌, map,
  Option, none, some, Bool-cases, All, In, subst,
}
use cloudinfo.Prelude.Text.{IsName}
use cloudinfo.Prelude.Maps.{Absent, HasDistinctKeys, Absent-In}
use cloudinfo.Prelude.Result.{Result, ok, err, Result-cases}
use cloudinfo.Types.{Price}
use cloudinfo.Store.Key.{Key, price_key}
use cloudinfo.Store.Interface.{CloudInfoStore, get_price, store_price}
use cloudinfo.Scrape.{
  CloudInfoer, Effect, short_lived_failure_reported, handled, no_prices, no_regions, World, emit,
  store_prices, scrape_prices_in_region,
}
use Merge.{IsMerge, IsMerge-In}

-- A call that a goroutine makes: `StorePrice`, or a report of a failure.
pub data Action : Type 0 where
  stores : String → String → Price → Action
  reports : Effect → Action

abbrev pub price_actions : String → List (String × Price) → List Action
price_actions region [] = []
price_actions region ((inst_type, price) ∷ rest) =
    stores region inst_type price ∷ price_actions region rest

-- The regions that `GetRegions("compute")` names; after a failure the nil map, that is none.
unfoldable pub price_regions : CloudInfoer → List (String × String)
price_regions infoer = elim (infoer.get_regions "compute") [ ok regions ↦ regions | err e ↦ [] ]

-- The goroutine of a region.
unfoldable pub region_actions : CloudInfoer → String → List Action
region_actions infoer region = elim (infoer.get_current_prices region) [
  | err e ↦ reports (short_lived_failure_reported region) ∷ reports (handled (no_prices e)) ∷ []
  | ok prices ↦ price_actions region prices
]

abbrev pub goroutines : CloudInfoer → List (String × String) → List (List Action)
goroutines infoer [] = []
goroutines infoer ((region, name) ∷ regions) =
    region_actions infoer region ∷ goroutines infoer regions

module _ (st : CloudInfoStore) (infoer : CloudInfoer) (provider : String) where
  pub perform : World st infoer provider → List Action → World st infoer provider
  unfolding emit
  perform w [] = w
  perform w (stores region inst_type price ∷ rest) =
      perform (record w { store = store_price st w.store provider region inst_type price }) rest
  perform w (reports e ∷ rest) = perform (emit st infoer provider w e) rest

  pub handle_regions : World st infoer provider → World st infoer provider
  unfolding emit
  handle_regions w = elim (infoer.get_regions "compute") [
    | ok regions ↦ w
    | err e ↦ emit st infoer provider w (handled (no_regions e))
  ]

  -- `scrapePricesInAllRegions`: the outcomes that some order of the calls has.
  pub record IsPriceRun (w v : World st infoer provider) : Type 0 where
    pub trace : List Action
    pub merged : IsMerge (goroutines infoer (price_regions infoer)) trace
    pub outcome : v ≡ perform (handle_regions w) trace

  perform-price_actions :
      (region : String) (prices : List (String × Price)) (w : World st infoer provider)
      → perform w (price_actions region prices)
        ≡ record w { store = store_prices st infoer provider w.store region prices }
  unfolding perform store_prices
  perform-price_actions region [] w = refl
  perform-price_actions region ((t, price) ∷ rest) w = perform-price_actions region rest _

  -- A goroutine by itself is `scrapePricesInRegion`.
  pub perform-region_actions :
      (region : String) (w : World st infoer provider)
      → perform w (region_actions infoer region)
        ≡ scrape_prices_in_region st infoer provider w region
  unfolding region_actions perform scrape_prices_in_region
  perform-region_actions region w = elim (Result-cases (infoer.get_current_prices region)) [
    | inl (prices, e) ↦
        rw (e, region_actions, scrape_prices_in_region) (perform-price_actions region prices w)
    | inr (x, e) ↦ rw (e, region_actions, scrape_prices_in_region) refl
  ]
