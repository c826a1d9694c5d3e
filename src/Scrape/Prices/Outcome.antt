-- ===== src/Scrape/Prices/Outcome.antt =====
-- What the renewal of all prices leaves in the store.
use cloudinfo.Prelude.{
  String, ◌≡◌, refl, sym, ap, ◌∙◌, inl, inr, List, [], ◌∷◌, some, All, All-In, In, subst,
}
use cloudinfo.Prelude.Text.{IsName}
use cloudinfo.Prelude.Maps.{HasDistinctKeys, In-unique}
use cloudinfo.Prelude.Result.{ok, Result-cases, ok-injective}
use cloudinfo.Types.{Price}
use cloudinfo.Store.Interface.{CloudInfoStore, get_price}
use cloudinfo.Scrape.{CloudInfoer, World, emit}
use cloudinfo.Scrape.Prices.Merge.{InSome, IsMerge, IsMerge-In, one_by_one, one_by_one-IsMerge}
use cloudinfo.Scrape.Prices.{
  Action, stores, price_actions, price_regions, region_actions, goroutines, perform, handle_regions,
  IsPriceRun,
}
use cloudinfo.Scrape.Prices.Agreement.{AreNamed, perform-price, perform-price_other}

-- The provider's client answers with this price for the type in the region.
pub record IsCurrent (infoer : CloudInfoer) (region inst_type : String) (p : Price) : Type 0 where
  pub prices : List (String × Price)
  pub answered : infoer.get_current_prices region ≡ ok prices
  pub listed : In (inst_type, p) prices

price_actions-In_out :
    (r region inst_type : String) (p : Price) (prices : List (String × Price))
    → In (stores region inst_type p) (price_actions r prices)
    → (region ≡ r) × In (inst_type, p) prices
price_actions-In_out r region inst_type p [] m = elim m [ ]
price_actions-In_out r region inst_type p ((t, q) ∷ prices) (inl e) = (cc, inl (cc))
price_actions-In_out r region inst_type p ((t, q) ∷ prices) (inr m) =
    let (e, i) = price_actions-In_out r region inst_type p prices m in (e, inr i)

price_actions-In_back :
    (region inst_type : String) (p : Price) (prices : List (String × Price))
    → In (inst_type, p) prices
    → In (stores region inst_type p) (price_actions region prices)
price_actions-In_back region inst_type p [] m = elim m [ ]
price_actions-In_back region inst_type p ((t, q) ∷ prices) (inl e) = inl (cc)
price_actions-In_back region inst_type p ((t, q) ∷ prices) (inr m) =
    inr (price_actions-In_back region inst_type p prices m)

module _ (infoer : CloudInfoer) (region inst_type : String) (p : Price) where
  region_actions-In_out :
      (r : String)
      → In (stores region inst_type p) (region_actions infoer r)
      → (region ≡ r) × IsCurrent infoer region inst_type p
  unfolding region_actions
  region_actions-In_out r m = elim (Result-cases (infoer.get_current_prices r)) [
    | inl (prices, e) ↦
        let (same, i) =
          price_actions-In_out r region inst_type p prices (rw (e, region_actions) at m) in
        (
          same,
          record { prices = prices; answered = ap infoer.get_current_prices same ∙ e; listed = i },
        )
    | inr (x, e) ↦ elim (rw (e, region_actions) at m) [
      | inl f ↦ cc
      | inr n ↦ elim n [ inl f ↦ cc | inr o ↦ elim o [ ] ]
    ]
  ]

  region_actions-In_back :
      IsCurrent infoer region inst_type p
      → In (stores region inst_type p) (region_actions infoer region)
  unfolding region_actions
  region_actions-In_back c =
      rw (c.answered, region_actions) (price_actions-In_back region inst_type p c.prices c.listed)

  goroutines-In_out :
      (regions : List (String × String))
      → InSome (stores region inst_type p) (goroutines infoer regions)
      → ((name : String) × In (region, name) regions) × IsCurrent infoer region inst_type p
  goroutines-In_out [] m = elim m [ ]
  goroutines-In_out ((r, name) ∷ regions) (inl m) =
      let (same, c) = region_actions-In_out r m in ((name, inl (ap (λ x. (x, name)) same)), c)
  goroutines-In_out ((r, name) ∷ regions) (inr m) =
      let ((n, i), c) = goroutines-In_out regions m in ((n, inr i), c)

  goroutines-In_back :
      (regions : List (String × String)) (name : String)
      → In (region, name) regions
      → IsCurrent infoer region inst_type p
      → InSome (stores region inst_type p) (goroutines infoer regions)
  goroutines-In_back [] name i c = elim i [ ]
  goroutines-In_back ((r, n) ∷ regions) name (inl e) c = inl (
      subst (λ x. In (stores region inst_type p) (region_actions infoer x)) (ap (λ x. x.0) e)
        (region_actions-In_back c))
  goroutines-In_back ((r, n) ∷ regions) name (inr i) c = inr (goroutines-In_back regions name i c)

-- No name that the client answers holds a slash, and no price is named twice.
pub record HasTidyPrices (infoer : CloudInfoer) : Type 0 where
  pub region_names : All (λ r. IsName r.0) (price_regions infoer)
  pub type_names :
      (region : String) (prices : List (String × Price))
      → infoer.get_current_prices region ≡ ok prices
      → All (λ p. IsName p.0) prices
  pub types_distinct :
      (region : String) (prices : List (String × Price))
      → infoer.get_current_prices region ≡ ok prices
      → HasDistinctKeys prices

IsCurrent-unique :
    (infoer : CloudInfoer) (region inst_type : String) (p q : Price)
    → HasTidyPrices infoer
    → IsCurrent infoer region inst_type p
    → IsCurrent infoer region inst_type q
    → q ≡ p
IsCurrent-unique infoer region inst_type p q tidy c d =
    In-unique inst_type q p c.prices (tidy.types_distinct region c.prices c.answered)
      (subst (λ l. In (inst_type, q) l) (ok-injective (sym d.answered ∙ c.answered)) d.listed)
      c.listed

module _ (st : CloudInfoStore) (infoer : CloudInfoer) (provider : String) (hp : IsName provider)
    (tidy : HasTidyPrices infoer) where
  trace-IsCurrent :
      (region inst_type : String) (p : Price) (trace : List Action)
      → IsMerge (goroutines infoer (price_regions infoer)) trace
      → In (stores region inst_type p) trace
      → ((name : String) × In (region, name) (price_regions infoer))
        × IsCurrent infoer region inst_type p
  trace-IsCurrent region inst_type p trace merged m =
      goroutines-In_out infoer region inst_type p (price_regions infoer)
        ((IsMerge-In _ _ trace merged).1 m)

  trace-AreNamed :
      (trace : List Action)
      → IsMerge (goroutines infoer (price_regions infoer)) trace
      → AreNamed st infoer provider trace
  trace-AreNamed trace merged region inst_type p m =
      let ((name, i), c) = trace-IsCurrent region inst_type p trace merged m in
      (
        All-In (λ r. IsName r.0) (price_regions infoer) tidy.region_names (region, name) i,
        All-In (λ q. IsName q.0) c.prices (tidy.type_names region c.prices c.answered)
            (inst_type, p) c.listed,
      )

  handle_regions-store :
      (w : World st infoer provider) → (handle_regions st infoer provider w).store ≡ w.store
  unfolding handle_regions emit
  handle_regions-store w = elim (Result-cases (infoer.get_regions "compute")) [
    | inl (regions, e) ↦ rw (e, handle_regions) refl
    | inr (x, e) ↦ rw (e, handle_regions) refl
  ]

  -- In whatever order the goroutines of the regions come: when all have ended, the store has for
  -- a region that is listed, and for each type, the price that the client answered. No name holds
  -- a slash.
  pub price_run-IsCurrent :
      (region inst_type name : String) (p : Price) (w v : World st infoer provider)
      → IsPriceRun st infoer provider w v
      → IsName region
      → IsName inst_type
      → In (region, name) (price_regions infoer)
      → IsCurrent infoer region inst_type p
      → get_price st v.store provider region inst_type ≡ some p
  price_run-IsCurrent region inst_type name p w v run hr ht i c =
      ap (λ s. get_price st s.store provider region inst_type) run.outcome
      ∙ perform-price st infoer provider hp region inst_type hr ht p run.trace _
          (trace-AreNamed run.trace run.merged)
          (λ q m.
            IsCurrent-unique infoer region inst_type p q tidy c
              (trace-IsCurrent region inst_type q run.trace run.merged m).1)
          (inl (
            (IsMerge-In _ _ run.trace run.merged).0
              (goroutines-In_back infoer region inst_type p (price_regions infoer) name i c)))

  -- A price that the client does not answer, because it is gone or the region's call fails, stays
  -- in the store as it was, in whatever order the goroutines come. No name holds a slash.
  pub price_run-stale :
      (region inst_type : String) (w v : World st infoer provider)
      → IsPriceRun st infoer provider w v
      → IsName region
      → IsName inst_type
      → ((p : Price) → IsCurrent infoer region inst_type p → ⊥)
      → get_price st v.store provider region inst_type
        ≡ get_price st w.store provider region inst_type
  price_run-stale region inst_type w v run hr ht away =
      ap (λ s. get_price st s.store provider region inst_type) run.outcome
      ∙ perform-price_other st infoer provider hp region inst_type hr ht run.trace _
          (trace-AreNamed run.trace run.merged)
          (λ q m. away q (trace-IsCurrent region inst_type q run.trace run.merged m).1)
      ∙ ap (λ s. get_price st s provider region inst_type) (handle_regions-store w)

  -- There is such a run: the regions one after the other.
  pub one_by_one-IsPriceRun :
      (w : World st infoer provider)
      → IsPriceRun st infoer provider w (
          perform st infoer provider
            (handle_regions st infoer provider w)
            (one_by_one (goroutines infoer (price_regions infoer))))
  one_by_one-IsPriceRun w = record {
    trace = one_by_one (goroutines infoer (price_regions infoer));
    merged = one_by_one-IsMerge (goroutines infoer (price_regions infoer));
    outcome = refl;
  }
