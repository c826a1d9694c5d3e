-- ===== src/Providers/Prices.antt =====
-- Maps of maps, such as `allPrices` from regions to types to prices that the clients fill in
-- `Initialize`.
use cloudinfo.Prelude.{
  String, ◌≡◌, refl, ap, ◌∙◌, inl, inr, Bool, true, false, ◌&&◌, List, [], Option, some, none,
  str_eq, eq_iff, if◌then◌else◌, Bool-cases, arith,
}
use cloudinfo.Prelude.Maps.{lookup, insert, lookup-insert}

pub str_eq-sym : (a b : String) → str_eq a b ≡ str_eq b a
str_eq-sym a b = grind (arith, eq_iff a b, eq_iff b a)

module _ {V : Type 0} where
  abbrev pub or_empty : Option (List (String × V)) → List (String × V)
  or_empty none = []
  or_empty (some prices) = prices

  -- `allPrices[region]`, where a missing map is as good as an empty one.
  abbrev pub prices_of : String → List (String × List (String × V)) → List (String × V)
  prices_of region all_prices = or_empty (lookup region all_prices)

  -- `allPrices[region][type]`
  abbrev pub price_in : String → String → List (String × List (String × V)) → Option V
  price_in region type all_prices = lookup type (prices_of region all_prices)

  -- `allPrices[region][type] = price`, after `allPrices[region]` has been made if it was nil.
  unfoldable pub set_price :
      String → String → V → List (String × List (String × V)) → List (String × List (String × V))
  unfolding insert
  set_price region type price all_prices =
      insert region (insert type price (prices_of region all_prices)) all_prices

  price_in-insert :
      (region type r : String) (prices : List (String × V)) (m : List (String × List (String × V)))
      → price_in region type (insert r prices m)
        ≡ (if str_eq r region then lookup type prices else price_in region type m)
  price_in-insert region type r prices m =
      ap (λ o. lookup type (or_empty o)) (lookup-insert r region prices m)
      ∙ chosen (str_eq r region)
    where
      chosen :
          (b : Bool)
          → lookup type (or_empty (if b then some prices else lookup region m))
            ≡ (if b then lookup type prices else price_in region type m)
      chosen true = refl
      chosen false = refl

  pub price_in-set_price :
      (region type r t : String) (p : V) (m : List (String × List (String × V)))
      → price_in region type (set_price r t p m)
        ≡ (if str_eq region r && str_eq type t then some p else price_in region type m)
  unfolding set_price
  price_in-set_price region type r t p m = price_in-insert region type r _ m ∙ priced
    where
      priced :
          (if str_eq r region
            then lookup type (insert t p (prices_of r m))
            else price_in region type m)
          ≡ (if str_eq region r && str_eq type t then some p else price_in region type m)
      priced = elim (Bool-cases (str_eq region r)) [
        | inl same ↦
            rw
              (
                str_eq-sym r region,
                same,
                lookup-insert t type p (prices_of r m),
                str_eq-sym t type,
                (eq_iff region r).0 same,
              )
              refl
        | inr other ↦ rw (str_eq-sym r region, other) refl
      ]
