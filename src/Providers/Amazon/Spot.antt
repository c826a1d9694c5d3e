-- ===== src/Providers/Amazon/Spot.antt =====
-- The spot prices of Amazon in internal/cloudinfo/providers/amazon/cloudinfo.go: from Prometheus, and
-- from the history that the API answers page by page, of which the entries are a list.
use cloudinfo.Prelude.{
  String, ◌≡◌, refl, ◌∙◌, ap, subst, inl, inr, Bool, true, ◌&&◌, List, [], ◌∷◌, Option, some, none,
  str_eq, if◌then◌else◌, Bool-cases, Option-cases, arith,
}
use cloudinfo.Prelude.Maps.{lookup}
use cloudinfo.Prelude.Float.{Float64}
use cloudinfo.Prelude.Result.{Result, ok, err, ◌>>=◌, ok-injective}
use cloudinfo.Types.{Price}
use cloudinfo.Providers.Prices.{set_price, price_in, price_in-set_price}

pub record SpotEntry : Type 0 where
  pub instance_type : String
  pub availability_zone : String
  pub spot_price : String

abbrev pub SpotPrices : Type 0
SpotPrices = List (String × List (String × Float64))

abbrev pub minus_one : Float64
minus_one = record { is_negative = true; magnitude = 0x3ff0_0000_0000_0000 }

abbrev pub or_nothing : {A : Type 0} → Result String (List A) → List A
or_nothing (ok found) = found
or_nothing (err e) = []

abbrev pub if_empty : {A : Type 0} → List A → Result String (List A) → Result String (List A)
if_empty [] other = other
if_empty (a ∷ found) other = ok (a ∷ found)

-- The loop of `GetCurrentPrices` over the spot prices.
unfoldable pub priced_types : SpotPrices → List (String × Price)
priced_types [] = []
priced_types ((type, sp) ∷ rest) =
    (type, record { on_demand_price = minus_one; spot_price = sp }) ∷ priced_types rest

-- The spot price of a type in a zone.
abbrev pub zone_price_of : String → Option Price → Option Float64
zone_price_of zone none = none
zone_price_of zone (some price) = lookup zone price.spot_price

lookup-priced_types :
    (type zone : String) (prices : SpotPrices)
    → zone_price_of zone (lookup type (priced_types prices)) ≡ price_in type zone prices
unfolding priced_types lookup
lookup-priced_types type zone [] = refl
lookup-priced_types type zone ((t, sp) ∷ rest) = elim (Bool-cases (str_eq t type)) [
  | inl same ↦ rw same refl
  | inr other ↦ rw other (lookup-priced_types type zone rest)
]

abbrev pub or_else : Option Float64 → Option Float64 → Option Float64
or_else none other = other
or_else (some a) other = some a

unread :
    (l : Option Float64) (b : Bool) (x : Option Float64)
    → or_else l x ≡ or_else (or_else l (if b then none else none)) x
unread l b x = ground arith

read :
    (l : Option Float64) (b : Bool) (p : Float64) (x : Option Float64)
    → or_else l (if b then some p else x) ≡ or_else (or_else l (if b then some p else none)) x
read l b p x = ground arith

-- `parse_float` is `strconv.ParseFloat`, with `none` for an error.
module _ (parse_float : String → Option Float64) where
  -- The callback of `getCurrentSpotPrices` on the entries, of which those with no number are left out.
  unfoldable pub current_spot_prices : List SpotEntry → SpotPrices → SpotPrices
  unfolding set_price
  current_spot_prices [] price_info = price_info
  current_spot_prices (pe ∷ history) price_info = elim (parse_float pe.spot_price) [
    | none ↦ current_spot_prices history price_info
    | some price ↦
        current_spot_prices history
          (set_price pe.instance_type pe.availability_zone price price_info)
  ]

  -- The loop of `getSpotPricesFromPrometheus`, which ends with an error at an entry with no number.
  unfoldable pub prometheus_spot_prices : List SpotEntry → SpotPrices → Result String SpotPrices
  unfolding set_price
  prometheus_spot_prices [] price_info = ok price_info
  prometheus_spot_prices (value ∷ vector) price_info = elim (parse_float value.spot_price) [
    | none ↦ err "invalid syntax"
    | some price ↦
        prometheus_spot_prices vector
          (set_price value.instance_type value.availability_zone price price_info)
  ]

  -- `getSpotPricesFromPrometheus` and `getCurrentSpotPrices` on the answers of the calls.
  unfoldable pub get_spot_prices_from_prometheus :
      Result String (List SpotEntry) → Result String SpotPrices
  unfolding prometheus_spot_prices
  get_spot_prices_from_prometheus answer = answer >>= λ vector. prometheus_spot_prices vector []

  unfoldable pub get_current_spot_prices : Result String (List SpotEntry) → Result String SpotPrices
  unfolding current_spot_prices
  get_current_spot_prices answer = answer >>= λ history. ok (current_spot_prices history [])

  -- The prices of Prometheus; there is no Prometheus, it fails, or it has none: then the list is empty.
  abbrev pub from_prometheus : Option (Result String (List SpotEntry)) → SpotPrices
  from_prometheus none = []
  from_prometheus (some answer) = or_nothing (get_spot_prices_from_prometheus answer)

  -- `GetCurrentPrices`, with the answer of Prometheus if it is configured, and that of the API.
  unfoldable pub get_current_prices :
      Option (Result String (List SpotEntry))
      → Result String (List SpotEntry)
      → Result String (List (String × Price))
  unfolding get_spot_prices_from_prometheus get_current_spot_prices priced_types
  get_current_prices prometheus history =
      if_empty (from_prometheus prometheus) (get_current_spot_prices history) >>= λ spot_prices.
      ok (priced_types spot_prices)

  -- The number of the last entry for a type and a zone that has one.
  unfoldable pub last_price : String → String → List SpotEntry → Option Float64
  last_price type zone [] = none
  last_price type zone (pe ∷ history) = or_else (last_price type zone history) (
      if str_eq type pe.instance_type && str_eq zone pe.availability_zone
      then parse_float pe.spot_price
      else none)

  price_in-current_spot_prices :
      (type zone : String) (history : List SpotEntry) (m : SpotPrices)
      → price_in type zone (current_spot_prices history m)
        ≡ or_else (last_price type zone history) (price_in type zone m)
  unfolding current_spot_prices last_price
  price_in-current_spot_prices type zone [] m = refl
  price_in-current_spot_prices type zone (pe ∷ history) m =
      elim (Option-cases (parse_float pe.spot_price)) [
        | inl missing ↦
            rw (missing, current_spot_prices)
              (price_in-current_spot_prices type zone history m
                ∙ unread (last_price type zone history)
                    (str_eq type pe.instance_type && str_eq zone pe.availability_zone)
                    (price_in type zone m))
        | inr (price, there) ↦
            rw (there, current_spot_prices)
              (price_in-current_spot_prices type zone history _
                ∙ ap (or_else (last_price type zone history))
                    (price_in-set_price type zone pe.instance_type pe.availability_zone price m)
                ∙ read (last_price type zone history)
                    (str_eq type pe.instance_type && str_eq zone pe.availability_zone) price
                    (price_in type zone m))
      ]

  or_else-none : (o : Option Float64) → or_else o none ≡ o
  or_else-none none = refl
  or_else-none (some a) = refl

  -- Where Prometheus is not configured, fails or has no prices, the spot price of a type in a zone is
  -- the number of the last entry for both in the history of the API that has one.
  pub get_current_prices-last_price :
      (prometheus : Option (Result String (List SpotEntry))) (history : List SpotEntry)
      (prices : List (String × Price)) (type zone : String)
      → from_prometheus prometheus ≡ []
      → get_current_prices prometheus (ok history) ≡ ok prices
      → zone_price_of zone (lookup type prices) ≡ last_price type zone history
  unfolding get_current_prices get_current_spot_prices last_price lookup
  get_current_prices-last_price prometheus history prices type zone unused answered =
      let same : ok (priced_types (current_spot_prices history [])) ≡ ok prices =
        rw unused at answered in
      subst (λ p. zone_price_of zone (lookup type p) ≡ last_price type zone history)
        (ok-injective same)
        (lookup-priced_types type zone (current_spot_prices history [])
          ∙ price_in-current_spot_prices type zone history []
          ∙ or_else-none (last_price type zone history))
