-- ===== src/Providers/Google/Prices.antt =====
-- `getPrice` and the loops of `Initialize` in internal/cloudinfo/providers/google/cloudinfo.go. The
-- arithmetic of floats is a parameter, and units, nanos, vCPUs and memory are natural numbers.
use cloudinfo.Prelude.{
  ℕ, String, false, not, ◌&&◌, ◌||◌, List, [], ◌∷◌, Option, none, some, str_eq, if◌then◌else◌,
}
use cloudinfo.Prelude.Text.{contains}
use cloudinfo.Prelude.Maps.{lookup, insert}
use cloudinfo.Prelude.Float.{Float64, float_zero}
use cloudinfo.Prelude.FloatOfInt.{float_of_int}
use cloudinfo.Prelude.Result.{Result, ok, err, ◌>>=◌}
use cloudinfo.Types.{Price}
use cloudinfo.CloudInfo.{contains_text}
use cloudinfo.Providers.Prices.{or_empty, price_in, set_price}
use cloudinfo.Providers.Google.Machines.{MachineType}

-- `cloudbilling.Money`
pub record Money : Type 0 where
  pub units : ℕ
  pub nanos : ℕ

-- `cloudbilling.Sku`, with the tiered rates of each of its `PricingInfo`.
pub record Sku : Type 0 where
  pub resource_group : String
  pub usage_type : String
  pub description : String
  pub service_regions : List String
  pub pricing_info : List (List Money)

-- The prices of the devices of a region, by the type of their usage.
abbrev pub DevicePrices : Type 0
DevicePrices = List (String × List (String × Float64))

-- `1e-9` and `1024`
abbrev pub float_nano : Float64
float_nano = record { is_negative = false; magnitude = 0x3e11_2e0b_e826_d695 }

abbrev pub float_1024 : Float64
float_1024 = record { is_negative = false; magnitude = 0x4090_0000_0000_0000 }

-- The arithmetic of `float64`.
pub record FloatOps : Type 0 where
  pub plus : Float64 → Float64 → Float64
  pub times : Float64 → Float64 → Float64
  pub over : Float64 → Float64 → Float64

-- `price[region][device] = priceFromSku(price, region, device, priceType, priceInUsd)`
unfoldable pub price_from_sku :
    String → String → String → Float64 → List (String × DevicePrices) → List (String × DevicePrices)
unfolding set_price insert lookup
price_from_sku region device price_type price_in_usd price =
    set_price region device
      (insert price_type price_in_usd (or_empty (price_in region device price))) price

-- The loop over `sku.ServiceRegions`.
unfoldable pub price_service_regions :
    String
    → String
    → Float64
    → List String
    → List (String × DevicePrices)
    → List (String × DevicePrices)
unfolding price_from_sku
price_service_regions device price_type price_in_usd [] price = price
price_service_regions device price_type price_in_usd (region ∷ regions) price =
    price_service_regions device price_type price_in_usd regions
      (price_from_sku region device price_type price_in_usd price)

-- The device that a SKU prices, if it prices one.
unfoldable pub sku_device : Sku → Option String
unfolding contains
sku_device sku =
    let group = sku.resource_group in
    if str_eq group "G1Small"
    then some "g1-small"
    else (if str_eq group "F1Micro"
        then some "f1-micro"
        else (if str_eq group "N1Standard" && not (contains sku.description "Upgrade Premium")
            then (if contains sku.description "Instance Ram" then some "memory" else some "cpu")
            else none))

-- `price[device][usage]`, where a missing price is 0.
unfoldable pub usage_price : String → String → DevicePrices → Float64
unfolding lookup
usage_price device usage price = elim (price_in device usage price) [
  | none ↦ float_zero
  | some p ↦ p
]

-- The loop over the zones of the region that are known so far.
unfoldable pub zone_spot_prices :
    Float64 → List String → List (String × Float64) → List (String × Float64)
unfolding insert
zone_spot_prices p [] spot_price = spot_price
zone_spot_prices p (z ∷ zones) spot_price = zone_spot_prices p zones (insert z p spot_price)

abbrev pub unsupported_instance_types : List String
unsupported_instance_types =
    "n1-ultramem-40" ∷ "n1-ultramem-80" ∷ "n1-megamem-96" ∷ "n1-ultramem-160" ∷ []

abbrev pub known_zones : Option (List String) → List String
known_zones none = []
known_zones (some zones) = zones

module _ (ops : FloatOps) where
  unfoldable pub sum_rates : List Money → Float64 → Float64
  unfolding float_of_int
  sum_rates [] price_in_usd = price_in_usd
  sum_rates (tr ∷ tiered_rates) price_in_usd = sum_rates tiered_rates (
      ops.plus price_in_usd
        (ops.plus (float_of_int tr.units) (ops.times (float_of_int tr.nanos) float_nano)))

  -- `priceInUsd`
  unfoldable pub price_in_usd_of : List (List Money) → Result String Float64
  unfolding sum_rates
  price_in_usd_of (tiered_rates ∷ []) = ok (sum_rates tiered_rates float_zero)
  price_in_usd_of _ = err "pricing info not parsable"

  unfoldable pub price_sku :
      Option String
      → Sku
      → List (String × DevicePrices)
      → Result String (List (String × DevicePrices))
  unfolding price_in_usd_of price_service_regions
  price_sku none sku price = ok price
  price_sku (some device) sku price = price_in_usd_of sku.pricing_info >>= λ usd.
      ok (price_service_regions device sku.usage_type usd sku.service_regions price)

  -- The loop over the SKUs of the pages.
  unfoldable pub price_skus :
      List Sku → List (String × DevicePrices) → Result String (List (String × DevicePrices))
  unfolding sku_device price_sku
  price_skus [] price = ok price
  price_skus (sku ∷ skus) price = price_sku (sku_device sku) sku price >>= price_skus skus

  -- The price of a machine for a type of usage.
  unfoldable pub machine_price : DevicePrices → String → MachineType → Float64
  unfolding usage_price float_of_int
  machine_price price usage mt =
      let cpu = ops.times (usage_price "cpu" usage price) (float_of_int mt.guest_cpus) in
      let memory = ops.times (usage_price "memory" usage price) (float_of_int mt.memory_mb) in
      if str_eq mt.name "f1-micro" || str_eq mt.name "g1-small"
      then usage_price mt.name usage price
      else ops.plus cpu (ops.over memory float_1024)

  -- The loop over the types of machines, for a region with its prices and zones.
  unfoldable pub price_machines :
      String
      → DevicePrices
      → List String
      → List MachineType
      → List (String × List (String × Price))
      → List (String × List (String × Price))
  unfolding contains_text machine_price zone_spot_prices set_price
  price_machines region price zones [] all_prices = all_prices
  price_machines region price zones (mt ∷ mts) all_prices =
      let priced : Price = record {
        on_demand_price = machine_price price "OnDemand" mt;
        spot_price = zone_spot_prices (machine_price price "Preemptible" mt) zones [];
      } in
      price_machines region price zones mts (
        if not (contains_text unsupported_instance_types mt.name)
        then set_price region mt.name priced all_prices
        else all_prices)

  -- The loop over `pricePerRegion`.
  unfoldable pub price_listed_regions :
      List (String × DevicePrices)
      → List (String × List String)
      → List MachineType
      → List (String × List (String × Price))
      → List (String × List (String × Price))
  unfolding price_machines lookup
  price_listed_regions [] zones_in_regions mts all_prices = all_prices
  price_listed_regions ((region, price) ∷ price_per_region) zones_in_regions mts all_prices =
      price_listed_regions price_per_region zones_in_regions mts
        (price_machines region price (known_zones (lookup region zones_in_regions)) mts all_prices)
