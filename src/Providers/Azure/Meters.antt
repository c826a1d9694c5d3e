-- ===== src/Providers/Azure/Meters.antt =====
-- `Initialize` of internal/cloudinfo/providers/azure/cloudinfo.go: the prices from the meters of the
-- rate card.
use cloudinfo.Prelude.{
  String, Bool, true, false, not, ◌&&◌, List, [], ◌∷◌, ◌++◌, Option, some, none, str_eq,
  if◌then◌else◌,
}
use cloudinfo.Prelude.Text.{contains}
use cloudinfo.Prelude.Maps.{lookup, insert}
use cloudinfo.Prelude.Float.{Float64, float_zero}
use cloudinfo.Prelude.Result.{Result, ok, err}
use cloudinfo.Types.{Price, empty_price}
use cloudinfo.CloudInfo.{contains_text}
use cloudinfo.Providers.Prices.{price_in, prices_of, set_price}
use cloudinfo.Providers.Azure.RegionIds.{RegionId, found, not_found, out_of_range, to_region_id}
use cloudinfo.Providers.Azure.MachineTypes.{machine_type, get_machine_type_variants}
use cloudinfo.Providers.Azure.Client.{AzureClients, get_regions}

pub record Meter : Type 0 where
  pub meter_category : String
  pub meter_tags : List String
  pub meter_region : String
  pub meter_sub_category : String
  pub meter_name : String
  pub meter_rates : List Float64

-- `appendIfMissing`
unfoldable pub append_if_missing : List String → String → List String
append_if_missing slice s = if contains_text slice s then slice else slice ++ (s ∷ [])

abbrev pub is_nil : List String → Bool
is_nil [] = true
is_nil (s ∷ ss) = false

-- The two tests on a meter.
unfoldable pub is_machine_meter : Meter → Bool
unfolding contains
is_machine_meter v =
    (str_eq v.meter_category "Virtual Machines"
      && (is_nil v.meter_tags && not (str_eq v.meter_region "")))
    && not (contains v.meter_sub_category "Windows")

abbrev pub Prices : Type 0
Prices = List (String × List (String × Price))

abbrev pub or_zero : Option Price → Price
or_zero none = empty_price
or_zero (some price) = price

-- The price of a type with that of the meter in it.
abbrev pub metered : String → String → Float64 → Price → Price
metered meter_name region usd price =
    if not (contains meter_name "Low Priority")
    then record price { on_demand_price = usd }
    else record price { spot_price = insert region usd [] }

unfoldable pub set_all : String → Price → List String → Prices → Prices
unfolding set_price
set_all region price [] all_prices = all_prices
set_all region price (type ∷ types) all_prices =
    set_all region price types (set_price region type price all_prices)

-- The prices after a meter, with the regions that were not found.
pub record Metered : Type 0 where
  pub all_prices : Prices
  pub missing_regions : List String

-- A step after one that may panic.
abbrev pub and_then {ℓ κ} : {A : Type ℓ} {B : Type κ} → Option A → (A → Option B) → Option B
and_then none next = none
and_then (some a) next = next a

-- What a type's variants are given; `none` is a panic.
unfoldable pub price_variants : String → Price → Option (List String) → Prices → Option Prices
unfolding set_all
price_variants region price none all_prices = none
price_variants region price (some types) all_prices = some (set_all region price types all_prices)

-- The loop over the types of a meter.
unfoldable pub price_types : String → String → Float64 → List String → Prices → Option Prices
unfolding price_variants get_machine_type_variants set_price lookup
price_types meter_name region usd [] all_prices = some all_prices
price_types meter_name region usd (type ∷ types) all_prices =
    let price = metered meter_name region usd (or_zero (price_in region type all_prices)) in
    and_then
      (price_variants region price (get_machine_type_variants type)
        (set_price region type price all_prices))
      (price_types meter_name region usd types)

-- `for _, rate := range v.MeterRates { priceInUsd += *rate }`
unfoldable pub total : (Float64 → Float64 → Float64) → List Float64 → Float64 → Float64
total plus [] usd = usd
total plus (rate ∷ rates) usd = total plus rates (plus usd rate)

-- `if allPrices[region] == nil { allPrices[region] = make(…) }`
abbrev pub made : String → Prices → Prices
made region all_prices = insert region (prices_of region all_prices) all_prices

abbrev pub has_rates : Meter → Bool
has_rates v = elim v.meter_rates [ [] ↦ false | rate ∷ rates ↦ true ]

abbrev pub finished : Option Metered → Option (Result String Prices)
finished none = none
finished (some m) = some (ok m.all_prices)

abbrev pub no_meters : Metered
no_meters = record { all_prices = []; missing_regions = [] }

module _ (plus : Float64 → Float64 → Float64) where
  -- A meter of machines in a region that was found.
  unfoldable pub price_region : String → Meter → Prices → Option Prices
  unfolding price_types total machine_type insert lookup
  price_region region v all_prices =
      let priced =
        price_types v.meter_name region (total plus v.meter_rates float_zero)
          (machine_type v.meter_name v.meter_sub_category) (made region all_prices) in
      if has_rates v then priced else some all_prices

  -- The body of the loop for a meter that passes the tests.
  unfoldable pub price_meter : RegionId → Meter → Metered → Option Metered
  unfolding price_region append_if_missing
  price_meter out_of_range v m = none
  price_meter not_found v m =
      some (record m { missing_regions = append_if_missing m.missing_regions v.meter_region })
  price_meter (found region) v m =
      and_then (price_region region v m.all_prices)
        λ prices. some (record m { all_prices = prices })

  -- The loop over the meters; `none` is a panic.
  unfoldable pub price_meters : List (String × String) → List Meter → Metered → Option Metered
  unfolding price_meter is_machine_meter to_region_id
  price_meters regions [] m = some m
  price_meters regions (v ∷ meters) m =
      let priced =
        and_then (price_meter (to_region_id v.meter_region regions) v m)
          (price_meters regions meters) in
      let skipped = price_meters regions meters m in if is_machine_meter v then priced else skipped

  -- `Initialize`; `none` is a panic.
  unfoldable pub initialize :
      AzureClients → Result String (List Meter) → Option (Result String Prices)
  unfolding get_regions price_meters
  initialize clients rate_card = elim (get_regions clients "compute") [
    | err e ↦ some (err e)
    | ok regions ↦ elim rate_card [
      | err e ↦ some (err e)
      | ok meters ↦ finished (price_meters regions meters no_meters)
    ]
  ]
