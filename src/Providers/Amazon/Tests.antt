-- ===== src/Providers/Amazon/Tests.antt =====
-- Tests of the client of Amazon, and its theorems at concrete inputs.
use cloudinfo.Prelude.{
  ℕ, String, ◌≡◌, refl, List, [], ◌∷◌, Option, some, none, str_eq, if◌then◌else◌,
}
use cloudinfo.Prelude.Text.{has_prefix, concat}
use cloudinfo.Prelude.Maps.{lookup}
use cloudinfo.Prelude.Float.{Float64, float_one, float_two}
use cloudinfo.Prelude.Result.{ok, err}
use cloudinfo.Types.{Price}
use cloudinfo.CloudInfo.{contains_text}
use cloudinfo.Json.{Json, text, object, Fields, no_fields, field, member}
use cloudinfo.Providers.Groups.{group_of}
use cloudinfo.Providers.Amazon.PriceData.{
  map_network_perf, network_performance_categories, get_on_demand_price, price_text, no_price,
  bad_assertion, get_map_for_key,
}
use cloudinfo.Providers.Amazon.Images.{Ec2Image, get_latest_image, IsLatest}
use cloudinfo.Providers.Amazon.Latest.{get_latest_image-IsLatest}
use cloudinfo.Providers.Amazon.Spot.{
  SpotEntry, get_current_prices, zone_price_of, last_price, get_current_prices-last_price,
  minus_one, get_spot_prices_from_prometheus,
}
use cloudinfo.Providers.Amazon.Client.{price_location}

map_network_perf_tests :
    (map_network_perf network_performance_categories "Up to 10 Gigabit" ≡ some "high")
    × (map_network_perf network_performance_categories "5 Gigabit" ≡ none)
unfolding map_network_perf group_of contains_text
map_network_perf_tests = (refl, refl)

price_location_tests :
    (price_location (some "Europe (Ireland)") ≡ some "EU (Ireland)")
    × (price_location (some "US West (Oregon)") ≡ some "US West (Oregon)")
    × (price_location (some "Europe") ≡ none)
    × (price_location none ≡ none)
unfolding price_location has_prefix concat
price_location_tests = (refl, refl, refl, refl)

abbrev one : String → Json → Fields
one key value = field key value no_fields

abbrev price_entry : Json → Fields
price_entry term = one "terms" (object (one "OnDemand" (object (one "t" term))))

abbrev dimension : Json
dimension = object (one "pricePerUnit" (object (one "USD" (text "0.085"))))

get_on_demand_price_tests :
    (get_on_demand_price (price_entry (object (one "priceDimensions" (object (one "d" dimension)))))
      ≡ price_text "0.085")
    × (get_on_demand_price (price_entry (object no_fields)) ≡ no_price)
    × (get_on_demand_price (price_entry (text "t")) ≡ bad_assertion)
    × (get_on_demand_price no_fields ≡ no_price)
unfolding get_on_demand_price get_map_for_key member
get_on_demand_price_tests = (refl, refl, refl, refl)

abbrev image : String → Ec2Image
image created = record { image_id = created; created = created; image_tags = [] }

abbrev parse_date : String → Option ℕ
parse_date s = if str_eq s "monday" then some 5 else (if str_eq s "tuesday" then some 6 else none)

found_tuesday :
    get_latest_image parse_date (image "monday" ∷ image "tuesday" ∷ image "monday" ∷ [])
    ≡ ok (some (image "tuesday"))
unfolding get_latest_image
found_tuesday = refl

get_latest_image-IsLatest_example :
    IsLatest parse_date
      (image "monday" ∷ image "tuesday" ∷ image "monday" ∷ [])
      (some (image "tuesday"))
get_latest_image-IsLatest_example =
    get_latest_image-IsLatest parse_date (image "monday" ∷ image "tuesday" ∷ image "monday" ∷ [])
      (some (image "tuesday")) found_tuesday

abbrev parse_float : String → Option Float64
parse_float s =
    if str_eq s "1" then some float_one else (if str_eq s "2" then some float_two else none)

abbrev entry : String → String → SpotEntry
entry zone price = record {
  instance_type = "c5.large";
  availability_zone = zone;
  spot_price = price;
}

abbrev history : List SpotEntry
history = entry "a" "1" ∷ entry "b" "1" ∷ entry "a" "2" ∷ entry "a" "no number" ∷ []

abbrev current : List (String × Price)
current =
    (
      "c5.large",
      record { on_demand_price = minus_one; spot_price = ("a", float_two) ∷ ("b", float_one) ∷ [] },
    )
    ∷ []

current_prices : get_current_prices parse_float (some (err "down")) (ok history) ≡ ok current
unfolding get_current_prices lookup
current_prices = refl

get_current_prices-last_price_example :
    zone_price_of "a" (lookup "c5.large" current) ≡ last_price parse_float "c5.large" "a" history
unfolding get_spot_prices_from_prometheus
get_current_prices-last_price_example =
    get_current_prices-last_price parse_float (some (err "down")) history current "c5.large" "a"
      refl current_prices
