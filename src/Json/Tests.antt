-- ===== src/Json/Tests.antt =====
-- The round trip through JSON at a concrete value.
use cloudinfo.Prelude.{◌≡◌, refl, Bool, [], ◌∷◌, some, none}
use cloudinfo.Prelude.Float.{float_one, infinity_magnitude}
use cloudinfo.Prelude.Result.{ok}
use cloudinfo.Types.{Price}
use cloudinfo.Store.Key.{price_key}
use cloudinfo.Json.Marshal.{encode_content, marshal, unmarshal, unmarshal-marshal}

abbrev price : Price
price = record { on_demand_price = float_one; spot_price = ("a", float_one) ∷ [] }

abbrev infinite : Price
infinite = record {
  on_demand_price = record { is_negative = Bool.false; magnitude = infinity_magnitude };
  spot_price = [];
}

marshal_price :
    marshal (price_key "amazon" "eu-west-1" "c5.large") price
    ≡ some (encode_content (price_key "amazon" "eu-west-1" "c5.large") price)
unfolding marshal
marshal_price = refl

marshal-infinite : marshal (price_key "amazon" "eu-west-1" "c5.large") infinite ≡ none
unfolding marshal
marshal-infinite = refl

unmarshal-marshal_example :
    unmarshal
      (price_key "amazon" "eu-west-1" "c5.large")
      (encode_content (price_key "amazon" "eu-west-1" "c5.large") price)
    ≡ ok price
unmarshal-marshal_example =
    unmarshal-marshal (price_key "amazon" "eu-west-1" "c5.large") price
      (encode_content (price_key "amazon" "eu-west-1" "c5.large") price) marshal_price
