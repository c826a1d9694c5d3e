-- ===== src/Json/Marshal.antt =====
-- `json.Marshal` and `json.Unmarshal` at what the stores keep under each kind of key. A number
-- that is infinite or no number and a date after the year 9999 have no text, and `Marshal` fails.
use cloudinfo.Prelude.{
  ℕ, String, ◌≡◌, refl, sym, ◌∙◌, subst, inl, inr, Bool-cases, some-injective, Bool, true, false,
  ◌&&◌, List, [], ◌∷◌, Option, none, some, ltb, if◌then◌else◌,
}
use cloudinfo.Prelude.Float.{Float64, infinity_magnitude}
use cloudinfo.Prelude.Result.{Result, ok}
use cloudinfo.Types.{ZonePrice, Image, VmInfo}
use cloudinfo.Store.Key.{
  Key, Content, vm_key, price_key, zone_key, image_key, version_key, region_key, status_key,
  services_key,
}
use cloudinfo.Json.{
  Json, text, array, JsonError, as_text, encode_items, decode_list, decode_map,
  decode_items-encode_items, decode_fields-encode_map,
}
use cloudinfo.Json.Codec.{
  encode_price, decode_price, encode_version, decode_version, encode_service, decode_service,
  encode_image, decode_image, encode_vm, decode_vm, encode_strings, decode_strings,
  encode_string_map, decode_string_map,
}
use cloudinfo.Json.RoundTrip.{
  decode_price-encode_price, decode_version-encode_version, decode_service-encode_service,
  decode_image-encode_image, decode_vm-encode_vm,
}

abbrev is_finite : Float64 → Bool
is_finite f = ltb f.magnitude infinity_magnitude

abbrev all_finite : List ZonePrice → Bool
all_finite [] = true
all_finite (p ∷ prices) = is_finite p.price && all_finite prices

abbrev spot_finite : List (String × Float64) → Bool
spot_finite [] = true
spot_finite ((zone, price) ∷ prices) = is_finite price && spot_finite prices

abbrev vms_finite : List VmInfo → Bool
vms_finite [] = true
vms_finite (vm ∷ vms) =
    ((is_finite vm.on_demand_price && is_finite vm.cpus) && (is_finite vm.mem && is_finite vm.gpus))
    && (all_finite vm.spot_price && vms_finite vms)

-- The nanoseconds from the zero time, in the year 1, to the year 10000.
abbrev end_of_dates : ℕ
end_of_dates = 315_537_897_600_000_000_000

abbrev dates_in_range : List Image → Bool
dates_in_range [] = true
dates_in_range (i ∷ images) = ltb i.creation_date end_of_dates && dates_in_range images

-- The values that have a text.
abbrev pub is_marshalable : (k : Key) → Content k → Bool
is_marshalable (vm_key p s r) vms = vms_finite vms
is_marshalable (price_key p r t) price =
    is_finite price.on_demand_price && spot_finite price.spot_price
is_marshalable (zone_key p s r) zones = true
is_marshalable (image_key p s r) images = dates_in_range images
is_marshalable (version_key p s r) versions = true
is_marshalable (region_key p s) regions = true
is_marshalable (status_key p) status = true
is_marshalable (services_key p) services = true

abbrev pub encode_content : (k : Key) → Content k → Json
encode_content (vm_key p s r) vms = array (encode_items encode_vm vms)
encode_content (price_key p r t) price = encode_price price
encode_content (zone_key p s r) zones = encode_strings zones
encode_content (image_key p s r) images = array (encode_items encode_image images)
encode_content (version_key p s r) versions = array (encode_items encode_version versions)
encode_content (region_key p s) regions = encode_string_map regions
encode_content (status_key p) status = text status
encode_content (services_key p) services = array (encode_items encode_service services)

-- `Unmarshal` into the variable that the getter declares.
abbrev pub unmarshal : (k : Key) → Json → Result JsonError (Content k)
unmarshal (vm_key p s r) j = decode_list decode_vm j
unmarshal (price_key p r t) j = decode_price j
unmarshal (zone_key p s r) j = decode_strings j
unmarshal (image_key p s r) j = decode_list decode_image j
unmarshal (version_key p s r) j = decode_list decode_version j
unmarshal (region_key p s) j = decode_string_map j
unmarshal (status_key p) j = as_text j
unmarshal (services_key p) j = decode_list decode_service j

-- `Marshal`
unfoldable pub marshal : (k : Key) → Content k → Option Json
marshal k v = if is_marshalable k v then some (encode_content k v) else none

-- What is written is read back: the slices in their order, each struct with all its fields.
pub unmarshal-encode_content : (k : Key) (v : Content k) → unmarshal k (encode_content k v) ≡ ok v
unfolding decode_list decode_map
unmarshal-encode_content (vm_key p s r) v =
    decode_items-encode_items encode_vm decode_vm v decode_vm-encode_vm
unmarshal-encode_content (price_key p r t) v = decode_price-encode_price v
unmarshal-encode_content (zone_key p s r) v = decode_items-encode_items text as_text v λ x. refl
unmarshal-encode_content (image_key p s r) v =
    decode_items-encode_items encode_image decode_image v decode_image-encode_image
unmarshal-encode_content (version_key p s r) v =
    decode_items-encode_items encode_version decode_version v decode_version-encode_version
unmarshal-encode_content (region_key p s) v = decode_fields-encode_map text as_text v λ x. refl
unmarshal-encode_content (status_key p) v = refl
unmarshal-encode_content (services_key p) v =
    decode_items-encode_items encode_service decode_service v decode_service-encode_service

pub marshal-is_marshalable :
    (k : Key) (v : Content k) → is_marshalable k v ≡ true → marshal k v ≡ some (encode_content k v)
unfolding marshal
marshal-is_marshalable k v h = rw h refl

pub marshal-not_marshalable :
    (k : Key) (v : Content k) → is_marshalable k v ≡ false → marshal k v ≡ none
unfolding marshal
marshal-not_marshalable k v h = rw h refl

-- `Unmarshal` reads back exactly what `Marshal` wrote, under every kind of key.
pub unmarshal-marshal :
    (k : Key) (v : Content k) (j : Json) → marshal k v ≡ some j → unmarshal k j ≡ ok v
unmarshal-marshal k v j e = elim (Bool-cases (is_marshalable k v)) [
  | inl h ↦
      subst (λ x. unmarshal k x ≡ ok v) (some-injective (sym (marshal-is_marshalable k v h) ∙ e))
        (unmarshal-encode_content k v)
  | inr h ↦ cc (e, marshal-not_marshalable k v h)
]
