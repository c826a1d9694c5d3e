-- ===== src/Json/RoundTrip.antt =====
-- What is read back of what was written.
use cloudinfo.Prelude.{
  ℕ, String, ◌≡◌, refl, Bool, true, false, List, [], ◌∷◌, str_eq, eq_iff, Bool-cases, inl, inr,
}
use cloudinfo.Prelude.Result.{ok}
use cloudinfo.Types.{ZonePrice, Price, VmInfo, Image, LocationVersion, Service}
use cloudinfo.Json.{
  text, member, as_text, decode_field, encode_items, decode_items, decode_list, encode_map,
  decode_map, decode_fields, decode_items-encode_items, decode_fields-encode_map,
}
use cloudinfo.Json.Codec.{
  encode_float, decode_float, encode_zone_price, decode_zone_price, encode_price, decode_price,
  encode_version, decode_version, encode_service, decode_service, encode_image, decode_image,
  encode_vm, decode_vm,
}

texts : (xs : List String) → decode_items as_text (encode_items text xs) ≡ ok xs
texts xs = decode_items-encode_items text as_text xs λ s. refl

text_fields : (m : List (String × String)) → decode_fields as_text (encode_map text m) ≡ ok m
text_fields m = decode_fields-encode_map text as_text m λ s. refl

decode_zone_price-encode_zone_price :
    (p : ZonePrice) → decode_zone_price (encode_zone_price p) ≡ ok p
unfolding decode_zone_price encode_zone_price decode_field member
decode_zone_price-encode_zone_price p = refl

pub decode_price-encode_price : (p : Price) → decode_price (encode_price p) ≡ ok p
unfolding decode_price encode_price decode_field member decode_map
decode_price-encode_price p =
    rw (decode_fields-encode_map encode_float decode_float p.spot_price (λ f. refl)) refl

pub decode_version-encode_version : (v : LocationVersion) → decode_version (encode_version v) ≡ ok v
unfolding decode_version encode_version decode_field member decode_list
decode_version-encode_version v = rw (texts v.versions) refl

pub decode_service-encode_service : (s : Service) → decode_service (encode_service s) ≡ ok s
unfolding decode_service encode_service decode_field member
decode_service-encode_service s = refl

pub decode_vm-encode_vm : (vm : VmInfo) → decode_vm (encode_vm vm) ≡ ok vm
unfolding decode_vm encode_vm decode_field member decode_list decode_map
decode_vm-encode_vm vm =
    rw
      (
        decode_items-encode_items encode_zone_price decode_zone_price vm.spot_price
            decode_zone_price-encode_zone_price,
        texts vm.zones,
        text_fields vm.attributes,
      )
      refl

-- An image with the fields that `omitempty` leaves out told apart.
image_lem :
    (name : String) (creation_date : ℕ) (version : String) (gpu : Bool)
    (tags : List (String × String))
    → let i : Image = record {
      name = name;
      creation_date = creation_date;
      version = version;
      gpu_available = gpu;
      tags = tags;
    } in
      decode_image (encode_image i) ≡ ok i
unfolding decode_image encode_image decode_field member decode_map
image_lem name d version false [] = elim (Bool-cases (str_eq version "")) [
  | inl e ↦ rw ((eq_iff version "").0 e) refl
  | inr e ↦ rw e refl
]
image_lem name d version true [] = elim (Bool-cases (str_eq version "")) [
  | inl e ↦ rw ((eq_iff version "").0 e) refl
  | inr e ↦ rw e refl
]
image_lem name d version false (t ∷ tags) = elim (Bool-cases (str_eq version "")) [
  | inl e ↦ rw ((eq_iff version "").0 e) (rw (text_fields (t ∷ tags)) refl)
  | inr e ↦ rw e (rw (text_fields (t ∷ tags)) refl)
]
image_lem name d version true (t ∷ tags) = elim (Bool-cases (str_eq version "")) [
  | inl e ↦ rw ((eq_iff version "").0 e) (rw (text_fields (t ∷ tags)) refl)
  | inr e ↦ rw e (rw (text_fields (t ∷ tags)) refl)
]

pub decode_image-encode_image : (i : Image) → decode_image (encode_image i) ≡ ok i
decode_image-encode_image i = image_lem i.name i.creation_date i.version i.gpu_available i.tags
