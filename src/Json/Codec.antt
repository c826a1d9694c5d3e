-- ===== src/Json/Codec.antt =====
-- internal/cloudinfo/types/types.go: how `encoding/json` writes and reads the types by their tags.
use cloudinfo.Prelude.{String, Bool, true, false, List, [], ◌∷◌, str_eq, if◌then◌else◌}
use cloudinfo.Prelude.Float.{Float64, float_zero}
use cloudinfo.Prelude.Result.{Result, ok, ◌>>=◌}
use cloudinfo.Types.{ZonePrice, Price, VmInfo, Image, LocationVersion, Service}
use cloudinfo.Json.{
  Json, boolean, number, date, text, array, object, Fields, no_fields, field, JsonError, as_fields,
  as_text, as_boolean, as_number, as_date, decode_field, encode_items, decode_list, encode_map,
  decode_map,
}

abbrev pub encode_float : Float64 → Json
encode_float f = number f

abbrev pub decode_float : Json → Result JsonError Float64
decode_float j = as_number float_zero j

abbrev pub encode_strings : List String → Json
encode_strings xs = array (encode_items text xs)

abbrev pub decode_strings : Json → Result JsonError (List String)
decode_strings j = decode_list as_text j

abbrev pub encode_string_map : List (String × String) → Json
encode_string_map m = object (encode_map text m)

abbrev pub decode_string_map : Json → Result JsonError (List (String × String))
decode_string_map j = decode_map as_text j

unfoldable pub encode_zone_price : ZonePrice → Json
encode_zone_price p =
    object (field "zone" (text p.zone) (field "price" (encode_float p.price) no_fields))

unfoldable pub decode_zone_price : Json → Result JsonError ZonePrice
unfolding decode_field
decode_zone_price j = do
  fields ← as_fields j
  zone ← decode_field "zone" as_text "" fields
  price ← decode_field "price" decode_float float_zero fields
  ok (record { zone = zone; price = price })

unfoldable pub encode_price : Price → Json
encode_price p = object (
    field "onDemandPrice" (encode_float p.on_demand_price)
      (field "spotPrice" (object (encode_map encode_float p.spot_price)) no_fields))

unfoldable pub decode_price : Json → Result JsonError Price
unfolding decode_field
decode_price j = do
  fields ← as_fields j
  on_demand_price ← decode_field "onDemandPrice" decode_float float_zero fields
  spot_price ← decode_field "spotPrice" (decode_map decode_float) [] fields
  ok (record { on_demand_price = on_demand_price; spot_price = spot_price })

unfoldable pub encode_version : LocationVersion → Json
encode_version v = object (
    field "location" (text v.location)
      (field "versions" (encode_strings v.versions) (field "default" (text v.default) no_fields)))

unfoldable pub decode_version : Json → Result JsonError LocationVersion
unfolding decode_field
decode_version j = do
  fields ← as_fields j
  location ← decode_field "location" as_text "" fields
  versions ← decode_field "versions" decode_strings [] fields
  default ← decode_field "default" as_text "" fields
  ok (record { location = location; versions = versions; default = default })

unfoldable pub encode_service : Service → Json
encode_service s =
    object (field "service" (text s.service) (field "isStatic" (boolean s.is_static) no_fields))

unfoldable pub decode_service : Json → Result JsonError Service
unfolding decode_field
decode_service j = do
  fields ← as_fields j
  service ← decode_field "service" as_text "" fields
  is_static ← decode_field "isStatic" as_boolean false fields
  ok (record { service = service; is_static = is_static })

-- `omitempty`: a zero value is left out.
abbrev pub omit_text : String → String → Fields → Fields
omit_text name s rest = if str_eq s "" then rest else field name (text s) rest

abbrev pub omit_false : String → Bool → Fields → Fields
omit_false name false rest = rest
omit_false name true rest = field name (boolean true) rest

abbrev pub omit_empty : String → List (String × String) → Fields → Fields
omit_empty name [] rest = rest
omit_empty name (t ∷ m) rest = field name (encode_string_map (t ∷ m)) rest

-- `omitempty` has no effect on the date, which is a struct.
unfoldable pub encode_image : Image → Json
encode_image i = object (
    field "name" (text i.name) (
      field "creationDate" (date i.creation_date) (
        omit_text "version" i.version
          (omit_false "gpu" i.gpu_available (omit_empty "tags" i.tags no_fields)))))

unfoldable pub decode_image : Json → Result JsonError Image
unfolding decode_field
decode_image j = do
  fields ← as_fields j
  name ← decode_field "name" as_text "" fields
  creation_date ← decode_field "creationDate" as_date 0 fields
  version ← decode_field "version" as_text "" fields
  gpu_available ← decode_field "gpu" as_boolean false fields
  tags ← decode_field "tags" decode_string_map [] fields
  ok (record {
    name = name;
    creation_date = creation_date;
    version = version;
    gpu_available = gpu_available;
    tags = tags;
  })

unfoldable pub encode_vm : VmInfo → Json
encode_vm vm = object (
    field "category" (text vm.category) (
      field "type" (text vm.type) (
        field "onDemandPrice" (encode_float vm.on_demand_price) (
          field "spotPrice" (array (encode_items encode_zone_price vm.spot_price)) (
            field "cpusPerVm" (encode_float vm.cpus) (
              field "memPerVm" (encode_float vm.mem) (
                field "gpusPerVm" (encode_float vm.gpus) (
                  field "ntwPerf" (text vm.ntw_perf) (
                    field "ntwPerfCategory" (text vm.ntw_perf_cat) (
                      field "zones" (encode_strings vm.zones) (
                        field "attributes" (encode_string_map vm.attributes)
                          (field "currentGen" (boolean vm.current_gen) no_fields))))))))))))

unfoldable pub decode_vm : Json → Result JsonError VmInfo
unfolding decode_field
decode_vm j = do
  fields ← as_fields j
  category ← decode_field "category" as_text "" fields
  type ← decode_field "type" as_text "" fields
  on_demand_price ← decode_field "onDemandPrice" decode_float float_zero fields
  spot_price ← decode_field "spotPrice" (decode_list decode_zone_price) [] fields
  cpus ← decode_field "cpusPerVm" decode_float float_zero fields
  mem ← decode_field "memPerVm" decode_float float_zero fields
  gpus ← decode_field "gpusPerVm" decode_float float_zero fields
  ntw_perf ← decode_field "ntwPerf" as_text "" fields
  ntw_perf_cat ← decode_field "ntwPerfCategory" as_text "" fields
  zones ← decode_field "zones" decode_strings [] fields
  attributes ← decode_field "attributes" decode_string_map [] fields
  current_gen ← decode_field "currentGen" as_boolean false fields
  ok (record {
    category = category;
    type = type;
    on_demand_price = on_demand_price;
    spot_price = spot_price;
    cpus = cpus;
    mem = mem;
    gpus = gpus;
    ntw_perf = ntw_perf;
    ntw_perf_cat = ntw_perf_cat;
    zones = zones;
    attributes = attributes;
    current_gen = current_gen;
  })
