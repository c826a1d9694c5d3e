-- ===== src/Types.antt =====
-- internal/cloudinfo/types/types.go: the data that the stores hold and the API returns.
-- A `time.Time` is the number of nanoseconds since the zero time; the JSON tags are not modelled.
use cloudinfo.Prelude.{
  ℕ, String, Bool, false, List, [], ◌∷◌, str_eq, ltb, length, if◌then◌else◌, ◌&&◌,
}
use cloudinfo.Prelude.Text.{to_upper, has_prefix}
use cloudinfo.Prelude.Float.{Float64, float_zero}

pub record ZonePrice : Type 0 where
  pub zone : String
  pub price : Float64

-- `NewZonePrice`
abbrev pub new_zone_price : String → Float64 → ZonePrice
new_zone_price zone price = record { zone = zone; price = price }

pub record LocationVersion : Type 0 where
  pub location : String
  pub versions : List String
  pub default : String

first_of_versions : List String → String → String
first_of_versions [] def = def
first_of_versions (v ∷ vs) def = v

-- `NewLocationVersion`
pub new_location_version : String → List String → String → LocationVersion
unfolding first_of_versions
new_location_version location versions def = record {
  location = location;
  versions = versions;
  default =
      if ltb 0 (length versions) && str_eq def "" then first_of_versions versions def else def;
}

pub record VmInfo : Type 0 where
  pub category : String
  pub type : String
  pub on_demand_price : Float64
  pub spot_price : List ZonePrice
  pub cpus : Float64
  pub mem : Float64
  pub gpus : Float64
  pub ntw_perf : String
  pub ntw_perf_cat : String
  pub zones : List String
  pub attributes : List (String × String)
  pub current_gen : Bool

-- `VMInfo.IsBurst`
unfoldable pub is_burst : VmInfo → Bool
unfolding to_upper has_prefix
is_burst vm = has_prefix (to_upper vm.type) "T"

pub record ProductDetails : Type 0 where
  pub vm_info : VmInfo
  pub open vm_info use *
  pub burst : Bool

-- `NewProductDetails`
abbrev pub new_product_details : VmInfo → ProductDetails
new_product_details vm = record { vm_info = vm; burst = is_burst vm }

pub record Service : Type 0 where
  pub service : String
  pub is_static : Bool

pub record Provider : Type 0 where
  pub provider : String
  pub services : List Service

-- `NewProvider`
abbrev pub new_provider : String → Provider
new_provider name = record { provider = name; services = [] }

pub record Image : Type 0 where
  pub name : String
  pub creation_date : ℕ
  pub version : String
  pub gpu_available : Bool
  pub tags : List (String × String)

-- `NewImage`
abbrev pub new_image : String → String → Bool → Image
new_image name version gpu = record {
  name = name;
  creation_date = 0;
  version = version;
  gpu_available = gpu;
  tags = [];
}

pub record Region : Type 0 where
  pub id : String
  pub name : String

-- `SpotPrice` is a Go map from zones to prices.
pub record Price : Type 0 where
  pub on_demand_price : Float64
  pub spot_price : List (String × Float64)

-- `Price{}`
abbrev pub empty_price : Price
empty_price = record { on_demand_price = float_zero; spot_price = [] }

abbrev pub empty_vm : VmInfo
empty_vm = record {
  category = "";
  type = "";
  on_demand_price = float_zero;
  spot_price = [];
  cpus = float_zero;
  mem = float_zero;
  gpus = float_zero;
  ntw_perf = "";
  ntw_perf_cat = "";
  zones = [];
  attributes = [];
  current_gen = false;
}
