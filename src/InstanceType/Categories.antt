-- ===== src/InstanceType/Categories.antt =====
-- The enumerations of internal/cloudinfo/instance_type.go and the constants of types.go to which
-- they are mapped. Both enumerations are texts in the source.
use cloudinfo.Prelude.{String, Bool, ◌||◌, List, [], ◌∷◌, Option, none, some, str_eq, if◌then◌else◌}
use cloudinfo.Prelude.Maps.{lookup}
use cloudinfo.Prelude.Result.{Result, ok, err}

abbrev pub ntw_low : String
ntw_low = "low"

abbrev pub ntw_medium : String
ntw_medium = "medium"

abbrev pub ntw_hight : String
ntw_hight = "high"

abbrev pub ntw_extra : String
ntw_extra = "extra"

abbrev pub category_general : String
category_general = "General purpose"

abbrev pub category_compute : String
category_compute = "Compute optimized"

abbrev pub category_memory : String
category_memory = "Memory optimized"

abbrev pub category_gpu : String
category_gpu = "GPU instance"

abbrev pub category_storage : String
category_storage = "Storage optimized"

-- `AllNetworkCategory`
abbrev pub all_network_category : List String
all_network_category = "LOW" ∷ "MODERATE" ∷ "HIGH" ∷ []

-- `AllInstanceTypeCategory`
abbrev pub all_instance_type_category : List String
all_instance_type_category =
    "GENERAL_PURPOSE" ∷ "MEMORY_OPTIMIZED" ∷ "STORAGE_OPTIMIZED" ∷ "COMPUTE_OPTIMIZED" ∷ []

-- `NetworkCategory.IsValid`
unfoldable pub is_valid_network_category : String → Bool
is_valid_network_category e = str_eq e "LOW" || (str_eq e "MODERATE" || str_eq e "HIGH")

-- `InstanceTypeCategory.IsValid`
unfoldable pub is_valid_instance_type_category : String → Bool
is_valid_instance_type_category e =
    str_eq e "GENERAL_PURPOSE"
    || (str_eq e "MEMORY_OPTIMIZED"
        || (str_eq e "STORAGE_OPTIMIZED" || str_eq e "COMPUTE_OPTIMIZED"))

abbrev pub instance_type_category_map : List (String × String)
instance_type_category_map =
    ("GENERAL_PURPOSE", category_general)
    ∷ ("COMPUTE_OPTIMIZED", category_compute)
    ∷ ("STORAGE_OPTIMIZED", category_storage)
    ∷ ("MEMORY_OPTIMIZED", category_memory)
    ∷ []

abbrev pub instance_type_category_reverse_map : List (String × String)
instance_type_category_reverse_map =
    (category_general, "GENERAL_PURPOSE")
    ∷ (category_compute, "COMPUTE_OPTIMIZED")
    ∷ (category_storage, "STORAGE_OPTIMIZED")
    ∷ (category_memory, "MEMORY_OPTIMIZED")
    ∷ []

or_empty : Option String → String
or_empty none = ""
or_empty (some v) = v

-- `m[k]`, the empty text where the key is missing.
unfoldable pub value_at : String → List (String × String) → String
unfolding or_empty lookup
value_at k m = or_empty (lookup k m)

-- A value of type `interface{}` that a client sends for an enumeration.
pub data GqlValue : Type 0 where
  text : String → GqlValue
  other : GqlValue

pub data EnumError : Type 0 where
  not_a_string : EnumError
  not_valid : String → EnumError

-- `UnmarshalGQL`, over `IsValid` of the enumeration.
unmarshal : (String → Bool) → GqlValue → Result EnumError String
unmarshal is_valid other = err not_a_string
unmarshal is_valid (text str) = if is_valid str then ok str else err (not_valid str)

unfoldable pub unmarshal_network_category : GqlValue → Result EnumError String
unfolding unmarshal is_valid_network_category
unmarshal_network_category v = unmarshal is_valid_network_category v

unfoldable pub unmarshal_instance_type_category : GqlValue → Result EnumError String
unfolding unmarshal is_valid_instance_type_category
unmarshal_instance_type_category v = unmarshal is_valid_instance_type_category v
