-- ===== src/InstanceType/Tests.antt =====
-- Tests of the query of instance types, and its theorems at concrete inputs.
use cloudinfo.Prelude.{
  String, ◌≡◌, refl, ◌↔◌, ◌≢◌, ◌⊎◌, inl, inr, true, false, List, [], ◌∷◌, none, some, In, ltb,
  str_eq, arith, eq_iff,
}
use cloudinfo.Prelude.Float.{float_one, float_two, float_zero, float_eq, float_lt, float_le}
use cloudinfo.Prelude.Result.{ok, err}
use cloudinfo.Types.{ProductDetails, empty_vm}
use cloudinfo.Query.{no_filter, apply_filter, float_compared}
use cloudinfo.InstanceType.Categories.{value_at, is_valid_instance_type_category}
use cloudinfo.InstanceType.{
  InstanceType, CategoryFilter, InstanceTypeQueryFilter, InstanceTypeQuery, InstanceTypeStore,
  validation, spot_price_in, apply_instance_type_filter, apply_instance_type_category_filter,
  transform, append_zones, zones_of, collect, query, region_is_missing,
}
use cloudinfo.InstanceType.Laws.{apply_category_filter_iff, only_eq}
use cloudinfo.InstanceType.Rows.{IsAnswer, query_sound, query_complete, query_validation_iff}

abbrev large : ProductDetails
large = record {
  vm_info = record empty_vm {
    category = "Compute optimized";
    type = "c5.large";
    on_demand_price = float_one;
    spot_price = record { zone = "b"; price = float_one } ∷ [];
    cpus = float_two;
    ntw_perf_cat = "medium";
  };
  burst = false;
}

-- One product, and two zones in its region.
abbrev sample_store : InstanceTypeStore
sample_store = record {
  get_product_details = λ provider service region. ok (large ∷ []);
  get_zones = λ provider service region. ok ("a" ∷ "b" ∷ []);
}

abbrev spot_only : InstanceTypeQueryFilter
spot_only = record {
  price = none;
  spot_price = none;
  spot = some true;
  cpu = some (record no_filter { gte = some float_two });
  memory = none;
  gpu = none;
  network_category = none;
  category = none;
}

abbrev sample_query : InstanceTypeQuery
sample_query = record { region = some "r"; zone = none; filter = some spot_only }

abbrev row : InstanceType
row = record {
  name = "c5.large";
  region = "r";
  zone = "b";
  price = float_one;
  spot_price = float_one;
  cpu = float_two;
  memory = float_zero;
  gpu = float_zero;
  network_category = "MEDIUM";
  category = "COMPUTE_OPTIMIZED";
}

runs : Unit {0}
unfolding query collect zones_of append_zones apply_instance_type_filter spot_price_in apply_filter
    float_eq float_lt float_le transform value_at
runs = tt

-- Only in zone b has the product a spot price.
query_runs : query sample_store "amazon" "eks" sample_query ≡ ok (row ∷ [])
unfolding runs cloudinfo.Prelude.Text.to_upper
query_runs = refl

query_sound_example : IsAnswer sample_store "amazon" "eks" (some spot_only) "r" (large ∷ []) row
query_sound_example =
    query_sound sample_store "amazon" "eks" sample_query "r" (large ∷ []) (row ∷ []) row (λ h. cc)
      (λ h. cc) refl (λ h. cc) refl query_runs (inl refl)

query_complete_example : In (transform large "r" "b") (row ∷ [])
unfolding runs
query_complete_example =
    query_complete sample_store "amazon" "eks" sample_query "r" (large ∷ []) (row ∷ []) large
      ("a" ∷ "b" ∷ []) "b" (λ h. cc) (λ h. cc) refl (λ h. cc) refl query_runs (inl refl) refl
      (inr (inl refl)) refl

query_validation_iff_example :
    ((message : String) × (query sample_store "amazon" "" sample_query ≡ err (validation message)))
    ↔ (((◌≡◌ {A = String} "amazon" ""))
        ⊎ ((◌≡◌ {A = String} "" "") ⊎ (region_is_missing (some "r") ≡ true)))
query_validation_iff_example = query_validation_iff sample_store "amazon" "" sample_query

apply_category_filter_iff_example :
    (apply_instance_type_category_filter "Compute optimized" (only_eq "COMPUTE_OPTIMIZED") ≡ true)
    ↔ ((transform large "r" "b").category ≡ "COMPUTE_OPTIMIZED")
unfolding is_valid_instance_type_category
apply_category_filter_iff_example = apply_category_filter_iff large "r" "b" "COMPUTE_OPTIMIZED" refl

abbrev not_compute : CategoryFilter
not_compute = record {
  eq = none;
  ne = none;
  in_list = some ("GENERAL_PURPOSE" ∷ []);
  nin_list = some ("COMPUTE_OPTIMIZED" ∷ []);
}
