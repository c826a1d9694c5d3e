-- ===== src/Providers/Google/Tests.antt =====
-- Tests of the client of Google, and its theorems at concrete inputs.
use cloudinfo.Prelude.{String, ◌≡◌, refl, inl, inr, List, [], ◌∷◌, some, none, ◌==◌, if◌then◌else◌}
use cloudinfo.Prelude.Float.{Float64, float_zero, float_one}
use cloudinfo.Prelude.Result.{ok, err}
use cloudinfo.Types.{VmInfo, Price, new_location_version}
use cloudinfo.Providers.Google.Machines.{MachineType, ntw_perf_map, machine_vm, get_category}
use cloudinfo.Providers.Google.Prices.{FloatOps, Sku, price_skus}
use cloudinfo.Providers.Google.Client.{
  GoogleClients, GceZone, get_zones, get_regions, get_versions, get_virtual_machines, get_price,
  initialize,
}
use cloudinfo.CloudInfo.{contains_text}
use cloudinfo.Providers.Prices.{price_in}
use cloudinfo.Providers.Google.Zones.{IsPriced}
use cloudinfo.Providers.Google.Outcome.{initialize-IsPriced}
use cloudinfo.Providers.Google.Network.{get_virtual_machines-IsMachineOf, IsMachineOf}

abbrev sprint_float : Float64 → String
sprint_float f = "2"

abbrev gce_zone : String → String → GceZone
gce_zone zone region = record { zone_name = zone; zone_region = region }

abbrev standard : MachineType
standard = record { name = "n1-highmem-4"; guest_cpus = 4; memory_mb = 2048 }

abbrev micro : MachineType
micro = record { name = "f1-micro"; guest_cpus = 0; memory_mb = 614 }

abbrev sku : String → String → String → Sku
sku group usage description = record {
  resource_group = group;
  usage_type = usage;
  description = description;
  service_regions = "us-west1" ∷ [];
  pricing_info = (record { units = 1; nanos = 0 } ∷ []) ∷ [];
}

-- An arithmetic that is right where one of two summands is 0 and the other factor is 1.
abbrev ops : FloatOps
ops = record { plus = λ x y. if x.magnitude == 0 then y else x; times = λ x y. x; over = λ x y. x }

abbrev clients : GoogleClients
clients = record {
  list_regions = ok ("us-west1" ∷ "mars-north1" ∷ []);
  list_zones = record {
    items =
        gce_zone "us-west1-a" "projects/p/regions/us-west1"
        ∷ gce_zone "us-east1-b" "projects/p/regions/us-east1"
        ∷ gce_zone "us-west1-b" "projects/p/regions/us-west1"
        ∷ [];
    failed = none;
  };
  list_machine_types = λ zone. record { items = standard ∷ micro ∷ standard ∷ []; failed = none };
  list_services = ok (("Compute Engine", "services/1") ∷ []);
  list_skus = λ name. record { items = sku "F1Micro" "OnDemand" "" ∷ []; failed = none };
  get_serverconfig = λ zone. ok record {
    valid_master_versions = "1.14" ∷ "1.15" ∷ [];
    valid_node_versions = "1.15" ∷ "1.13" ∷ [];
    default_cluster_version = "";
  };
}

client_tests :
    (get_regions clients "gke" ≡ ok (("us-west1", "US West (Oregon)") ∷ []))
    × (get_zones clients "us-west1" ≡ ok ("us-west1-a" ∷ "us-west1-b" ∷ []))
    × (get_versions clients "gke" "us-east1"
        ≡ ok (new_location_version "us-east1-b" ("1.15" ∷ []) "" ∷ []))
    × (get_virtual_machines sprint_float ntw_perf_map clients "mars-north1" ≡ none)
    × (get_category "n1-highcpu-2" ≡ "Compute optimized")
unfolding get_regions get_zones get_versions get_virtual_machines get_category
client_tests = (refl, refl, refl, refl, refl)

-- A SKU without exactly one pricing info ends the loop with an error.
price_skus_test :
    price_skus ops
      (record {
        resource_group = "N1Standard";
        usage_type = "OnDemand";
        description = "Instance Core";
        service_regions = [];
        pricing_info = [];
      }
        ∷ [])
      []
    ≡ err "pricing info not parsable"
unfolding price_skus
price_skus_test = refl

abbrev listed_standard : VmInfo
unfolding machine_vm
listed_standard = machine_vm sprint_float ntw_perf_map ("us-west1-a" ∷ "us-west1-b" ∷ []) standard

found_machines :
    get_virtual_machines sprint_float ntw_perf_map clients "us-west1"
    ≡ some (
        ok (
          listed_standard
          ∷ machine_vm sprint_float ntw_perf_map ("us-west1-a" ∷ "us-west1-b" ∷ []) micro
          ∷ []))
unfolding get_virtual_machines get_zones machine_vm
found_machines = refl

get_virtual_machines-IsMachineOf_example :
    IsMachineOf clients (get_zones clients "us-west1") listed_standard
get_virtual_machines-IsMachineOf_example =
    get_virtual_machines-IsMachineOf sprint_float ntw_perf_map clients "us-west1"
      (listed_standard
        ∷ machine_vm sprint_float ntw_perf_map ("us-west1-a" ∷ "us-west1-b" ∷ []) micro
        ∷ [])
      listed_standard (λ name values. (λ i. i, λ i. i)) found_machines (inl refl)

abbrev no_spot_prices : List (String × Float64)
no_spot_prices = ("us-west1-a", float_zero) ∷ ("us-west1-b", float_zero) ∷ []

abbrev initialized : List (String × List (String × Price))
initialized =
    (
      "us-west1",
      ("n1-highmem-4", record { on_demand_price = float_zero; spot_price = no_spot_prices })
          ∷ ("f1-micro", record { on_demand_price = float_one; spot_price = no_spot_prices })
          ∷ [],
    )
    ∷ []

initialize_test : initialize ops clients ≡ some (ok initialized)
unfolding initialize
initialize_test = refl

priced_regions :
    get_price ops clients ≡ ok (("us-west1", ("f1-micro", ("OnDemand", float_one) ∷ []) ∷ []) ∷ [])
unfolding get_price
priced_regions = refl

initialize-IsPriced_example :
    IsPriced "us-west1" "f1-micro"
      ("us-west1-a" ∷ "us-west1-b" ∷ [])
      (price_in "us-west1" "f1-micro" initialized)
unfolding get_regions get_zones contains_text
initialize-IsPriced_example =
    initialize-IsPriced ops clients initialized (("us-west1", "US West (Oregon)") ∷ [])
      (("us-west1", ("f1-micro", ("OnDemand", float_one) ∷ []) ∷ []) ∷ []) "us-west1"
      "US West (Oregon)" "us-west1-a" ("us-west1-b" ∷ [])
      (("f1-micro", ("OnDemand", float_one) ∷ []) ∷ []) micro initialize_test refl priced_regions
      (inl refl) (inl refl) refl (inr (inl refl)) refl
