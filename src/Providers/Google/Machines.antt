-- ===== src/Providers/Google/Machines.antt =====
-- The machines of `GetVirtualMachines` in internal/cloudinfo/providers/google/cloudinfo.go, and
-- network_mapper.go. The numbers of vCPUs and the memory are natural numbers.
use cloudinfo.Prelude.{ℕ, ◌*◌, String, List, [], ◌∷◌, Option, none, some, ltb, if◌then◌else◌}
use cloudinfo.Prelude.Text.{concat, contains}
use cloudinfo.Prelude.Maps.{lookup, insert}
use cloudinfo.Prelude.Float.{Float64}
use cloudinfo.Prelude.FloatOfInt.{float_of_int, float_kibi, sprint_int}
use cloudinfo.Types.{VmInfo, empty_vm}
use cloudinfo.InstanceType.Categories.{
  ntw_low, ntw_medium, ntw_hight, ntw_extra, category_general, category_compute, category_memory,
}
use cloudinfo.CloudInfo.{attributes}
use cloudinfo.Providers.Groups.{group_of}

-- `compute.MachineType`
pub record MachineType : Type 0 where
  pub name : String
  pub guest_cpus : ℕ
  pub memory_mb : ℕ

-- `ntwPerfMap`
abbrev pub ntw_perf_map : List (String × List String)
ntw_perf_map =
    (ntw_low, "1 Gbit/s" ∷ "2 Gbit/s" ∷ [])
    ∷ (ntw_medium, "4 Gbit/s" ∷ "6 Gbit/s" ∷ "8 Gbit/s" ∷ [])
    ∷ (ntw_hight, "10 Gbit/s" ∷ "12 Gbit/s" ∷ "14 Gbit/s" ∷ [])
    ∷ (ntw_extra, "16 Gbit/s" ∷ [])
    ∷ []

-- `MapNetworkPerf`, where the map is visited as `visited`; `none` is the error.
unfoldable pub map_ntw_perf : List (String × List String) → String → Option String
unfolding group_of
map_ntw_perf visited ntw_perf = group_of visited ntw_perf

-- `getCategory`
unfoldable pub get_category : String → String
unfolding contains
get_category name =
    if contains name "highmem"
    then category_memory
    else (if contains name "highcpu" then category_compute else category_general)

-- The switch over `mt.GuestCpus`.
unfoldable pub network_gbits : ℕ → ℕ
network_gbits guest_cpus =
    if ltb guest_cpus 1 then 1 else (if ltb 8 guest_cpus then 16 else guest_cpus * 2)

unfoldable pub gbits_text : ℕ → String
unfolding sprint_int concat
gbits_text n = concat (sprint_int n) " Gbit/s"

abbrev pub category_or_empty : Option String → String
category_or_empty none = ""
category_or_empty (some category) = category

module _ (sprint_float : Float64 → String) (visited : List (String × List String))
    (zones : List String) where
  -- The machine that a type gives.
  unfoldable pub machine_vm : MachineType → VmInfo
  unfolding map_ntw_perf get_category network_gbits gbits_text float_of_int float_kibi sprint_int
      attributes
  machine_vm mt =
      let perf = gbits_text (network_gbits mt.guest_cpus) in
      let ntw_perf_cat = category_or_empty (map_ntw_perf visited perf) in
      record empty_vm {
        category = get_category mt.name;
        type = mt.name;
        cpus = float_of_int mt.guest_cpus;
        mem = float_kibi mt.memory_mb;
        ntw_perf = perf;
        ntw_perf_cat = ntw_perf_cat;
        zones = zones;
        attributes =
            attributes (sprint_int mt.guest_cpus) (sprint_float (float_kibi mt.memory_mb))
              ntw_perf_cat (get_category mt.name);
      }

  unfoldable pub unless_there :
      Option VmInfo → MachineType → List (String × VmInfo) → List (String × VmInfo)
  unfolding machine_vm insert
  unless_there none mt vms_map = insert mt.name (machine_vm mt) vms_map
  unless_there (some vm) mt vms_map = vms_map

  -- The loop over the types, which keeps the first of a name.
  unfoldable pub machines_from : List MachineType → List (String × VmInfo) → List (String × VmInfo)
  unfolding lookup unless_there
  machines_from [] vms_map = vms_map
  machines_from (mt ∷ mts) vms_map =
      machines_from mts (unless_there (lookup mt.name vms_map) mt vms_map)

unfoldable pub values_of : List (String × VmInfo) → List VmInfo
values_of [] = []
values_of ((name, vm) ∷ vms_map) = vm ∷ values_of vms_map
