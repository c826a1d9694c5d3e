-- ===== src/Providers/Google/Network.antt =====
-- What `GetVirtualMachines` of the client of Google answers.
use cloudinfo.Prelude.{
  ℕ, zero, suc, String, ◌≡◌, refl, ◌∙◌, ap, sym, ◌↔◌, inl, inr, true, false, List, [], ◌∷◌, Option,
  none, some, In, ltb, str_eq, if◌then◌else◌, Bool-cases, arith, some-injective, subst, ◌⊎◌,
}
use cloudinfo.Prelude.Maps.{lookup, insert}
use cloudinfo.Prelude.Float.{Float64}
use cloudinfo.Prelude.FloatOfInt.{float_of_int}
use cloudinfo.Prelude.Result.{Result, ok, err}
use cloudinfo.Types.{VmInfo}
use cloudinfo.InstanceType.Categories.{ntw_low, ntw_medium, ntw_hight, ntw_extra}
use cloudinfo.CloudInfo.{contains_text}
use cloudinfo.Providers.Groups.{group_of, group_of-order}
use cloudinfo.Providers.Google.Machines.{
  MachineType, ntw_perf_map, map_ntw_perf, network_gbits, gbits_text, category_or_empty, machine_vm,
  machines_from, unless_there, values_of,
}
use cloudinfo.Providers.Google.Client.{
  GoogleClients, finished-ok, get_zones, machines_in, get_virtual_machines,
}

-- The category of a number of vCPUs.
unfoldable pub category_of_cpus : ℕ → String
category_of_cpus cpus =
    if ltb cpus 2
    then ntw_low
    else (if ltb cpus 5 then ntw_medium else (if ltb cpus 8 then ntw_hight else ntw_extra))

-- The category that a text of the switch has in the map, whichever way the map is visited.
abbrev network_category : ℕ → Option String
network_category guest_cpus = group_of ntw_perf_map (gbits_text (network_gbits guest_cpus))

few_cpus : (cpus : ℕ) → ltb 8 cpus ≡ false → network_category cpus ≡ some (category_of_cpus cpus)
unfolding network_gbits gbits_text category_of_cpus group_of contains_text
few_cpus zero small = refl
few_cpus (suc zero) small = refl
few_cpus (suc (suc zero)) small = refl
few_cpus (suc (suc (suc zero))) small = refl
few_cpus (suc (suc (suc (suc zero)))) small = refl
few_cpus (suc (suc (suc (suc (suc zero))))) small = refl
few_cpus (suc (suc (suc (suc (suc (suc zero)))))) small = refl
few_cpus (suc (suc (suc (suc (suc (suc (suc zero))))))) small = refl
few_cpus (suc (suc (suc (suc (suc (suc (suc (suc zero)))))))) small = refl
few_cpus (suc (suc (suc (suc (suc (suc (suc (suc (suc n))))))))) small =
    let never : ⊥ = ground arith in elim never [ ]

many_gbits : (cpus : ℕ) → ltb 8 cpus ≡ true → network_gbits cpus ≡ 16
unfolding network_gbits
many_gbits cpus many = ground arith

many_category : (cpus : ℕ) → ltb 8 cpus ≡ true → ntw_extra ≡ category_of_cpus cpus
unfolding category_of_cpus
many_category cpus many = ground arith

sixteen_gbits : group_of ntw_perf_map (gbits_text 16) ≡ some ntw_extra
unfolding gbits_text group_of contains_text
sixteen_gbits = refl

network_category_lem : (cpus : ℕ) → network_category cpus ≡ some (category_of_cpus cpus)
network_category_lem cpus = elim (Bool-cases (ltb 8 cpus)) [
  | inl many ↦
      ap (λ n. group_of ntw_perf_map (gbits_text n)) (many_gbits cpus many)
      ∙ sixteen_gbits
      ∙ ap some (many_category cpus many)
  | inr small ↦ few_cpus cpus small
]

map_ntw_perf_lem :
    (visited : List (String × List String)) (cpus : ℕ)
    → ((name : String) (values : List String)
        → In (name, values) visited ↔ In (name, values) ntw_perf_map)
    → map_ntw_perf visited (gbits_text (network_gbits cpus)) ≡ some (category_of_cpus cpus)
unfolding map_ntw_perf contains_text
map_ntw_perf_lem visited cpus same =
    group_of-order ntw_perf_map visited _ refl same ∙ network_category_lem cpus

-- Some visit of `ntwPerfMap`.
abbrev pub VisitsNtwPerfMap : List (String × List String) → Type 0
VisitsNtwPerfMap visited =
    (name : String) (values : List String)
    → In (name, values) visited ↔ In (name, values) ntw_perf_map

values_of-insert :
    (name : String) (new vm : VmInfo) (m : List (String × VmInfo))
    → In vm (values_of (insert name new m))
    → (vm ≡ new) ⊎ In vm (values_of m)
unfolding values_of insert
values_of-insert name new vm [] i = i
values_of-insert name new vm ((n, v) ∷ m) i = elim (Bool-cases (str_eq n name)) [
  | inl same ↦ elim (rw same at i) [ inl e ↦ inl e | inr j ↦ inr (inr j) ]
  | inr other ↦ elim (rw other at i) [
    | inl e ↦ inr (inl e)
    | inr j ↦ elim (values_of-insert name new vm m j) [ inl e ↦ inl e | inr k ↦ inr (inr k) ]
  ]
]

-- A machine made of a type that the first zone of the region has: with its name, its vCPUs, the zones
-- of the region, and the category of its number of vCPUs.
abbrev pub IsMachineOf : GoogleClients → Result String (List String) → VmInfo → Type 0
IsMachineOf clients answered vm =
    (zone : String) × (zones : List String) × (mt : MachineType) × (answered ≡ ok (zone ∷ zones))
    × In mt (clients.list_machine_types zone).items
    × (vm.type ≡ mt.name)
    × (vm.cpus ≡ float_of_int mt.guest_cpus)
    × (vm.zones ≡ zone ∷ zones)
    × (vm.ntw_perf_cat ≡ category_of_cpus mt.guest_cpus)

module _ (sprint_float : Float64 → String) (visited : List (String × List String)) where
  -- A machine that is made of one of the types.
  abbrev IsOf : List String → List MachineType → VmInfo → Type 0
  IsOf zones mts vm =
      (mt : MachineType) × In mt mts × (vm ≡ machine_vm sprint_float visited zones mt)

  kept_or_new :
      (zones : List String) (mt : MachineType) (m : List (String × VmInfo)) (vm : VmInfo)
      (there : Option VmInfo)
      → In vm (values_of (unless_there sprint_float visited zones there mt m))
      → (vm ≡ machine_vm sprint_float visited zones mt) ⊎ In vm (values_of m)
  unfolding unless_there
  kept_or_new zones mt m vm none i = values_of-insert mt.name _ vm m i
  kept_or_new zones mt m vm (some v) i = inr i

  machines_from-IsOf :
      (zones : List String) (mts : List MachineType) (m : List (String × VmInfo)) (vm : VmInfo)
      → In vm (values_of (machines_from sprint_float visited zones mts m))
      → In vm (values_of m) ⊎ IsOf zones mts vm
  unfolding machines_from
  machines_from-IsOf zones [] m vm i = inl i
  machines_from-IsOf zones (mt ∷ mts) m vm i = elim (machines_from-IsOf zones mts _ vm i) [
    | inr (t, j, e) ↦ inr (t, inr j, e)
    | inl j ↦ elim (kept_or_new zones mt m vm (lookup mt.name m) j) [
      | inl e ↦ inr (mt, inl refl, e)
      | inr k ↦ inl k
    ]
  ]

  machine_vm-category :
      (zones : List String) (mt : MachineType)
      → VisitsNtwPerfMap visited
      → (machine_vm sprint_float visited zones mt).ntw_perf_cat ≡ category_of_cpus mt.guest_cpus
  unfolding machine_vm
  machine_vm-category zones mt same =
      ap category_or_empty (map_ntw_perf_lem visited mt.guest_cpus same)

  IsOf-IsMachineOf :
      (clients : GoogleClients) (zone : String) (zones : List String) (vm : VmInfo)
      → VisitsNtwPerfMap visited
      → IsOf (zone ∷ zones) (clients.list_machine_types zone).items vm
      → IsMachineOf clients (ok (zone ∷ zones)) vm
  unfolding machine_vm
  IsOf-IsMachineOf clients zone zones vm same (mt, i, e) = (
    zone,
    zones,
    mt,
    refl,
    i,
    ap (λ v. v.type) e,
    ap (λ v. v.cpus) e,
    ap (λ v. v.zones) e,
    ap (λ v. v.ntw_perf_cat) e ∙ machine_vm-category (zone ∷ zones) mt same,
  )

  machines_in-IsMachineOf :
      (clients : GoogleClients) (answered : Result String (List String)) (vms : List VmInfo)
      (vm : VmInfo)
      → VisitsNtwPerfMap visited
      → machines_in sprint_float visited clients answered ≡ some (ok vms)
      → In vm vms
      → IsMachineOf clients answered vm
  unfolding machines_in
  machines_in-IsMachineOf clients (err x) vms vm same e i = cc
  machines_in-IsMachineOf clients (ok []) vms vm same e i = cc
  machines_in-IsMachineOf clients (ok (zone ∷ zones)) vms vm same e i =
      let items = (clients.list_machine_types zone).items in
      let made = finished-ok (clients.list_machine_types zone).failed _ vms (some-injective e) in
      elim (machines_from-IsOf (zone ∷ zones) items [] vm (subst (In vm) (sym made) i)) [
        | inl never ↦ elim never [ ]
        | inr of ↦ IsOf-IsMachineOf clients zone zones vm same of
      ]

  -- Whatever the order in which `ntwPerfMap` is visited, each machine that `GetVirtualMachines`
  -- answers is made of a type of the first zone of the region: it has its name and its vCPUs, all
  -- zones of the region, and a network category, which is that of the number of vCPUs.
  pub get_virtual_machines-IsMachineOf :
      (clients : GoogleClients) (region : String) (vms : List VmInfo) (vm : VmInfo)
      → VisitsNtwPerfMap visited
      → get_virtual_machines sprint_float visited clients region ≡ some (ok vms)
      → In vm vms
      → IsMachineOf clients (get_zones clients region) vm
  unfolding get_virtual_machines
  get_virtual_machines-IsMachineOf clients region vms vm same e i =
      machines_in-IsMachineOf clients (get_zones clients region) vms vm same e i
