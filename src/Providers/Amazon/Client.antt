-- ===== src/Providers/Amazon/Client.antt =====
-- The methods of `Ec2Infoer` in internal/cloudinfo/providers/amazon/cloudinfo.go. The packages of
-- Amazon are a parameter: what each of their calls answers. Texts are sliced by code point, so the
-- descriptions of regions are taken to be ASCII.
use cloudinfo.Prelude.{
  ℕ, zero, suc, String, Bool, true, false, List, [], ◌∷◌, ◌++◌, Option, some, none, str_eq,
  if◌then◌else◌,
}
use cloudinfo.Prelude.Text.{has_prefix, concat}
use cloudinfo.Prelude.Maps.{insert}
use cloudinfo.Prelude.Float.{Float64}
use cloudinfo.Prelude.Result.{Result, ok, err, ◌>>=◌}
use cloudinfo.Types.{VmInfo, Image, LocationVersion, new_location_version, new_image, empty_vm}
use cloudinfo.Json.{Fields}
use cloudinfo.Providers.Amazon.PriceData.{price_list_vms}
use cloudinfo.Providers.Amazon.Images.{
  Ec2Image, DescribeImagesInput, get_eks_describe_images_input, get_pke_describe_images_input,
  get_latest_image, pke_images,
}

-- The calls of the clients of Amazon: the price list of a location, the regions of the partition
-- with their descriptions, the zones of a region with their states, and its images.
pub record AmazonClients : Type 0 where
  pub get_price_list : String → Result String (List Fields)
  pub partition_regions : List (String × String)
  pub describe_availability_zones : String → Result String (List (String × String))
  pub describe_images : String → DescribeImagesInput → Result String (List Ec2Image)

-- `GetRegion`, with the description of the region; `none` is the nil pointer.
unfoldable pub get_region : String → List (String × String) → Option String
get_region id [] = none
get_region id ((r, description) ∷ regions) =
    let later = get_region id regions in if str_eq r id then some description else later

-- `s[n:]`; `none` is a slice out of range.
unfoldable pub slice_from : ℕ → String → Option String
slice_from zero s = some s
slice_from (suc n) String.[] = none
slice_from (suc n) (String.◌∷◌ c s) = slice_from n s

abbrev pub in_eu : Option String → Option String
in_eu none = none
in_eu (some rest) = some (concat "EU " rest)

-- The location of `newGetProductsInput`; `none` is a panic. Its other filters are constants.
unfoldable pub price_location : Option String → Option String
unfolding has_prefix slice_from concat
price_location none = none
price_location (some location) =
    if has_prefix location "Europe" then in_eu (slice_from 7 location) else some location

-- The result of a method that may panic: `none` is the panic.
abbrev pub listed : Option (List VmInfo) → Option (Result String (List VmInfo))
listed none = none
listed (some vms) = some (ok vms)

abbrev pub control_plane : VmInfo
control_plane = record empty_vm {
  type = "EKS Control Plane";
  on_demand_price = record { is_negative = false; magnitude = 0x3fb9_9999_9999_999a };
}

abbrev pub service_products : String → Result String (List VmInfo) → Result String (List VmInfo)
service_products service vm_list = vm_list >>= λ vms.
    if str_eq service "eks"
    then ok (vms ++ (control_plane ∷ []))
    else (if str_eq service "compute" then ok vms else err "invalid service")

abbrev pub available_zones : List (String × String) → List String
available_zones [] = []
available_zones ((zone, state) ∷ azs) =
    let rest = available_zones azs in if str_eq state "available" then zone ∷ rest else rest

-- `regionIdMap[key] = region.Description()`
unfoldable pub region_id_map :
    List (String × String) → List (String × String) → List (String × String)
unfolding insert
region_id_map [] m = m
region_id_map ((key, description) ∷ regions) m = region_id_map regions (insert key description m)

abbrev pub append_latest : Option Ec2Image → String → Bool → List Image → List Image
append_latest none k8s_version gpu images = images
append_latest (some latest) k8s_version gpu images =
    images ++ (new_image latest.image_id k8s_version gpu ∷ [])

abbrev pub node_input : DescribeImagesInput
node_input = record {
  filters =
      ("name", "amazon-eks-node-1.10-v*") ∷ ("is-public", "true") ∷ ("state", "available") ∷ [];
  owners = [];
}

abbrev pub with_images :
    List Ec2Image → String → String → List (String × String) → List (String × String)
with_images [] key value m = m
with_images (image ∷ images) key value m = insert key value m

module _ (parse_float : String → Float64) (parse_date : String → Option ℕ)
    (clients : AmazonClients) where
  abbrev pub located_vms : Option String → Option (Result String (List VmInfo))
  located_vms none = none
  located_vms (some location) = elim (clients.get_price_list location) [
    | err e ↦ some (err e)
    | ok prices ↦ listed (price_list_vms parse_float prices)
  ]

  -- `GetVirtualMachines`
  unfoldable pub get_virtual_machines : String → Option (Result String (List VmInfo))
  unfolding price_location get_region price_list_vms
  get_virtual_machines region =
      located_vms (price_location (get_region region clients.partition_regions))

  abbrev pub products_of :
      String → Option (Result String (List VmInfo)) → Option (Result String (List VmInfo))
  products_of service none = none
  products_of service (some vm_list) = some (service_products service vm_list)

  -- `GetProducts`
  unfoldable pub get_products : List VmInfo → String → String → Option (Result String (List VmInfo))
  unfolding get_virtual_machines
  get_products [] service region_id = products_of service (get_virtual_machines region_id)
  get_products (vm ∷ vms) service region_id = some (service_products service (ok (vm ∷ vms)))

  -- `GetZones`
  abbrev pub get_zones : String → Result String (List String)
  get_zones region = clients.describe_availability_zones region >>= λ azs. ok (available_zones azs)

  -- The loop of `GetRegions` over the regions that have an image of a node.
  unfoldable pub node_regions :
      List (String × String) → List (String × String) → Result String (List (String × String))
  unfolding insert
  node_regions [] m = ok m
  node_regions ((key, value) ∷ regions) m = clients.describe_images key node_input >>= λ images.
      node_regions regions (with_images images key value m)

  -- `GetRegions`: the regions of the endpoint of EKS are looked up and not used.
  unfoldable pub get_regions : String → Result String (List (String × String))
  unfolding region_id_map node_regions
  get_regions service =
      let all = region_id_map clients.partition_regions [] in
      let nodes = node_regions all [] in if str_eq service "_eks" then nodes else ok all

  -- The loop over the versions of Kubernetes: the latest image with a GPU, and the latest without.
  unfoldable pub eks_images : String → List String → List Image → Result String (List Image)
  unfolding get_eks_describe_images_input get_latest_image
  eks_images region [] service_images = ok service_images
  eks_images region (k8s_version ∷ versions) service_images = do
    gpu_images ← clients.describe_images region (get_eks_describe_images_input k8s_version true)
    latest_gpu ← get_latest_image parse_date gpu_images
    images ← clients.describe_images region (get_eks_describe_images_input k8s_version false)
    latest ← get_latest_image parse_date images
    eks_images region versions (
        append_latest latest k8s_version false
          (append_latest latest_gpu k8s_version true service_images))

  -- `GetServiceImages`
  unfoldable pub get_service_images : String → String → Result String (List Image)
  unfolding eks_images pke_images
  get_service_images service region =
      let eks = eks_images region ("1.21" ∷ "1.22" ∷ "1.23" ∷ "1.24" ∷ []) [] in
      let pke = clients.describe_images region get_pke_describe_images_input >>= λ images.
      ok (pke_images parse_date images) in
      if str_eq service "eks" then eks else (if str_eq service "pke" then pke else ok [])

-- `GetVersions`
unfoldable pub get_versions : String → String → Result String (List LocationVersion)
get_versions service region =
    if str_eq service "eks"
    then ok (
        new_location_version region ("1.21.14" ∷ "1.22.15" ∷ "1.23.13" ∷ "1.24.7" ∷ []) "1.23.13"
        ∷ [])
    else ok []
