-- ===== src/Store/Key.antt =====
-- The key templates of internal/cloudinfo/store.go. A `Key` says which entry is meant; its text is
-- the one under which the entry is kept.
pub mod RoundTrip
use cloudinfo.Prelude.{String, List, [], ◌∷◌}
use cloudinfo.Prelude.Text.{IsName, sprintf}
use cloudinfo.Types.{VmInfo, Price, Image, LocationVersion, Service}

-- `vm_key`: provider, service and region; `price_key`: provider, region and instance type.
pub data Key : Type 0 where
  vm_key price_key zone_key image_key version_key : String → String → String → Key
  region_key : String → String → Key
  status_key services_key : String → Key

abbrev pub vm_key_template : String
vm_key_template = "/banzaicloud.com/cloudinfo/providers/%s/services/%s/regions/%s/vms"

abbrev pub price_key_template : String
price_key_template = "/banzaicloud.com/cloudinfo/providers/%s/regions/%s/prices/%s"

abbrev pub zone_key_template : String
zone_key_template = "/banzaicloud.com/cloudinfo/providers/%s/services/%s/regions/%s/zones/"

abbrev pub region_key_template : String
region_key_template = "/banzaicloud.com/cloudinfo/providers/%s/services/%s/regions/"

abbrev pub status_key_template : String
status_key_template = "/banzaicloud.com/cloudinfo/providers/%s/status/"

abbrev pub image_key_template : String
image_key_template = "/banzaicloud.com/cloudinfo/providers/%s/services/%s/regions/%s/images"

abbrev pub version_key_template : String
version_key_template = "/banzaicloud.com/cloudinfo/providers/%s/services/%s/regions/%s/versions"

abbrev pub services_key_template : String
services_key_template = "/banzaicloud.com/cloudinfo/providers/%s/services"

-- `getKey` at the template and the arguments of each kind of entry.
unfoldable pub key_text : Key → String
unfolding sprintf
key_text (vm_key p s r) = sprintf vm_key_template (p ∷ s ∷ r ∷ [])
key_text (price_key p r t) = sprintf price_key_template (p ∷ r ∷ t ∷ [])
key_text (zone_key p s r) = sprintf zone_key_template (p ∷ s ∷ r ∷ [])
key_text (image_key p s r) = sprintf image_key_template (p ∷ s ∷ r ∷ [])
key_text (version_key p s r) = sprintf version_key_template (p ∷ s ∷ r ∷ [])
key_text (region_key p s) = sprintf region_key_template (p ∷ s ∷ [])
key_text (status_key p) = sprintf status_key_template (p ∷ [])
key_text (services_key p) = sprintf services_key_template (p ∷ [])

-- No slash stands in a name of the key.
abbrev pub IsClean : Key → Type 0
IsClean (vm_key p s r) = IsName p × IsName s × IsName r
IsClean (price_key p r t) = IsName p × IsName r × IsName t
IsClean (zone_key p s r) = IsName p × IsName s × IsName r
IsClean (image_key p s r) = IsName p × IsName s × IsName r
IsClean (version_key p s r) = IsName p × IsName s × IsName r
IsClean (region_key p s) = IsName p × IsName s
IsClean (status_key p) = IsName p
IsClean (services_key p) = IsName p

-- The kinds of entries for which the interface has a method that deletes.
abbrev pub IsDeletable : Key → Type 0
IsDeletable (price_key p r t) = ⊥
IsDeletable (status_key p) = ⊥
IsDeletable (services_key p) = ⊥
IsDeletable _ = Unit

-- What is kept under a key.
abbrev pub Content : Key → Type 0
Content (vm_key p s r) = List VmInfo
Content (price_key p r t) = Price
Content (zone_key p s r) = List String
Content (image_key p s r) = List Image
Content (version_key p s r) = List LocationVersion
Content (region_key p s) = List (String × String)
Content (status_key p) = String
Content (services_key p) = List Service
