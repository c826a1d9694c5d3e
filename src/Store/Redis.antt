-- ===== src/Store/Redis.antt =====
-- internal/app/cloudinfo/cistore/redis.go: the store over a Redis server, which is a parameter. The
-- argument `up` of a getter says whether the server answers its command; where it does not, the
-- connection's `Do` gives an error. The argument `applied` of the other methods says whether the
-- server carries out the command: after an error it may have done so all the same, since only the
-- answer may be lost, and the methods do nothing but log the error. What a getter answers is the
-- value and `true`, or `false`, which is `none`. `Export`, `Import` and `Close` do nothing.
pub mod Refinement
mod Tests
use cloudinfo.Prelude.{
  String, Bool, true, false, List, [], ◌∷◌, Option, none, some, str_eq, if◌then◌else◌,
}
use cloudinfo.Prelude.Text.{sprintf}
use cloudinfo.Prelude.Result.{Result, ok, err}
use cloudinfo.Types.{VmInfo, Price, Image, LocationVersion, Service}
use cloudinfo.Json.{Json, JsonError}
use cloudinfo.Json.Marshal.{marshal, unmarshal}
use cloudinfo.Store.Key.{
  vm_key, price_key, zone_key, image_key, version_key, region_key, status_key, services_key,
  vm_key_template, price_key_template, zone_key_template, image_key_template, version_key_template,
  region_key_template, status_key_template, services_key_template,
}
use cloudinfo.Store.KeyValue.{KeyValue, decoded}

-- The cached text is unmarshalled if there is one.
abbrev pub cached {ℓ} : {A : Type ℓ} → (Json → Result JsonError A) → Option Json → Option A
cached decode none = none
cached decode (some j) = decoded (decode j)

-- The answer to `PING`, or `none` where the command fails.
pub ready : Option String → Bool
ready none = false
ready (some reply) = str_eq reply "PONG"

-- `redisProductStore.getKey`
get_key : String → List String → String
unfolding sprintf
get_key key_template args = sprintf key_template args

module _ (r : KeyValue Json) where
  get {ℓ} : {A : Type ℓ} → Bool → r.State → String → (Json → Result JsonError A) → Option A
  get up rps key decode = if up then cached decode (r.get rps key) else none

  -- `set`, where `m_json` is what `Marshal` gives for the value.
  set : Bool → r.State → String → Option Json → r.State
  set applied rps key none = rps
  set applied rps key (some m_json) = if applied then r.set rps key m_json else rps

  delete : Bool → r.State → String → r.State
  delete applied rps key = if applied then r.del rps key else rps

  -- In a getter `served` is its `up`, in another method its `applied`.
  module _ (served : Bool) (rps : r.State) (provider : String) where
    pub get_status : Option String
    unfolding get get_key
    get_status =
        get served rps (get_key status_key_template (provider ∷ []))
          (unmarshal (status_key provider))

    pub store_status : String → r.State
    unfolding set get_key
    store_status val =
        set served rps (get_key status_key_template (provider ∷ []))
          (marshal (status_key provider) val)

    pub get_services : Option (List Service)
    unfolding get get_key
    get_services =
        get served rps (get_key services_key_template (provider ∷ []))
          (unmarshal (services_key provider))

    pub store_services : List Service → r.State
    unfolding set get_key
    store_services services =
        set served rps (get_key services_key_template (provider ∷ []))
          (marshal (services_key provider) services)

    pub get_regions : String → Option (List (String × String))
    unfolding get get_key
    get_regions service =
        get served rps (get_key region_key_template (provider ∷ service ∷ []))
          (unmarshal (region_key provider service))

    pub store_regions : String → List (String × String) → r.State
    unfolding set get_key
    store_regions service val =
        set served rps (get_key region_key_template (provider ∷ service ∷ []))
          (marshal (region_key provider service) val)

    pub delete_regions : String → r.State
    unfolding delete get_key
    delete_regions service =
        delete served rps (get_key region_key_template (provider ∷ service ∷ []))

    pub get_price : String → String → Option Price
    unfolding get get_key
    get_price region instance_type =
        get served rps (get_key price_key_template (provider ∷ region ∷ instance_type ∷ []))
          (unmarshal (price_key provider region instance_type))

    pub store_price : String → String → Price → r.State
    unfolding set get_key
    store_price region instance_type val =
        set served rps (get_key price_key_template (provider ∷ region ∷ instance_type ∷ []))
          (marshal (price_key provider region instance_type) val)

  module _ (served : Bool) (rps : r.State) (provider service region : String) where
    pub get_zones : Option (List String)
    unfolding get get_key
    get_zones =
        get served rps (get_key zone_key_template (provider ∷ service ∷ region ∷ []))
          (unmarshal (zone_key provider service region))

    pub store_zones : List String → r.State
    unfolding set get_key
    store_zones val =
        set served rps (get_key zone_key_template (provider ∷ service ∷ region ∷ []))
          (marshal (zone_key provider service region) val)

    pub delete_zones : r.State
    unfolding delete get_key
    delete_zones = delete served rps (get_key zone_key_template (provider ∷ service ∷ region ∷ []))

    pub get_vm : Option (List VmInfo)
    unfolding get get_key
    get_vm =
        get served rps (get_key vm_key_template (provider ∷ service ∷ region ∷ []))
          (unmarshal (vm_key provider service region))

    pub store_vm : List VmInfo → r.State
    unfolding set get_key
    store_vm val =
        set served rps (get_key vm_key_template (provider ∷ service ∷ region ∷ []))
          (marshal (vm_key provider service region) val)

    pub delete_vm : r.State
    unfolding delete get_key
    delete_vm = delete served rps (get_key vm_key_template (provider ∷ service ∷ region ∷ []))

    pub get_image : Option (List Image)
    unfolding get get_key
    get_image =
        get served rps (get_key image_key_template (provider ∷ service ∷ region ∷ []))
          (unmarshal (image_key provider service region))

    pub store_image : List Image → r.State
    unfolding set get_key
    store_image val =
        set served rps (get_key image_key_template (provider ∷ service ∷ region ∷ []))
          (marshal (image_key provider service region) val)

    pub delete_image : r.State
    unfolding delete get_key
    delete_image = delete served rps (get_key image_key_template (provider ∷ service ∷ region ∷ []))

    pub get_version : Option (List LocationVersion)
    unfolding get get_key
    get_version =
        get served rps (get_key version_key_template (provider ∷ service ∷ region ∷ []))
          (unmarshal (version_key provider service region))

    pub store_version : List LocationVersion → r.State
    unfolding set get_key
    store_version val =
        set served rps (get_key version_key_template (provider ∷ service ∷ region ∷ []))
          (marshal (version_key provider service region) val)

    pub delete_version : r.State
    unfolding delete get_key
    delete_version =
        delete served rps (get_key version_key_template (provider ∷ service ∷ region ∷ []))

-- Names for the methods together, for the `unfolding` lines of proofs.
getters : Unit {0}
unfolding get_status get_services get_regions get_price get_zones get_vm get_image get_version get
    get_key
getters = tt

setters : Unit {0}
unfolding store_status store_services store_regions store_price store_zones store_vm store_image
    store_version set get_key
setters = tt

deleters : Unit {0}
unfolding delete_regions delete_zones delete_image delete_version delete_vm delete get_key
deleters = tt
