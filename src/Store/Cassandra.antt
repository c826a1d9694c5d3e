-- ===== src/Store/Cassandra.antt =====
-- internal/app/cloudinfo/cistore/cassandra.go: the store over a table of a Cassandra cluster. The
-- queries on the table are a parameter. Each method opens a session if there is none, so the getters
-- too return the store after the call. What a getter answers is the value and `true`, or `false`,
-- which is `none`. `Export` and `Import` panic.
pub mod Laws
pub mod Rows
pub mod Refinement
pub mod Stuck
mod Tests
use cloudinfo.Prelude.{
  String, Bool, true, false, not, ◌&&◌, List, [], ◌∷◌, Option, none, some, if◌then◌else◌,
}
use cloudinfo.Prelude.Text.{sprintf}
use cloudinfo.Prelude.Result.{Result}
use cloudinfo.Types.{VmInfo, Price, Image, LocationVersion, Service}
use cloudinfo.Json.{Json, JsonError}
use cloudinfo.Json.Marshal.{marshal, unmarshal}
use cloudinfo.Store.Key.{
  vm_key, price_key, zone_key, image_key, version_key, region_key, status_key, services_key,
  vm_key_template, price_key_template, zone_key_template, image_key_template, version_key_template,
  region_key_template, status_key_template, services_key_template,
}
use cloudinfo.Store.KeyValue.{KeyValue, decoded}

-- What the column `value` of a row holds.
pub data Column : Type 0 where
  empty_text : Column
  json_text : Json → Column

-- The field `session`: the nil pointer, or a session that is or is not closed.
pub data Session : Type 0 where
  nil_session open_session closed_session : Session

abbrev pub is_open : Session → Bool
is_open open_session = true
is_open _ = false

-- Which requests of a call the cluster answers: `CreateSession`, the creation of the keyspace, that
-- of the table, and the query of the method itself.
pub record Cluster : Type 0 where
  pub connects : Bool
  pub creates_keyspace : Bool
  pub creates_table : Bool
  pub answers : Bool

abbrev pub scan {ℓ} : {A : Type ℓ} → (Json → Result JsonError A) → Option Column → Option A
scan decode none = none
scan decode (some empty_text) = none
scan decode (some (json_text j)) = decoded (decode j)

-- `cassandraProductStore.getKey`
get_key : String → List String → String
unfolding sprintf
get_key key_template args = sprintf key_template args

module _ (r : KeyValue Column) where
  -- `cassandraProductStore`, with the rows of its table in the cluster once there is one.
  pub record CassandraProductStore : Type 0 where
    pub session : Session
    pub table : Option r.State

  -- `CREATE TABLE IF NOT EXISTS`
  abbrev pub created : Option r.State → Option r.State
  created none = some r.empty
  created (some rows) = some rows

  -- `initSession`: whether there was no error, and the store after it.
  unfoldable pub init_session : Cluster → CassandraProductStore → Bool × CassandraProductStore
  init_session cluster cps =
      if is_open cps.session
      then (true, cps)
      else (if not cluster.connects
          then (false, record cps { session = nil_session })
          else (if not cluster.creates_keyspace
              then (false, record cps { session = open_session })
              else (if not cluster.creates_table
                  then (false, record cps { session = open_session })
                  else (true, record { session = open_session; table = created cps.table }))))

  pub ready : Cluster → CassandraProductStore → Bool × CassandraProductStore
  unfolding init_session
  ready cluster cps = init_session cluster cps

  -- `Close`, which dereferences the session: `none` is the panic of a nil pointer.
  unfoldable pub close : CassandraProductStore → Option CassandraProductStore
  close cps = elim cps.session [
    | nil_session ↦ none
    | open_session ↦ some (record cps { session = closed_session })
    | closed_session ↦ some cps
  ]

  abbrev pub insert : Bool → Option r.State → String → Column → Option r.State
  insert answers none key column = none
  insert answers (some rows) key column =
      if answers then some (r.set rows key column) else some rows

  abbrev pub select : Bool → Option r.State → String → Option Column
  select answers none key = none
  select answers (some rows) key = if answers then r.get rows key else none

  abbrev pub remove : Bool → Option r.State → String → Option r.State
  remove answers none key = none
  remove answers (some rows) key = if answers then some (r.del rows key) else some rows

  pub set_in : Bool → Bool × CassandraProductStore → String → Option Json → CassandraProductStore
  set_in answers (false, cps) key m_json = cps
  set_in answers (true, cps) key none = cps
  set_in answers (true, cps) key (some m_json) = record cps {
    table = insert answers cps.table key (json_text m_json);
  }

  -- `set`, where `m_json` is what `Marshal` gives for the value.
  pub set : Cluster → CassandraProductStore → String → Option Json → CassandraProductStore
  unfolding set_in init_session
  set cluster cps key m_json = set_in cluster.answers (init_session cluster cps) key m_json

  pub get_in {ℓ} :
      {A : Type ℓ}
      → Bool
      → Bool × CassandraProductStore
      → String
      → (Json → Result JsonError A)
      → Option A × CassandraProductStore
  get_in answers (false, cps) key decode = (none, cps)
  get_in answers (true, cps) key decode = (scan decode (select answers cps.table key), cps)

  pub get {ℓ} :
      {A : Type ℓ}
      → Cluster
      → CassandraProductStore
      → String
      → (Json → Result JsonError A)
      → Option A × CassandraProductStore
  unfolding get_in init_session
  get cluster cps key decode = get_in cluster.answers (init_session cluster cps) key decode

  pub delete_in : Bool → Bool × CassandraProductStore → String → CassandraProductStore
  delete_in answers (false, cps) key = cps
  delete_in answers (true, cps) key = record cps { table = remove answers cps.table key }

  pub delete : Cluster → CassandraProductStore → String → CassandraProductStore
  unfolding delete_in init_session
  delete cluster cps key = delete_in cluster.answers (init_session cluster cps) key

  module _ (cluster : Cluster) (cps : CassandraProductStore) (provider : String) where
    pub get_status : Option String × CassandraProductStore
    unfolding get get_key
    get_status =
        get cluster cps (get_key status_key_template (provider ∷ []))
          (unmarshal (status_key provider))

    pub store_status : String → CassandraProductStore
    unfolding set get_key
    store_status val =
        set cluster cps (get_key status_key_template (provider ∷ []))
          (marshal (status_key provider) val)

    pub get_services : Option (List Service) × CassandraProductStore
    unfolding get get_key
    get_services =
        get cluster cps (get_key services_key_template (provider ∷ []))
          (unmarshal (services_key provider))

    pub store_services : List Service → CassandraProductStore
    unfolding set get_key
    store_services services =
        set cluster cps (get_key services_key_template (provider ∷ []))
          (marshal (services_key provider) services)

    pub get_regions : String → Option (List (String × String)) × CassandraProductStore
    unfolding get get_key
    get_regions service =
        get cluster cps (get_key region_key_template (provider ∷ service ∷ []))
          (unmarshal (region_key provider service))

    pub store_regions : String → List (String × String) → CassandraProductStore
    unfolding set get_key
    store_regions service val =
        set cluster cps (get_key region_key_template (provider ∷ service ∷ []))
          (marshal (region_key provider service) val)

    pub delete_regions : String → CassandraProductStore
    unfolding delete get_key
    delete_regions service =
        delete cluster cps (get_key region_key_template (provider ∷ service ∷ []))

    pub get_price : String → String → Option Price × CassandraProductStore
    unfolding get get_key
    get_price region instance_type =
        get cluster cps (get_key price_key_template (provider ∷ region ∷ instance_type ∷ []))
          (unmarshal (price_key provider region instance_type))

    pub store_price : String → String → Price → CassandraProductStore
    unfolding set get_key
    store_price region instance_type val =
        set cluster cps (get_key price_key_template (provider ∷ region ∷ instance_type ∷ []))
          (marshal (price_key provider region instance_type) val)

  module _ (cluster : Cluster) (cps : CassandraProductStore)
      (provider service region : String) where
    pub get_zones : Option (List String) × CassandraProductStore
    unfolding get get_key
    get_zones =
        get cluster cps (get_key zone_key_template (provider ∷ service ∷ region ∷ []))
          (unmarshal (zone_key provider service region))

    pub store_zones : List String → CassandraProductStore
    unfolding set get_key
    store_zones val =
        set cluster cps (get_key zone_key_template (provider ∷ service ∷ region ∷ []))
          (marshal (zone_key provider service region) val)

    pub delete_zones : CassandraProductStore
    unfolding delete get_key
    delete_zones = delete cluster cps (get_key zone_key_template (provider ∷ service ∷ region ∷ []))

    pub get_vm : Option (List VmInfo) × CassandraProductStore
    unfolding get get_key
    get_vm =
        get cluster cps (get_key vm_key_template (provider ∷ service ∷ region ∷ []))
          (unmarshal (vm_key provider service region))

    pub store_vm : List VmInfo → CassandraProductStore
    unfolding set get_key
    store_vm val =
        set cluster cps (get_key vm_key_template (provider ∷ service ∷ region ∷ []))
          (marshal (vm_key provider service region) val)

    pub delete_vm : CassandraProductStore
    unfolding delete get_key
    delete_vm = delete cluster cps (get_key vm_key_template (provider ∷ service ∷ region ∷ []))

    pub get_image : Option (List Image) × CassandraProductStore
    unfolding get get_key
    get_image =
        let (res, after) =
          get cluster cps (get_key image_key_template (provider ∷ service ∷ region ∷ []))
            (unmarshal (image_key provider service region)) in
        (none, after)

    pub store_image : List Image → CassandraProductStore
    unfolding set get_key
    store_image val =
        set cluster cps (get_key image_key_template (provider ∷ service ∷ region ∷ []))
          (marshal (image_key provider service region) val)

    pub delete_image : CassandraProductStore
    unfolding delete get_key
    delete_image =
        delete cluster cps (get_key image_key_template (provider ∷ service ∷ region ∷ []))

    pub get_version : Option (List LocationVersion) × CassandraProductStore
    unfolding get get_key
    get_version =
        get cluster cps (get_key version_key_template (provider ∷ service ∷ region ∷ []))
          (unmarshal (version_key provider service region))

    pub store_version : List LocationVersion → CassandraProductStore
    unfolding set get_key
    store_version val =
        set cluster cps (get_key version_key_template (provider ∷ service ∷ region ∷ []))
          (marshal (version_key provider service region) val)

    pub delete_version : CassandraProductStore
    unfolding delete get_key
    delete_version =
        delete cluster cps (get_key version_key_template (provider ∷ service ∷ region ∷ []))

-- Names for the methods together, for the `unfolding` lines of proofs.
getters : Unit {0}
unfolding get_status get_services get_regions get_price get_zones get_vm get_image get_version get
    get_in get_key
getters = tt

setters : Unit {0}
unfolding store_status store_services store_regions store_price store_zones store_vm store_image
    store_version set set_in get_key
setters = tt

deleters : Unit {0}
unfolding delete_regions delete_zones delete_image delete_version delete_vm delete delete_in get_key
deleters = tt
