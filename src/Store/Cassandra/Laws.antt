-- ===== src/Store/Cassandra/Laws.antt =====
-- The methods of the store over Cassandra, each in terms of the entry that it is about.
use cloudinfo.Prelude.{◌≡◌, refl, Option, none}
use cloudinfo.Json.Marshal.{marshal, unmarshal}
use cloudinfo.Store.Key.{
  Key, vm_key, price_key, zone_key, image_key, version_key, region_key, status_key, services_key,
  key_text, IsDeletable, Content,
}
use cloudinfo.Store.KeyValue.{KeyValue}
use cloudinfo.Store.Cassandra
use cloudinfo.Store.Cassandra.{Column, Cluster, CassandraProductStore, init_session, scan}

module _ (r : KeyValue Column) where
  -- The getter, the method that stores and the one that deletes, for each kind of entry.
  unfoldable pub read_entry :
      Cluster → CassandraProductStore r → (k : Key) → Option (Content k) × CassandraProductStore r
  read_entry cluster cps (vm_key p s g) = Cassandra.get_vm r cluster cps p s g
  read_entry cluster cps (price_key p g t) = Cassandra.get_price r cluster cps p g t
  read_entry cluster cps (zone_key p s g) = Cassandra.get_zones r cluster cps p s g
  read_entry cluster cps (image_key p s g) = Cassandra.get_image r cluster cps p s g
  read_entry cluster cps (version_key p s g) = Cassandra.get_version r cluster cps p s g
  read_entry cluster cps (region_key p s) = Cassandra.get_regions r cluster cps p s
  read_entry cluster cps (status_key p) = Cassandra.get_status r cluster cps p
  read_entry cluster cps (services_key p) = Cassandra.get_services r cluster cps p

  unfoldable pub write_entry :
      Cluster → CassandraProductStore r → (k : Key) → Content k → CassandraProductStore r
  write_entry cluster cps (vm_key p s g) v = Cassandra.store_vm r cluster cps p s g v
  write_entry cluster cps (price_key p g t) v = Cassandra.store_price r cluster cps p g t v
  write_entry cluster cps (zone_key p s g) v = Cassandra.store_zones r cluster cps p s g v
  write_entry cluster cps (image_key p s g) v = Cassandra.store_image r cluster cps p s g v
  write_entry cluster cps (version_key p s g) v = Cassandra.store_version r cluster cps p s g v
  write_entry cluster cps (region_key p s) v = Cassandra.store_regions r cluster cps p s v
  write_entry cluster cps (status_key p) v = Cassandra.store_status r cluster cps p v
  write_entry cluster cps (services_key p) v = Cassandra.store_services r cluster cps p v

  unfoldable pub delete_entry : Cluster → CassandraProductStore r → Key → CassandraProductStore r
  delete_entry cluster cps (vm_key p s g) = Cassandra.delete_vm r cluster cps p s g
  delete_entry cluster cps (zone_key p s g) = Cassandra.delete_zones r cluster cps p s g
  delete_entry cluster cps (image_key p s g) = Cassandra.delete_image r cluster cps p s g
  delete_entry cluster cps (version_key p s g) = Cassandra.delete_version r cluster cps p s g
  delete_entry cluster cps (region_key p s) = Cassandra.delete_regions r cluster cps p s
  delete_entry cluster cps _ = cps

  -- The answer of `GetImage` is always `false`.
  abbrev pub shown : (k : Key) → Option (Content k) → Option (Content k)
  shown (image_key p s g) found = none
  shown (vm_key p s g) found = found
  shown (price_key p g t) found = found
  shown (zone_key p s g) found = found
  shown (version_key p s g) found = found
  shown (region_key p s) found = found
  shown (status_key p) found = found
  shown (services_key p) found = found

  pub read_entry_lem :
      (cluster : Cluster) (cps : CassandraProductStore r) (k : Key)
      → read_entry cluster cps k ≡ (
        shown k (Cassandra.get r cluster cps (key_text k) (unmarshal k)).0,
        (Cassandra.get r cluster cps (key_text k) (unmarshal k)).1,
      )
  unfolding read_entry Cassandra.getters key_text
  read_entry_lem cluster cps (vm_key p s g) = refl
  read_entry_lem cluster cps (price_key p g t) = refl
  read_entry_lem cluster cps (zone_key p s g) = refl
  read_entry_lem cluster cps (image_key p s g) = refl
  read_entry_lem cluster cps (version_key p s g) = refl
  read_entry_lem cluster cps (region_key p s) = refl
  read_entry_lem cluster cps (status_key p) = refl
  read_entry_lem cluster cps (services_key p) = refl

  pub write_entry_lem :
      (cluster : Cluster) (cps : CassandraProductStore r) (k : Key) (v : Content k)
      → write_entry cluster cps k v ≡ Cassandra.set r cluster cps (key_text k) (marshal k v)
  unfolding write_entry Cassandra.setters key_text
  write_entry_lem cluster cps (vm_key p s g) v = refl
  write_entry_lem cluster cps (price_key p g t) v = refl
  write_entry_lem cluster cps (zone_key p s g) v = refl
  write_entry_lem cluster cps (image_key p s g) v = refl
  write_entry_lem cluster cps (version_key p s g) v = refl
  write_entry_lem cluster cps (region_key p s) v = refl
  write_entry_lem cluster cps (status_key p) v = refl
  write_entry_lem cluster cps (services_key p) v = refl

  pub delete_entry_lem :
      (cluster : Cluster) (cps : CassandraProductStore r) (k : Key)
      → IsDeletable k
      → delete_entry cluster cps k ≡ Cassandra.delete r cluster cps (key_text k)
  unfolding delete_entry Cassandra.deleters key_text
  delete_entry_lem cluster cps (vm_key p s g) d = refl
  delete_entry_lem cluster cps (zone_key p s g) d = refl
  delete_entry_lem cluster cps (image_key p s g) d = refl
  delete_entry_lem cluster cps (version_key p s g) d = refl
  delete_entry_lem cluster cps (region_key p s) d = refl
  delete_entry_lem cluster cps (price_key _ _ _) d = elim d [ ]
  delete_entry_lem cluster cps (status_key _) d = elim d [ ]
  delete_entry_lem cluster cps (services_key _) d = elim d [ ]

  pub shown-none : (k : Key) → shown k none ≡ none
  shown-none (vm_key p s g) = refl
  shown-none (price_key p g t) = refl
  shown-none (zone_key p s g) = refl
  shown-none (image_key p s g) = refl
  shown-none (version_key p s g) = refl
  shown-none (region_key p s) = refl
  shown-none (status_key p) = refl
  shown-none (services_key p) = refl
