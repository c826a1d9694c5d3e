-- ===== src/Store/GoCache/Laws.antt =====
-- The methods of the store over `go-cache`, each in terms of the entry that it is about.
use cloudinfo.Prelude.{ℕ, ◌≡◌, refl, ◌≢◌, Bool, true, false, Option, none, some, if◌then◌else◌, ap}
use cloudinfo.Store.Key.{
  Key, vm_key, price_key, zone_key, image_key, version_key, region_key, status_key, services_key,
  key_text, IsClean, IsDeletable, Content,
}
use cloudinfo.Store.Key.RoundTrip.{key_text_injective}
use cloudinfo.Store.Cache.{Cache, lifetime, is_alive}
use cloudinfo.Store.GoCache
use cloudinfo.Store.GoCache.{
  Item, vm_item, price_item, string_item, image_item, version_item, region_item, status_item,
  services_item, Found, hit, miss, panic, checked, asserted, as_vms, as_price, as_strings,
  as_images, as_versions, as_regions, as_status, as_services, get_key, CacheProductStore,
}

-- The item that a method stores for an entry, and the assertion that it makes on a read.
abbrev pub to_item : (k : Key) → Content k → Item
to_item (vm_key p s r) v = vm_item v
to_item (price_key p r t) v = price_item v
to_item (zone_key p s r) v = string_item v
to_item (image_key p s r) v = image_item v
to_item (version_key p s r) v = version_item v
to_item (region_key p s) v = region_item v
to_item (status_key p) v = status_item v
to_item (services_key p) v = services_item v

abbrev pub of_item : (k : Key) → Item → Option (Content k)
of_item (vm_key p s r) = as_vms
of_item (price_key p r t) = as_price
of_item (zone_key p s r) = as_strings
of_item (image_key p s r) = as_images
of_item (version_key p s r) = as_versions
of_item (region_key p s) = as_regions
of_item (status_key p) = as_status
of_item (services_key p) = as_services

pub of_item-to_item : (k : Key) (v : Content k) → of_item k (to_item k v) ≡ some v
of_item-to_item (vm_key p s r) v = refl
of_item-to_item (price_key p r t) v = refl
of_item-to_item (zone_key p s r) v = refl
of_item-to_item (image_key p s r) v = refl
of_item-to_item (version_key p s r) v = refl
of_item-to_item (region_key p s) v = refl
of_item-to_item (status_key p) v = refl
of_item-to_item (services_key p) v = refl

module _ (c : Cache Item) where
  -- The getter and the method that stores, for each kind of entry.
  unfoldable pub read_entry : ℕ → CacheProductStore c → (k : Key) → Found (Content k)
  read_entry now cis (vm_key p s r) = GoCache.get_vm c now cis p s r
  read_entry now cis (price_key p r t) = GoCache.get_price c now cis p r t
  read_entry now cis (zone_key p s r) = GoCache.get_zones c now cis p s r
  read_entry now cis (image_key p s r) = GoCache.get_image c now cis p s r
  read_entry now cis (version_key p s r) = GoCache.get_version c now cis p s r
  read_entry now cis (region_key p s) = GoCache.get_regions c now cis p s
  read_entry now cis (status_key p) = GoCache.get_status c now cis p
  read_entry now cis (services_key p) = GoCache.get_services c now cis p

  unfoldable pub write_entry : ℕ → CacheProductStore c → (k : Key) → Content k → CacheProductStore c
  write_entry now cis (vm_key p s r) v = GoCache.store_vm c now cis p s r v
  write_entry now cis (price_key p r t) v = GoCache.store_price c now cis p r t v
  write_entry now cis (zone_key p s r) v = GoCache.store_zones c now cis p s r v
  write_entry now cis (image_key p s r) v = GoCache.store_image c now cis p s r v
  write_entry now cis (version_key p s r) v = GoCache.store_version c now cis p s r v
  write_entry now cis (region_key p s) v = GoCache.store_regions c now cis p s v
  write_entry now cis (status_key p) v = GoCache.store_status c now cis p v
  write_entry now cis (services_key p) v = GoCache.store_services c now cis p v

  -- Prices, the status and the services are never deleted.
  unfoldable pub delete_entry : CacheProductStore c → Key → CacheProductStore c
  delete_entry cis (vm_key p s r) = GoCache.delete_vm c cis p s r
  delete_entry cis (zone_key p s r) = GoCache.delete_zones c cis p s r
  delete_entry cis (image_key p s r) = GoCache.delete_image c cis p s r
  delete_entry cis (version_key p s r) = GoCache.delete_version c cis p s r
  delete_entry cis (region_key p s) = GoCache.delete_regions c cis p s
  delete_entry cis _ = cis

  pub read_entry_lem :
      (now : ℕ) (cis : CacheProductStore c) (k : Key)
      → read_entry now cis k ≡ asserted (of_item k) (c.get now cis.cache (key_text k))
  unfolding read_entry GoCache.getters key_text get_key
  read_entry_lem now cis (vm_key p s r) = refl
  read_entry_lem now cis k = refl

  write_entry_lem :
      (now : ℕ) (cis : CacheProductStore c) (k : Key) (v : Content k)
      → write_entry now cis k v
        ≡ record cis { cache = c.set now cis.cache (key_text k) (to_item k v) cis.item_expiry }
  unfolding write_entry GoCache.setters key_text get_key
  write_entry_lem now cis (vm_key p s r) v = refl
  write_entry_lem now cis k v = refl

  delete_entry_lem :
      (cis : CacheProductStore c) (k : Key)
      → IsDeletable k
      → delete_entry cis k ≡ record cis { cache = c.delete cis.cache (key_text k) }
  unfolding delete_entry GoCache.deleters key_text get_key
  delete_entry_lem cis (vm_key p s r) h = refl
  delete_entry_lem cis (zone_key p s r) h = refl
  delete_entry_lem cis (image_key p s r) h = refl
  delete_entry_lem cis (version_key p s r) h = refl
  delete_entry_lem cis (region_key p s) h = refl
  delete_entry_lem cis k h = absurd h

  -- How long an item of a store lives.
  abbrev pub item_lifetime : CacheProductStore c → Option ℕ
  item_lifetime cis = lifetime (c.default cis.cache) cis.item_expiry

  asserted_if :
      (k : Key) (v : Content k) (b : Bool)
      → asserted (of_item k) (if b then some (to_item k v) else none) ≡ (if b then hit v else miss)
  asserted_if k v true = ap checked (of_item-to_item k v)
  asserted_if k v false = refl

  -- For every kind of entry and all names: what a method of the store has written is found under
  -- the same names, with its value, until the lifetime of the store's items has passed, and is
  -- missed from then on.
  pub read_entry-write_entry :
      (later now : ℕ) (cis : CacheProductStore c) (k : Key) (v : Content k)
      → read_entry later (write_entry now cis k v) k
        ≡ (if is_alive (item_lifetime cis) now later then hit v else miss)
  read_entry-write_entry later now cis k v =
      rw (write_entry_lem now cis k v, read_entry_lem, c.get-set) (asserted_if k v _)

  -- If no name holds a slash, a write of one entry leaves the answer for every other entry as it
  -- was, also for entries of another kind and at every later time.
  pub read_entry-write_entry_other :
      (later now : ℕ) (cis : CacheProductStore c) (j k : Key) (v : Content k)
      → IsClean j
      → IsClean k
      → j ≢ k
      → read_entry later (write_entry now cis k v) j ≡ read_entry later cis j
  read_entry-write_entry_other later now cis j k v hj hk n =
      rw (write_entry_lem now cis k v, read_entry_lem, read_entry_lem later cis j)
        (ap (asserted (of_item j)) (
          c.get-set_other later now cis.cache (key_text j) (key_text k) (to_item k v)
            cis.item_expiry (λ e. n (key_text_injective j k hj hk e))))

  -- A deleted entry is missed, and every other entry with no slash in its names is left alone.
  pub read_entry-delete_entry :
      (now : ℕ) (cis : CacheProductStore c) (k : Key)
      → IsDeletable k
      → read_entry now (delete_entry cis k) k ≡ miss
  read_entry-delete_entry now cis k h = rw (delete_entry_lem cis k h, read_entry_lem, c.get-delete)

  pub read_entry-delete_entry_other :
      (now : ℕ) (cis : CacheProductStore c) (j k : Key)
      → IsClean j
      → IsClean k
      → j ≢ k
      → IsDeletable k
      → read_entry now (delete_entry cis k) j ≡ read_entry now cis j
  read_entry-delete_entry_other now cis j k hj hk n h =
      rw (delete_entry_lem cis k h, read_entry_lem, read_entry_lem now cis j)
        (ap (asserted (of_item j)) (
          c.get-delete_other now cis.cache (key_text j) (key_text k)
            (λ e. n (key_text_injective j k hj hk e))))
