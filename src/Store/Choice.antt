-- ===== src/Store/Choice.antt =====
-- internal/app/cloudinfo/cistore/config.go: which store the configuration asks for.
use cloudinfo.Prelude.{ℕ, Bool, ◌≡◌, refl, true, if◌then◌else◌}

-- The switches of the stores, and the fields of `GoCacheConfig`.
pub record StoreConfig : Type 0 where
  pub redis_enabled : Bool
  pub cassandra_enabled : Bool
  pub expiration : ℕ
  pub cleanup_interval : ℕ

-- The constructor of a store that is called, with the arguments of `NewCacheProductStore`.
pub data ChosenStore : Type 0 where
  redis_product_store cassandra_product_store : ChosenStore
  cache_product_store : ℕ → ℕ → ChosenStore

-- `NewCloudInfoStore`
unfoldable pub new_cloud_info_store : StoreConfig → ChosenStore
new_cloud_info_store conf =
    if conf.redis_enabled
    then redis_product_store
    else (if conf.cassandra_enabled
        then cassandra_product_store
        else cache_product_store conf.expiration conf.cleanup_interval)

both :
    new_cloud_info_store (record {
      redis_enabled = true;
      cassandra_enabled = true;
      expiration = 1;
      cleanup_interval = 2;
    })
    ≡ redis_product_store
unfolding new_cloud_info_store
both = refl
