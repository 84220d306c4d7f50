-- ===== src/Cluster/Caches.antt =====
-- MetadataCache of metadata_cache.go, and NewBroker of broker.go. How NewCluster ends is given.
use kafka.Base.{ℕ, List, [], Option, none, some}
use kafka.Base.Maps.{string_eq, Map, lookup, assign}
use kafka.Pool.Addresses.{ConnectionPool}
use kafka.Cluster.Pools.{Shared, connection_pool_for_client}

abbrev pub MetadataCache : Type 0
MetadataCache = Map (List ℕ) Shared

abbrev pub keep_created : List ℕ → Option Shared → MetadataCache → Option Shared × MetadataCache
keep_created name none caches = (none, caches)
keep_created name (some shared) caches = (some shared, assign name shared caches)

abbrev pub get_or_keep :
    List ℕ → Option Shared → Option Shared → MetadataCache → Option Shared × MetadataCache
get_or_keep name (some shared) created caches = (some shared, caches)
get_or_keep name none created caches = keep_created name created caches

-- getOrCreateMetadata. `create` is NewCluster for a limit on connections, which is 1 here whatever the
-- caller's is; an error is not kept.
unfoldable pub get_or_create_metadata :
    List ℕ → (ℕ → Option Shared) → MetadataCache → Option Shared × MetadataCache
unfolding assign
get_or_create_metadata name create caches = get_or_keep name (lookup name caches) (create 1) caches

-- The global cache, and getMetadataCache: without one, a new cache that nobody else sees.
unfoldable pub get_metadata_cache : Option MetadataCache → MetadataCache
get_metadata_cache none = []
get_metadata_cache (some caches) = caches

unfoldable pub initialize_metadata_cache : Option MetadataCache
initialize_metadata_cache = some []

-- The cache after a broker was made: the pool for its client is in the cluster that the cache has.
abbrev pub store_back :
    Option MetadataCache → List ℕ → Shared → MetadataCache → Option MetadataCache
store_back none name shared caches = none
store_back (some _) name shared caches = some (assign name shared caches)

-- What NewBroker keeps beside its configuration.
pub record NewBroker : Type 0 where
  pub conns : ConnectionPool
  pub cluster : Shared

abbrev pub broker_of :
    Option MetadataCache
    → List ℕ
    → List ℕ
    → ℕ
    → Option Shared × MetadataCache
    → Option NewBroker × Option MetadataCache
broker_of global name client_id limit (none, caches) = (none, global)
broker_of global name client_id limit (some shared, caches) =
    let (pool, after) = connection_pool_for_client client_id limit shared in
    (some (record { conns = pool; cluster = after }), store_back global name after caches)

-- NewBroker; none is its error.
unfoldable pub new_broker :
    List ℕ
    → List ℕ
    → ℕ
    → (ℕ → Option Shared)
    → Option MetadataCache
    → Option NewBroker × Option MetadataCache
unfolding get_or_create_metadata get_metadata_cache connection_pool_for_client assign
new_broker name client_id limit create global =
    broker_of global name client_id limit
      (get_or_create_metadata name create (get_metadata_cache global))
