-- ===== src/Cluster/Pools.antt =====
-- connectionPoolCache of connection_cache.go, and with it Fetch and NewCluster of cluster.go. What the
-- nodes answer is given, and how each RefreshMetadata of NewCluster ends.
use kafka.Base.{ℕ, zero, suc, List, [], ◌∷◌, Option, none, some, map, if◌then◌else◌}
use kafka.Base.Maps.{string_eq, Map, lookup, assign}
use kafka.Wire.BigEndian.{is_negative64}
use kafka.Wire.Decoder.{Result, ok, failed}
use kafka.Messages.MetadataResp.{MetadataResp}
use kafka.Pool.Addresses.{ConnectionPool, new_connection_pool, initialize_addrs}
use kafka.Cluster.Metadata.{Cluster, cache}

-- The pools by the client id that they were made for.
abbrev pub PoolCache : Type 0
PoolCache = Map (List ℕ) ConnectionPool

abbrev pub get_or_add :
    List ℕ → Option ConnectionPool → ConnectionPool → PoolCache → ConnectionPool × PoolCache
get_or_add client_id none created pools = (created, assign client_id created pools)
get_or_add client_id (some pool) created pools = (pool, pools)

-- getOrCreateConnectionPool, with conf.ConnectionLimit
unfoldable pub get_or_create_connection_pool :
    List ℕ → ℕ → List (List ℕ) → PoolCache → ConnectionPool × PoolCache
unfolding assign new_connection_pool
get_or_create_connection_pool client_id limit nodes pools =
    get_or_add client_id (lookup client_id pools) (new_connection_pool limit nodes) pools

unfoldable pub reinitialize_addrs : List (List ℕ) → PoolCache → PoolCache
unfolding initialize_addrs
reinitialize_addrs addrs pools = map (λ e. (e.0, initialize_addrs addrs e.1)) pools

-- A Cluster: its metadata and its connPoolCache, which has metadataConnPool under its own client id.
pub record Shared : Type 0 where
  pub metadata : Cluster
  pub pools : PoolCache

-- "metadata-cache"
abbrev pub metadata_cache_client_id : List ℕ
metadata_cache_client_id =
    109 ∷ 101 ∷ 116 ∷ 97 ∷ 100 ∷ 97 ∷ 116 ∷ 97 ∷ 45 ∷ 99 ∷ 97 ∷ 99 ∷ 104 ∷ 101 ∷ []

abbrev pub with_addrs : Option (List (List ℕ)) → PoolCache → PoolCache
with_addrs none pools = pools
with_addrs (some addrs) pools = reinitialize_addrs addrs pools

-- cache, with its last line: the addresses go to every pool.
unfoldable pub cache_shared : MetadataResp → Shared → Shared
unfolding cache reinitialize_addrs
cache_shared resp shared =
    let (metadata, addrs) = cache resp shared.metadata in
    record { metadata = metadata; pools = with_addrs addrs shared.pools }

-- GetAllAddrs: the keys of the map, in some order.
unfoldable pub get_all_addrs : ConnectionPool → List (List ℕ)
get_all_addrs cp = map (λ e. e.0) cp.backends

-- Fetch, over the addresses in the order in which they are tried: what dialling and the request for
-- metadata give at each is known, and none is that dialling failed. It returns the response, if there is
-- one, and the addresses whose connections were made and closed.
unfoldable pub fetch_metadata :
    (List ℕ → Option (Result MetadataResp)) → List (List ℕ) → Option MetadataResp × List (List ℕ)
fetch_metadata node [] = (none, [])
fetch_metadata node (addr ∷ addrs) =
    let (found, closed) = fetch_metadata node addrs in
    elim (node addr) [
      | none ↦ (found, closed)
      | some answer ↦ elim answer [
        | ok resp ↦ (some resp, addr ∷ [])
        | failed e ↦ (found, addr ∷ closed)
      ]
    ]

-- How a RefreshMetadata ends, as NewCluster sees it.
pub data Refresh : Type 0 where
  refreshed : MetadataResp → Refresh
  refresh_failed timed_out : Refresh

abbrev pub after_refresh : Refresh → Option Shared → Shared → Option Shared
after_refresh (refreshed resp) later shared = some (cache_shared resp shared)
after_refresh refresh_failed later shared = later
after_refresh timed_out later shared = later

-- The loop of NewCluster, with the tries left and the number of the next; a refresh that timed out is
-- taken to have no effect.
unfoldable pub connect_loop : (ℕ → Refresh) → ℕ → ℕ → Shared → Option Shared
unfolding cache_shared
connect_loop refreshes zero k shared = none
connect_loop refreshes (suc left) k shared =
    after_refresh (refreshes k) (connect_loop refreshes left (suc k) shared) shared

abbrev no_metadata : Cluster
no_metadata = record { nodes = []; endpoints = []; partitions = [] }

-- NewCluster, with conf.ConnectionLimit and conf.DialRetryLimit; none is its error.
unfoldable pub new_shared : ℕ → ℕ → List (List ℕ) → (ℕ → Refresh) → Option Shared
unfolding get_or_create_connection_pool connect_loop
new_shared connection_limit retry_limit nodes refreshes =
    let pools =
      (get_or_create_connection_pool metadata_cache_client_id connection_limit nodes []).1 in
    connect_loop refreshes (if is_negative64 retry_limit then 0 else retry_limit) 0
      (record { metadata = no_metadata; pools = pools })

-- connectionPoolForClient, with the addresses of the metadata pool.
abbrev addrs_of : Option ConnectionPool → List (List ℕ)
addrs_of none = []
addrs_of (some cp) = get_all_addrs cp

unfoldable pub connection_pool_for_client : List ℕ → ℕ → Shared → ConnectionPool × Shared
unfolding get_or_create_connection_pool get_all_addrs lookup
connection_pool_for_client client_id limit shared =
    let nodes = addrs_of (lookup metadata_cache_client_id shared.pools) in
    let (pool, pools) = get_or_create_connection_pool client_id limit nodes shared.pools in
    (pool, record shared { pools = pools })

-- GetNodes: a copy of the map.
unfoldable pub get_nodes : Cluster → Map ℕ (List ℕ)
get_nodes cm = cm.nodes
