-- ===== src/Examples/Caching.antt =====
-- A cluster whose pools get new addresses, and a cache of such clusters.
use kafka.Base.{ℕ, ◌≡◌, refl, List, [], ◌∷◌, Option, none, some, map, if◌then◌else◌}
use kafka.Base.Maps.{string_eq, lookup, or_else}
use kafka.Messages.MetadataResp.{MetadataResp, MetadataRespBroker}
use kafka.Pool.Backend.{Backend, new_backend}
use kafka.Pool.Addresses.{ConnectionPool, contains, get_backend}
use kafka.Cluster.Metadata.{node_addr}
use kafka.Cluster.Pools.{Shared, cache_shared}
use kafka.Cluster.Caches.{MetadataCache, get_or_create_metadata}
use kafka.Cluster.Kept.{CreateCall, create_all, get_or_create_metadata_kept, cache_shared_reaches}

abbrev used : Backend
used = record { connection_limit = 2; channel = []; conns = 5 ∷ []; counter = 1 }

-- The pool of the client "c" has a connection to `a:1`.
abbrev pool : ConnectionPool
pool = record { connection_limit = 2; backends = (97 ∷ 58 ∷ 49 ∷ [], used) ∷ []; closed = [] }

abbrev shared : Shared
shared = record {
  metadata = record { nodes = []; endpoints = []; partitions = [] };
  pools = (99 ∷ [], pool) ∷ [];
}

abbrev node_a : MetadataRespBroker
node_a = record { node_id = 1; host = 97 ∷ []; port = 1 }

abbrev node_b : MetadataRespBroker
node_b = record { node_id = 2; host = 98 ∷ []; port = 1 }

abbrev two_brokers : MetadataResp
two_brokers = record { correlation_id = 7; brokers = (node_a ∷ node_b ∷ []); topics = [] }

has_pool : lookup (99 ∷ []) shared.pools ≡ some pool
unfolding lookup
has_pool = refl

cache_shared_reaches_example :
    (after : ConnectionPool) × (lookup (99 ∷ []) (cache_shared two_brokers shared).pools
      ≡ some after)
    × (get_backend (97 ∷ 58 ∷ 49 ∷ []) after ≡ (
        if contains (97 ∷ 58 ∷ 49 ∷ []) (map node_addr (node_a ∷ node_b ∷ []))
        then or_else (get_backend (97 ∷ 58 ∷ 49 ∷ []) pool) (some (new_backend 2))
        else none))
cache_shared_reaches_example =
    cache_shared_reaches two_brokers node_a (node_b ∷ []) shared (99 ∷ []) (97 ∷ 58 ∷ 49 ∷ []) pool
      refl has_pool

abbrev no_cluster : ℕ → Option Shared
no_cluster limit = none

abbrev new_cluster : ℕ → Option Shared
new_cluster limit =
    some (record { metadata = record { nodes = []; endpoints = []; partitions = [] }; pools = [] })

abbrev caches : MetadataCache
caches = (120 ∷ [], shared) ∷ []

-- A call for the same name, one for another and one that fails.
abbrev calls : List CreateCall
calls = (120 ∷ [], new_cluster) ∷ (121 ∷ [], new_cluster) ∷ (122 ∷ [], no_cluster) ∷ []

is_cached : lookup (120 ∷ []) caches ≡ some shared
unfolding lookup
is_cached = refl

get_or_create_metadata_kept_example :
    get_or_create_metadata (120 ∷ []) new_cluster (create_all calls caches)
    ≡ (some shared, create_all calls caches)
get_or_create_metadata_kept_example =
    get_or_create_metadata_kept (120 ∷ []) new_cluster calls caches shared is_cached
