-- ===== src/Cluster/Kept.antt =====
-- What the caches of connection_cache.go and metadata_cache.go keep.
use kafka.Base.{
  ℕ, ◌≡◌, refl, ap, List, [], ◌∷◌, Option, none, some, Bool, true, false, map, Bool-cases, inl, inr,
  if◌then◌else◌,
}
use kafka.Base.Maps.{
  string_eq, string_same, string_same_iff, Map, lookup, assign, lookup-assign, or_else,
}
use kafka.Messages.MetadataResp.{MetadataResp, MetadataRespBroker}
use kafka.Pool.Addresses.{ConnectionPool, initialize_addrs, get_backend, contains}
use kafka.Cluster.Metadata.{cache, node_addr}
use kafka.Cluster.Pools.{PoolCache, reinitialize_addrs, Shared, cache_shared}
use kafka.Pool.Backend.{new_backend}
use kafka.Pool.Initialized.{get_backend-initialize_addrs}
use kafka.Cluster.Caches.{MetadataCache, get_or_create_metadata, get_or_keep}

-- A call of getOrCreateMetadata: the name, and what NewCluster gives for a limit.
abbrev pub CreateCall : Type 0
CreateCall = List ℕ × (ℕ → Option Shared)

unfoldable pub create_all : List CreateCall → MetadataCache → MetadataCache
create_all [] caches = caches
create_all (call ∷ calls) caches = create_all calls (get_or_create_metadata call.0 call.1 caches).1

lookup-assign_other :
    {V : Type 0} (k j : List ℕ) (v w : V) (m : Map (List ℕ) V)
    → lookup j m ≡ none
    → lookup k m ≡ some w
    → lookup k (assign j v m) ≡ some w
lookup-assign_other k j v w m gone there = elim (Bool-cases (string_same j k)) [
  | inl h ↦
      let same : lookup j m ≡ lookup k m =
        ap (λ (x : List ℕ). lookup x m) ((string_same_iff j k).0 h) in
      cc
  | inr h ↦ rw (lookup-assign k j v m, h) there
]

get_or_keep-lookup :
    (name other : List ℕ) (found created : Option Shared) (caches : MetadataCache) (kept : Shared)
    → lookup name caches ≡ found
    → lookup other caches ≡ some kept
    → lookup other (get_or_keep name found created caches).1 ≡ some kept
get_or_keep-lookup name other (some shared) created caches kept h there = there
get_or_keep-lookup name other none none caches kept h there = there
get_or_keep-lookup name other none (some shared) caches kept h there =
    lookup-assign_other other name shared kept caches h there

-- Entries of the metadata cache are never removed or changed: whatever calls of getOrCreateMetadata
-- follow, for any names and however NewCluster ends, a name that has an entry keeps it, and a call for
-- it returns that entry and leaves the cache as it is.
pub get_or_create_metadata_kept :
    (name : List ℕ) (create : ℕ → Option Shared) (calls : List CreateCall) (caches : MetadataCache)
    (kept : Shared)
    → lookup name caches ≡ some kept
    → get_or_create_metadata name create (create_all calls caches)
      ≡ (some kept, create_all calls caches)
unfolding create_all get_or_create_metadata
get_or_create_metadata_kept name create [] caches kept there = rw there refl
get_or_create_metadata_kept name create (call ∷ calls) caches kept there =
    let next = (get_or_create_metadata call.0 call.1 caches).1 in
    get_or_create_metadata_kept name create calls next kept
      (get_or_keep-lookup call.0 name (lookup call.0 caches) (call.1 1) caches kept refl there)

abbrev each_of : List (List ℕ) → Option ConnectionPool → Option ConnectionPool
each_of addrs none = none
each_of addrs (some pool) = some (initialize_addrs addrs pool)

lookup-reinitialize_addrs :
    (k : List ℕ) (addrs : List (List ℕ)) (pools : PoolCache) (pool : ConnectionPool)
    → lookup k pools ≡ some pool
    → lookup k (reinitialize_addrs addrs pools) ≡ some (initialize_addrs addrs pool)
unfolding lookup reinitialize_addrs
lookup-reinitialize_addrs k addrs [] pool h = absurd cc
lookup-reinitialize_addrs k addrs (e ∷ pools) pool h =
    entry (string_same e.0 k) (lookup k pools) (lookup k (reinitialize_addrs addrs pools)) h
      (λ g. lookup-reinitialize_addrs k addrs pools pool g)
  where
    entry :
        (here : Bool) (rest after : Option ConnectionPool)
        → (if here then some e.1 else rest) ≡ some pool
        → (rest ≡ some pool → after ≡ some (initialize_addrs addrs pool))
        → (if here then some (initialize_addrs addrs e.1) else after)
          ≡ some (initialize_addrs addrs pool)
    entry true rest after g later = ap (each_of addrs) g
    entry false rest after g later = later g

-- Metadata with brokers that is cached reaches every connection pool of the cluster: a pool then has a
-- backend for exactly the brokers' addresses, the one that it had for an address or a new one.
pub cache_shared_reaches :
    (resp : MetadataResp) (first : MetadataRespBroker) (others : List MetadataRespBroker)
    (shared : Shared) (client_id addr : List ℕ) (pool : ConnectionPool)
    → resp.brokers ≡ first ∷ others
    → lookup client_id shared.pools ≡ some pool
    → (after : ConnectionPool) × (lookup client_id (cache_shared resp shared).pools ≡ some after)
      × (get_backend addr after ≡ (
          if contains addr (map node_addr (first ∷ others))
          then or_else (get_backend addr pool) (some (new_backend pool.connection_limit))
          else none))
unfolding cache_shared cache
cache_shared_reaches resp first others shared client_id addr pool some_broker there =
    let addrs = map node_addr (first ∷ others) in
    (
      initialize_addrs addrs pool,
      rw some_broker (lookup-reinitialize_addrs client_id addrs shared.pools pool there),
      get_backend-initialize_addrs addr addrs pool,
    )
