-- ===== src/Examples/Cluster.antt =====
-- A cluster of one broker: its metadata cached, looked up, forgotten and refreshed.
use kafka.Base.{ℕ, ◌≡◌, refl, List, [], ◌∷◌, Option, none, some, map, arith, if◌then◌else◌}
use kafka.Base.Maps.{string_eq, ℕ_eq, last_of}
use kafka.Messages.MetadataResp.{MetadataResp, MetadataRespBroker}
use kafka.Cluster.Metadata.{
  topic_partition_eq, TopicPartition, topic_partition_same, Cluster, node_addr, node_entry, cache,
  partition_count, get_endpoint, forget_endpoint, get_node_address,
}
use kafka.Cluster.Lookup.{
  leaders, count_entry, or_empty, cache-lookups, get_endpoint-forget_endpoint,
}
use kafka.Cluster.Refresh.{fetching, run, new_cluster, advance, next, try_lock, lock}
use kafka.Cluster.Epoch.{run_exclusive}

abbrev broker : MetadataRespBroker
broker = record { node_id = 3; host = 97 ∷ []; port = 9092 }

abbrev partition : TopicPartition
partition = record { topic = 98 ∷ []; partition = 0 }

abbrev meta : MetadataResp
meta = record {
  correlation_id = 7;
  brokers = broker ∷ [];
  topics =
      record {
        err = none;
        name = 98 ∷ [];
        partitions =
            record { err = none; id = 0; leader = 3; replicas = 3 ∷ []; isrs = 3 ∷ [] } ∷ [];
      }
      ∷ [];
}

abbrev empty : Cluster
empty = record { nodes = []; endpoints = []; partitions = [] }

abbrev cached : Cluster
cached = record {
  nodes = (3, node_addr broker) ∷ [];
  endpoints = (partition, 3) ∷ [];
  partitions = (98 ∷ [], 1) ∷ [];
}

cache-lookups_example :
    (get_endpoint partition (cache meta cached).0 ≡ last_of partition (leaders meta.topics))
    × (partition_count (98 ∷ []) (cache meta cached).0
        ≡ last_of (98 ∷ []) (map count_entry meta.topics))
    × (get_node_address 3 (cache meta cached).0
        ≡ or_empty (last_of 3 (map node_entry meta.brokers)))
    × ((cache meta cached).1 ≡ some (map node_addr meta.brokers))
cache-lookups_example = cache-lookups meta broker [] cached partition (98 ∷ []) 3 refl

get_endpoint-forget_endpoint_example :
    get_endpoint partition (forget_endpoint partition cached)
    ≡ (if topic_partition_same partition partition then none else get_endpoint partition cached)
get_endpoint-forget_endpoint_example = get_endpoint-forget_endpoint partition partition cached

-- Two callers: the second begins while the first fetches.
abbrev before : List (ℕ × Option MetadataResp)
before = (0, none) ∷ (0, none) ∷ []

abbrev later : List (ℕ × Option MetadataResp)
later = (1, none) ∷ (0, some meta) ∷ (1, none) ∷ []

abbrev begun : List (ℕ × Option MetadataResp)
begun = (0, none) ∷ (0, none) ∷ (1, none) ∷ (1, none) ∷ []

first_fetches : (run begun (new_cluster empty)).phases 0 ≡ fetching 0
unfolding run new_cluster advance next try_lock lock
first_fetches = refl

abbrev one : ℕ
one = 0

run_exclusive_example : one ≡ one
run_exclusive_example = run_exclusive begun empty 0 0 0 0 (omega arith) first_fetches first_fetches
