-- ===== src/Cluster/Metadata.antt =====
-- The metadata of Cluster in cluster.go: the maps under its mutex, and the calls that use them.
use kafka.Base.{
  ℕ, zero, suc, ◌+◌, ◌-◌, ◌/◌, ◌%◌, ◌^◌, ◌≡◌, ◌↔◌, List, [], ◌∷◌, ◌++◌, Option, none, some, Bool,
  true, ◌&&◌, ◌==◌, ltb, length, map, if◌then◌else◌, arith,
}
use kafka.Base.Maps.{
  string_same, string_same_iff, string_eq, Eq, ℕ_eq, Map, lookup, delete, assign, assign_all,
}
use kafka.Wire.BigEndian.{is_negative32}
use kafka.Messages.MetadataResp.{
  MetadataResp, MetadataRespTopic, MetadataRespPartition, MetadataRespBroker,
}

-- A topic and a partition of it: the keys of `endpoints`.
pub record TopicPartition : Type 0 where
  pub topic : List ℕ
  pub partition : ℕ

abbrev pub topic_partition_same : TopicPartition → TopicPartition → Bool
topic_partition_same a b = string_same a.topic b.topic && a.partition == b.partition

pub topic_partition_same_iff : (a b : TopicPartition) → (topic_partition_same a b ≡ true) ↔ (a ≡ b)
topic_partition_same_iff a b = ground (arith, string_same_iff a.topic b.topic)

instance abbrev pub topic_partition_eq : Eq TopicPartition
topic_partition_eq = record { same = topic_partition_same; same_iff = topic_partition_same_iff }

-- The fields under `mu` that hold metadata.
pub record Cluster : Type 0 where
  pub nodes : Map ℕ (List ℕ)
  pub endpoints : Map TopicPartition ℕ
  pub partitions : Map (List ℕ) ℕ

-- The decimal digits of a number; ten are enough for 32 bits.
unfoldable pub digits : ℕ → ℕ → List ℕ
digits zero n = []
digits (suc fuel) n =
    let front = digits fuel (n / 10) in
    if ltb n 10 then (48 + n) ∷ [] else front ++ ((48 + n % 10) ∷ [])

-- `fmt.Sprintf("%s:%d", node.Host, node.Port)`
unfoldable pub node_addr : MetadataRespBroker → List ℕ
unfolding digits
node_addr node =
    node.host
    ++ (58
        ∷ (if is_negative32 node.port
            then 45 ∷ digits 10 (2 ^ 32 - node.port)
            else digits 10 node.port))

abbrev pub node_entry : MetadataRespBroker → ℕ × List ℕ
node_entry node = (node.node_id, node_addr node)

abbrev pub endpoint_entry : MetadataRespTopic → MetadataRespPartition → TopicPartition × ℕ
endpoint_entry topic part = (record { topic = topic.name; partition = part.id }, part.leader)

-- The loop over the topics: their partitions, and then their number.
unfoldable pub cache_topics : List MetadataRespTopic → Cluster → Cluster
unfolding assign assign_all
cache_topics [] cm = cm
cache_topics (topic ∷ topics) cm = cache_topics topics (record cm {
  endpoints = assign_all (map (endpoint_entry topic) topic.partitions) cm.endpoints;
  partitions = assign topic.name (length topic.partitions % 2 ^ 32) cm.partitions;
})

-- Metadata without brokers is refused. With the new maps come the addresses for the connection pools.
unfoldable pub cache : MetadataResp → Cluster → Cluster × Option (List (List ℕ))
unfolding cache_topics node_addr assign_all
cache resp cm = elim resp.brokers [
  | [] ↦ (cm, none)
  | _ ∷ _ ↦ (
    cache_topics resp.topics (record {
      nodes = assign_all (map node_entry resp.brokers) [];
      endpoints = [];
      partitions = [];
    }),
    some (map node_addr resp.brokers),
  )
]

unfoldable pub partition_count : List ℕ → Cluster → Option ℕ
partition_count topic cm = lookup topic cm.partitions

unfoldable pub get_endpoint : TopicPartition → Cluster → Option ℕ
get_endpoint tp cm = lookup tp cm.endpoints

unfoldable pub forget_endpoint : TopicPartition → Cluster → Cluster
forget_endpoint tp cm = record cm { endpoints = delete tp cm.endpoints }

-- An unknown node has the empty address.
unfoldable pub get_node_address : ℕ → Cluster → List ℕ
get_node_address node cm = elim (lookup node cm.nodes) [ none ↦ [] | some addr ↦ addr ]
