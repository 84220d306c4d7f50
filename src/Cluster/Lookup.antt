-- ===== src/Cluster/Lookup.antt =====
-- What the lookups of cluster.go find after new metadata was cached.
use kafka.Base.{
  ℕ, ◌%◌, ◌^◌, ◌≡◌, refl, ap, ◌∙◌, List, [], ◌∷◌, ◌++◌, Option, none, some, length, map, Bool-cases,
  if◌then◌else◌, inl, inr,
}
use kafka.Base.Maps.{
  string_eq, Eq, ℕ_eq, Map, lookup, assign, assign_all, last_of, or_else-none, lookup-assign_all,
  lookup-delete_same, lookup-delete_other,
}
use kafka.Messages.MetadataResp.{MetadataResp, MetadataRespTopic, MetadataRespBroker}
use kafka.Cluster.Metadata.{
  topic_partition_eq, TopicPartition, topic_partition_same, topic_partition_same_iff, Cluster,
  node_addr, node_entry, endpoint_entry, cache_topics, cache, partition_count, get_endpoint,
  forget_endpoint, get_node_address,
}

-- The leaders that a response names, in its order.
abbrev pub leaders : List MetadataRespTopic → List (TopicPartition × ℕ)
leaders [] = []
leaders (topic ∷ topics) = map (endpoint_entry topic) topic.partitions ++ leaders topics

abbrev pub count_entry : MetadataRespTopic → List ℕ × ℕ
count_entry topic = (topic.name, length topic.partitions % 2 ^ 32)

assign_all-append :
    {K V : Type 0} ⦃eq : Eq K⦄ (xs ys : List (K × V)) (m : Map K V)
    → assign_all (xs ++ ys) m ≡ assign_all ys (assign_all xs m)
unfolding assign_all
assign_all-append [] ys m = refl
assign_all-append (e ∷ xs) ys m = assign_all-append xs ys (assign e.0 e.1 m)

-- The loop over the topics is a loop of assignments to each map.
cache_topics-assign_all :
    (topics : List MetadataRespTopic) (cm : Cluster)
    → cache_topics topics cm ≡ record cm {
      endpoints = assign_all (leaders topics) cm.endpoints;
      partitions = assign_all (map count_entry topics) cm.partitions;
    }
unfolding cache_topics assign_all
cache_topics-assign_all [] cm = refl
cache_topics-assign_all (topic ∷ topics) cm =
    rw
      (assign_all-append (map (endpoint_entry topic) topic.partitions) (leaders topics)
        cm.endpoints)
      (cache_topics-assign_all topics _)

abbrev pub or_empty : Option (List ℕ) → List ℕ
or_empty none = []
or_empty (some addr) = addr

lookup-fresh :
    {K V : Type 0} ⦃eq : Eq K⦄ (k : K) (es : List (K × V))
    → lookup k (assign_all es []) ≡ last_of k es
unfolding lookup
lookup-fresh k es = lookup-assign_all k es [] ∙ or_else-none (last_of k es)

-- Once metadata with at least one broker is cached, GetEndpoint and PartitionCount answer by the
-- response alone, whatever was cached before: by its last entry for the partition, or for the topic.
-- GetNodeAddress gives the address of the last broker with that number, or the empty one, and the
-- connection pools get the addresses of all brokers.
pub cache-lookups :
    (resp : MetadataResp) (broker : MetadataRespBroker) (brokers : List MetadataRespBroker)
    (cm : Cluster) (tp : TopicPartition) (topic : List ℕ) (node : ℕ)
    → resp.brokers ≡ broker ∷ brokers
    → let (after, addrs) = cache resp cm in
      (get_endpoint tp after ≡ last_of tp (leaders resp.topics))
      × (partition_count topic after ≡ last_of topic (map count_entry resp.topics))
      × (get_node_address node after ≡ or_empty (last_of node (map node_entry resp.brokers)))
      × (addrs ≡ some (map node_addr resp.brokers))
unfolding cache get_endpoint partition_count get_node_address
cache-lookups resp broker brokers cm tp topic node h = rw h (
    rw (cache_topics-assign_all resp.topics _) (
      lookup-fresh tp (leaders resp.topics),
      lookup-fresh topic (map count_entry resp.topics),
      ap or_empty (lookup-fresh node (map node_entry (broker ∷ brokers))),
      refl,
    ))

-- ForgetEndpoint makes GetEndpoint fail for its partition, and for no other.
pub get_endpoint-forget_endpoint :
    (forgotten tp : TopicPartition) (cm : Cluster)
    → get_endpoint tp (forget_endpoint forgotten cm)
      ≡ (if topic_partition_same forgotten tp then none else get_endpoint tp cm)
unfolding get_endpoint forget_endpoint
get_endpoint-forget_endpoint forgotten tp cm =
    elim (Bool-cases (topic_partition_same forgotten tp)) [
      | inl e ↦
          let here : forgotten ≡ tp = (topic_partition_same_iff forgotten tp).0 e in
          rw (e, here) (lookup-delete_same tp cm.endpoints)
      | inr e ↦ rw e (lookup-delete_other tp forgotten cm.endpoints e)
    ]
