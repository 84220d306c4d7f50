-- ===== src/Broker/Known.antt =====
-- Which leader getLeaderEndpoint of broker.go finds.
use kafka.Base.{ℕ, ◌≡◌, refl, ◌∙◌, List, [], ◌∷◌, Option, none, some, Bool, true, false}
use kafka.Base.Maps.{last_of, or_else}
use kafka.Wire.Decoder.{Result, ok, failed}
use kafka.Messages.MetadataResp.{MetadataResp, MetadataRespBroker, MetadataRespTopic}
use kafka.Cluster.Metadata.{TopicPartition, topic_partition_eq, Cluster, cache, get_endpoint}
use kafka.Cluster.Lookup.{leaders, cache-lookups}
use kafka.Broker.Endpoint.{
  or_unknown, refreshed_endpoint, missing_endpoint, first_endpoint, get_leader_endpoint,
}

-- The leader that fresh metadata names last; without brokers it is not cached, and names none.
abbrev pub named_in : TopicPartition → List MetadataRespBroker → List MetadataRespTopic → Option ℕ
named_in tp [] topics = none
named_in tp (broker ∷ brokers) topics = last_of tp (leaders topics)

abbrev pub named : TopicPartition → Result MetadataResp → Option ℕ
named tp (failed e) = none
named tp (ok meta) = named_in tp meta.brokers meta.topics

abbrev pub node_found : Result ℕ → Option ℕ
node_found (ok node) = some node
node_found (failed e) = none

node_found-or_unknown : (o : Option ℕ) → node_found (or_unknown o) ≡ o
node_found-or_unknown none = refl
node_found-or_unknown (some node) = refl

-- The lookup after the request for the topic's own metadata asks the same map as the one before.
refreshed_endpoint-same :
    (allow_creation : Bool) (created : Result MetadataResp) (found : Option ℕ)
    → node_found (refreshed_endpoint allow_creation created found found) ≡ found
refreshed_endpoint-same allow_creation created (some node) = refl
refreshed_endpoint-same true (failed e) none = refl
refreshed_endpoint-same true (ok meta) none = refl
refreshed_endpoint-same false created none = refl

get_endpoint-cache :
    (tp : TopicPartition) (meta : MetadataResp) (cm : Cluster) (brokers : List MetadataRespBroker)
    → get_endpoint tp cm ≡ none
    → meta.brokers ≡ brokers
    → get_endpoint tp (cache meta cm).0 ≡ named_in tp brokers meta.topics
unfolding cache
get_endpoint-cache tp meta cm [] unknown h = rw h unknown
get_endpoint-cache tp meta cm (broker ∷ brokers) unknown h =
    (cache-lookups meta broker brokers cm tp [] 0 h).0

missing_endpoint-named :
    (allow_creation : Bool) (tp : TopicPartition) (fresh created : Result MetadataResp)
    (cm : Cluster)
    → get_endpoint tp cm ≡ none
    → node_found (missing_endpoint allow_creation tp fresh created cm).0 ≡ named tp fresh
missing_endpoint-named allow_creation tp (failed e) created cm unknown = refl
missing_endpoint-named allow_creation tp (ok meta) created cm unknown =
    refreshed_endpoint-same allow_creation created (get_endpoint tp (cache meta cm).0)
    ∙ get_endpoint-cache tp meta cm meta.brokers unknown refl

-- getLeaderEndpoint finds the leader that the cached metadata has, and where it has none the one that the
-- refreshed metadata names last, if it lists a broker. Whether topics may be created, and what the request
-- that creates one answers, never makes it find another leader, or one where those have none.
pub get_leader_endpoint-known :
    (allow_creation : Bool) (tp : TopicPartition) (fresh created : Result MetadataResp)
    (cm : Cluster)
    → node_found (get_leader_endpoint allow_creation tp fresh created cm).0
      ≡ or_else (get_endpoint tp cm) (named tp fresh)
unfolding get_leader_endpoint
get_leader_endpoint-known allow_creation tp fresh created cm = by_cached (get_endpoint tp cm) refl
  where
    by_cached :
        (cached : Option ℕ)
        → get_endpoint tp cm ≡ cached
        → node_found (first_endpoint allow_creation tp fresh created cm cached).0
          ≡ or_else cached (named tp fresh)
    by_cached (some node) h = refl
    by_cached none h = missing_endpoint-named allow_creation tp fresh created cm h
