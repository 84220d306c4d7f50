-- ===== src/Broker/Endpoint.antt =====
-- getLeaderEndpoint of broker.go: who leads a partition, with the outcomes of RefreshMetadata and of
-- Fetch given, and no other caller between its steps.
use kafka.Base.{ℕ, Option, none, some, Bool, true, false}
use kafka.Wire.Errors.{Error, kafka_error, err_unknown_topic_or_partition}
use kafka.Wire.Decoder.{Result, ok, failed}
use kafka.Messages.MetadataResp.{MetadataResp}
use kafka.Cluster.Metadata.{TopicPartition, Cluster, cache, get_endpoint}

abbrev pub unknown_partition : Error
unknown_partition = kafka_error err_unknown_topic_or_partition

abbrev pub or_unknown : Option ℕ → Result ℕ
or_unknown none = failed unknown_partition
or_unknown (some node) = ok node

-- The last lookup, after the request for the topic's own metadata, whose response is not cached.
abbrev pub created_endpoint : Result MetadataResp → Option ℕ → Result ℕ
created_endpoint (failed e) found = failed e
created_endpoint (ok _) found = or_unknown found

-- The lookup after the refresh, and what the last one finds.
abbrev pub refreshed_endpoint : Bool → Result MetadataResp → Option ℕ → Option ℕ → Result ℕ
refreshed_endpoint allow_creation created (some node) last = ok node
refreshed_endpoint true created none last = created_endpoint created last
refreshed_endpoint false created none last = failed unknown_partition

abbrev pub missing_endpoint :
    Bool → TopicPartition → Result MetadataResp → Result MetadataResp → Cluster → Result ℕ × Cluster
missing_endpoint allow_creation tp (failed e) created cm = (failed e, cm)
missing_endpoint allow_creation tp (ok meta) created cm =
    let after = (cache meta cm).0 in
    (
      refreshed_endpoint allow_creation created (get_endpoint tp after) (get_endpoint tp after),
      after,
    )

abbrev pub first_endpoint :
    Bool
    → TopicPartition
    → Result MetadataResp
    → Result MetadataResp
    → Cluster
    → Option ℕ
    → Result ℕ × Cluster
first_endpoint allow_creation tp refreshed created cm (some node) = (ok node, cm)
first_endpoint allow_creation tp refreshed created cm none =
    missing_endpoint allow_creation tp refreshed created cm

unfoldable pub get_leader_endpoint :
    Bool → TopicPartition → Result MetadataResp → Result MetadataResp → Cluster → Result ℕ × Cluster
get_leader_endpoint allow_creation tp refreshed created cm =
    first_endpoint allow_creation tp refreshed created cm (get_endpoint tp cm)
