-- ===== src/Examples/Consuming.antt =====
-- A consumer of one partition, and a partition that nobody leads.
use kafka.Base.{ℕ, ◌≡◌, ◌++◌, ◌-◌, ◌^◌, refl, List, [], ◌∷◌, some, none, true, map, take}
use kafka.Wire.Decoder.{ok}
use kafka.MessageSet.Message.{Message, plain_message}
use kafka.Messages.MetadataResp.{MetadataResp}
use kafka.Cluster.Metadata.{TopicPartition, Cluster, get_endpoint}
use kafka.Broker.Consumer.{trim}
use kafka.Broker.Delivery.{consume_times, consume_times-take, trim-append, batches_of}
use kafka.Broker.Endpoint.{get_leader_endpoint}
use kafka.Broker.Known.{node_found, named, get_leader_endpoint-known}
use kafka.Base.Maps.{or_else}

abbrev at_offset : ℕ → Message
at_offset n = plain_message none (some (1 ∷ [])) n

abbrev batches : List (List Message)
batches = [] ∷ (at_offset 4 ∷ at_offset 5 ∷ []) ∷ [] ∷ (at_offset 6 ∷ []) ∷ []

consume_times-take_example :
    consume_times 3
      (map ok batches)
      (record { retry_limit = 2 ^ 64 - 1; offset = 3; msgbuf = at_offset 3 ∷ [] })
    ≡ take 3 ((at_offset 3 ∷ []) ++ batches_of batches)
consume_times-take_example = consume_times-take 3 batches 3 (at_offset 3 ∷ [])

trim-append_example :
    trim 5 ((at_offset 3 ∷ at_offset 4 ∷ []) ++ (at_offset 5 ∷ at_offset 6 ∷ []))
    ≡ at_offset 5 ∷ at_offset 6 ∷ []
trim-append_example =
    trim-append 5 (at_offset 3 ∷ at_offset 4 ∷ []) (at_offset 5) (at_offset 6 ∷ [])
      (refl, (refl, tt)) refl

abbrev nothing : Cluster
nothing = record { nodes = []; endpoints = []; partitions = [] }

abbrev nobody : MetadataResp
nobody = record {
  correlation_id = 7;
  brokers = record { node_id = 3; host = 97 ∷ []; port = 9092 } ∷ [];
  topics = [];
}

abbrev wanted : TopicPartition
wanted = record { topic = 98 ∷ []; partition = 0 }

get_leader_endpoint-known_example :
    node_found (get_leader_endpoint true wanted (ok nobody) (ok nobody) nothing).0
    ≡ or_else (get_endpoint wanted nothing) (named wanted (ok nobody))
get_leader_endpoint-known_example =
    get_leader_endpoint-known true wanted (ok nobody) (ok nobody) nothing
