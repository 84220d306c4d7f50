-- ===== src/Server/Handlers.antt =====
-- handleProduceRequest, handleFetchRequest and handleMetadataRequest of kafkatest/server.go.
use kafka.Base.{
  ℕ, zero, suc, ◌+◌, ◌-◌, ◌%◌, ◌^◌, List, [], ◌∷◌, ◌++◌, Option, none, some, length, drop,
  if◌then◌else◌,
}
use kafka.Base.Maps.{ℕ_eq, string_eq, Map, lookup, assign}
use kafka.Base.Program.{Exec, done, panic, then_exec}
use kafka.Wire.BigEndian.{is_negative64}
use kafka.Wire.Errors.{Error, kafka_error, err_unknown_topic_or_partition, err_offset_out_of_range}
use kafka.MessageSet.Message.{Message}
use kafka.Messages.ProduceReq.{ProduceReq, ProduceReqTopic, ProduceReqPartition}
use kafka.Messages.ProduceResp.{ProduceResp, ProduceRespTopic, ProduceRespPartition}
use kafka.Messages.FetchReq.{FetchReq, FetchReqTopic, FetchReqPartition}
use kafka.Messages.FetchResp.{FetchResp, FetchRespTopic, FetchRespPartition}
use kafka.Messages.MetadataReq.{MetadataReq}
use kafka.Messages.MetadataResp.{MetadataResp, MetadataRespTopic, MetadataRespPartition}
use kafka.Cluster.Refresh.{int64_gt}
use kafka.Server.Store.{Server, Partitions, or_empty, or_no_messages}

-- The loop over the messages of a partition: each is stored at the end.
unfoldable pub append_all : List ℕ → List Message → List Message → List Message
append_all topic stored [] = stored
append_all topic stored (msg ∷ msgs) =
    append_all topic
      (stored ++ (record msg { offset = length stored % 2 ^ 64; topic = topic } ∷ [])) msgs

abbrev pub produced_partition : List ℕ → ProduceReqPartition → Partitions → List Message
produced_partition topic part parts =
    append_all topic (or_no_messages (lookup part.id parts)) part.messages

-- `int64(len(t[part.ID])) - 1`
abbrev pub produced_response : ℕ → List Message → ProduceRespPartition
produced_response id stored = record {
  id = id;
  err = none;
  offset = (length stored + (2 ^ 64 - 1)) % 2 ^ 64;
}

unfoldable pub produce_partitions :
    List ℕ → List ProduceReqPartition → Partitions → List ProduceRespPartition × Partitions
unfolding append_all assign
produce_partitions topic [] parts = ([], parts)
produce_partitions topic (part ∷ rest) parts =
    let stored = produced_partition topic part parts in
    let (resps, after) = produce_partitions topic rest (assign part.id stored parts) in
    (produced_response part.id stored ∷ resps, after)

unfoldable pub produce_topics : List ProduceReqTopic → Server → List ProduceRespTopic × Server
unfolding produce_partitions assign
produce_topics [] s = ([], s)
produce_topics (topic ∷ topics) s =
    let (resps, parts) =
      produce_partitions topic.name topic.partitions (or_empty (lookup topic.name s.topics)) in
    let (rest, after) =
      produce_topics topics (record s { topics = assign topic.name parts s.topics }) in
    (record { name = topic.name; partitions = resps } ∷ rest, after)

unfoldable pub handle_produce_request : ProduceReq → Server → ProduceResp × Server
unfolding produce_topics
handle_produce_request req s =
    let (topics, after) = produce_topics req.topics s in
    (record { correlation_id = req.correlation_id; topics = topics }, after)

abbrev refused_partition : ℕ → Error → FetchRespPartition
refused_partition id e = record { id = id; err = some e; tip_offset = 0; messages = [] }

-- A slice from a negative index panics.
abbrev pub fetch_stored : FetchReqPartition → Option (List Message) → Exec FetchRespPartition
fetch_stored part none =
    done (refused_partition part.id (kafka_error err_unknown_topic_or_partition))
fetch_stored part (some msgs) =
    if int64_gt part.fetch_offset (length msgs)
    then done (refused_partition part.id (kafka_error err_offset_out_of_range))
    else (if is_negative64 part.fetch_offset
        then panic
        else done (record {
          id = part.id;
          err = none;
          tip_offset = length msgs;
          messages = drop part.fetch_offset msgs;
        }))

abbrev pub stored_in : ℕ → Option Partitions → Option (List Message)
stored_in id none = none
stored_in id (some parts) = lookup id parts

unfoldable pub fetch_partitions :
    List ℕ → List FetchReqPartition → Server → Exec (List FetchRespPartition)
fetch_partitions topic [] s = done []
fetch_partitions topic (part ∷ rest) s =
    then_exec (fetch_stored part (stored_in part.id (lookup topic s.topics)))
      λ resp. then_exec (fetch_partitions topic rest s) λ resps. done (resp ∷ resps)

unfoldable pub fetch_topics : List FetchReqTopic → Server → Exec (List FetchRespTopic)
unfolding fetch_partitions
fetch_topics [] s = done []
fetch_topics (topic ∷ topics) s =
    then_exec (fetch_partitions topic.name topic.partitions s) λ parts.
      then_exec (fetch_topics topics s)
        λ rest. done (record { name = topic.name; partitions = parts } ∷ rest)

unfoldable pub handle_fetch_request : FetchReq → Server → Exec FetchResp
unfolding fetch_topics
handle_fetch_request req s =
    then_exec (fetch_topics req.topics s)
      λ topics. done (record { correlation_id = req.correlation_id; topics = topics })

-- The entry of `make([]proto.MetadataRespPartition, len(partitions))` at an index, before it is filled.
abbrev blank : MetadataRespPartition
blank = record { err = none; id = 0; leader = 0; replicas = []; isrs = [] }

abbrev pub blanks : ℕ → List MetadataRespPartition
blanks zero = []
blanks (suc n) = blank ∷ blanks n

-- `parts[pid]`: a number that is not below their count panics.
unfoldable pub fill :
    ℕ → MetadataRespPartition → List MetadataRespPartition → Exec (List MetadataRespPartition)
fill i p [] = panic
fill zero p (q ∷ qs) = done (p ∷ qs)
fill (suc i) p (q ∷ qs) = then_exec (fill i p qs) λ rest. done (q ∷ rest)

unfoldable pub fill_all :
    ℕ → Partitions → List MetadataRespPartition → Exec (List MetadataRespPartition)
unfolding fill
fill_all node_id [] parts = done parts
fill_all node_id (e ∷ entries) parts =
    then_exec
      (fill e.0
        (record {
          err = none;
          id = e.0;
          leader = node_id;
          replicas = node_id ∷ [];
          isrs = node_id ∷ [];
        })
        parts)
      λ after. fill_all node_id entries after

unfoldable pub describe : ℕ → List ℕ → Partitions → Exec MetadataRespTopic
unfolding fill_all
describe node_id name parts =
    then_exec (fill_all node_id parts (blanks (length parts)))
      λ filled. done (record { err = none; name = name; partitions = filled })

-- The partitions of a topic that was asked for: a new topic has the partition 0.
abbrev pub or_first : Option Partitions → Partitions
or_first none = (0, []) ∷ []
or_first (some parts) = parts

unfoldable pub describe_named : ℕ → List (List ℕ) → Server → Exec (List MetadataRespTopic × Server)
unfolding describe assign
describe_named node_id [] s = done ([], s)
describe_named node_id (name ∷ names) s =
    let parts = or_first (lookup name s.topics) in
    then_exec (describe node_id name parts) λ topic.
      then_exec (describe_named node_id names (record s { topics = assign name parts s.topics }))
        λ (rest, after). done (topic ∷ rest, after)

unfoldable pub describe_all : ℕ → Map (List ℕ) Partitions → Exec (List MetadataRespTopic)
unfolding describe
describe_all node_id [] = done []
describe_all node_id (e ∷ topics) =
    then_exec (describe node_id e.0 e.1)
      λ topic. then_exec (describe_all node_id topics) λ rest. done (topic ∷ rest)

abbrev pub described :
    ℕ → MetadataReq → Server → List (List ℕ) → Exec (List MetadataRespTopic × Server)
described node_id req s [] = then_exec (describe_all node_id s.topics) λ topics. done (topics, s)
described node_id req s (name ∷ names) = describe_named node_id (name ∷ names) s

unfoldable pub handle_metadata_request : ℕ → MetadataReq → Server → Exec (MetadataResp × Server)
unfolding describe_named describe_all
handle_metadata_request node_id req s =
    then_exec (described node_id req s req.topics) λ (topics, after).
      done (
        record { correlation_id = req.correlation_id; brokers = s.brokers; topics = topics },
        after,
      )
