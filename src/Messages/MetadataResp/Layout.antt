-- ===== src/Messages/MetadataResp/Layout.antt =====
-- MetadataResp on the wire, and the round trip.
use kafka.Base.{ℕ, ◌^◌, ◌<◌, ◌≡◌, List, ◌++◌, length, All}
use kafka.Base.Program.{done}
use kafka.Wire.BigEndian.{put_uint32}
use kafka.Wire.Errors.{Error}
use kafka.Wire.Decoder.{ok, decode_int32}
use kafka.Wire.Reads.{
  Reads, read_then, read_last, int32_read, int32_read_any, string_read, array_read_same, put_string,
  put_array,
}
use kafka.Wire.Writes.{
  Writes, write_then, write_pair, encode-int32, encode-string, encode-int32s, array_len_written,
  for_each_written, error_written, error_read, put_error, FitsError, FitsInt32,
}
use kafka.Messages.Frame.{frame, carried}
use kafka.Messages.MetadataResp.{
  MetadataRespBroker, MetadataRespPartition, MetadataRespTopic, MetadataResp, decode_broker,
  encode_broker, decode_partition, encode_partition, decode_topic, encode_topic, decode, fields,
  read, bytes,
}

abbrev pub wire_broker : MetadataRespBroker → List ℕ
wire_broker broker = put_uint32 broker.node_id ++ (put_string broker.host ++ put_uint32 broker.port)

pub record FitsBroker (broker : MetadataRespBroker) : Type 0 where
  pub node_id : broker.node_id < 2 ^ 32
  pub host : length broker.host < 2 ^ 15
  pub port : broker.port < 2 ^ 32

broker_written :
    (broker : MetadataRespBroker)
    → FitsBroker broker
    → Writes (encode_broker broker) (wire_broker broker)
unfolding encode_broker
broker_written broker h =
    write_then (encode-int32 broker.node_id)
      (write_then (encode-string broker.host) (encode-int32 broker.port))

broker_read :
    (broker : MetadataRespBroker)
    → FitsBroker broker
    → Reads decode_broker (wire_broker broker) broker
unfolding decode_broker
broker_read broker h =
    read_then _ (int32_read broker.node_id h.node_id)
      (read_then _ (string_read broker.host h.host) (read_last _ (int32_read broker.port h.port)))

abbrev pub wire_partition : MetadataRespPartition → List ℕ
wire_partition part =
    put_error part.err
    ++ (put_uint32 part.id
        ++ (put_uint32 part.leader
            ++ (put_array put_uint32 part.replicas ++ put_array put_uint32 part.isrs)))

pub record FitsPartition (part : MetadataRespPartition) : Type 0 where
  pub err : FitsError part.err
  pub id : part.id < 2 ^ 32
  pub leader : part.leader < 2 ^ 32
  pub replicas_count : length part.replicas < 2 ^ 31
  pub replicas : All FitsInt32 part.replicas
  pub isrs_count : length part.isrs < 2 ^ 31
  pub isrs : All FitsInt32 part.isrs

partition_written :
    (part : MetadataRespPartition)
    → FitsPartition part
    → Writes (encode_partition part) (wire_partition part)
unfolding encode_partition
partition_written part h = write_then (error_written part.err h.err) (
    write_then (encode-int32 part.id) (
      write_then (encode-int32 part.leader) (
        write_then (encode-int32s part.replicas h.replicas_count h.replicas)
          (encode-int32s part.isrs h.isrs_count h.isrs))))

partition_read :
    (part : MetadataRespPartition)
    → FitsPartition part
    → Reads decode_partition (wire_partition part) part
unfolding decode_partition
partition_read part h = read_then _ (error_read part.err h.err) (
    read_then _ (int32_read part.id h.id) (
      read_then _ (int32_read part.leader h.leader) (
        read_then _
          (array_read_same decode_int32 put_uint32 FitsInt32 int32_read part.replicas
            h.replicas_count h.replicas)
          (read_last _ (
            array_read_same decode_int32 put_uint32 FitsInt32 int32_read part.isrs h.isrs_count
              h.isrs)))))

abbrev pub wire_topic : MetadataRespTopic → List ℕ
wire_topic topic =
    put_error topic.err ++ (put_string topic.name ++ put_array wire_partition topic.partitions)

pub record FitsTopic (topic : MetadataRespTopic) : Type 0 where
  pub err : FitsError topic.err
  pub name : length topic.name < 2 ^ 15
  pub partitions_count : length topic.partitions < 2 ^ 31
  pub partitions : All FitsPartition topic.partitions

topic_written :
    (topic : MetadataRespTopic) → FitsTopic topic → Writes (encode_topic topic) (wire_topic topic)
unfolding encode_topic
topic_written topic h = write_then (error_written topic.err h.err) (
    write_then (encode-string topic.name) (
      write_then (array_len_written (length topic.partitions) h.partitions_count) (
        for_each_written encode_partition wire_partition FitsPartition partition_written
          topic.partitions h.partitions)))

topic_read :
    (topic : MetadataRespTopic) → FitsTopic topic → Reads decode_topic (wire_topic topic) topic
unfolding decode_topic
topic_read topic h = read_then _ (error_read topic.err h.err) (
    read_then _ (string_read topic.name h.name) (
      read_last _ (
        array_read_same decode_partition wire_partition FitsPartition partition_read
          topic.partitions h.partitions_count h.partitions)))

-- The layout of the message behind its size.
abbrev pub wire : MetadataResp → List ℕ
wire r =
    put_uint32 r.correlation_id
    ++ (put_array wire_broker r.brokers ++ put_array wire_topic r.topics)

pub record Fits (r : MetadataResp) : Type 0 where
  pub correlation_id : r.correlation_id < 2 ^ 32
  pub brokers_count : length r.brokers < 2 ^ 31
  pub brokers : All FitsBroker r.brokers
  pub topics_count : length r.topics < 2 ^ 31
  pub topics : All FitsTopic r.topics

fields-Writes : (r : MetadataResp) → Fits r → Writes (fields r) (put_uint32 0 ++ wire r)
unfolding fields
fields-Writes r h = write_then (encode-int32 0) (
    write_then (encode-int32 r.correlation_id) (
      write_pair (array_len_written (length r.brokers) h.brokers_count)
        (for_each_written encode_broker wire_broker FitsBroker broker_written r.brokers h.brokers)
        (write_then (array_len_written (length r.topics) h.topics_count)
          (for_each_written encode_topic wire_topic FitsTopic topic_written r.topics h.topics))))

decode-Reads : (n : ℕ) (r : MetadataResp) → Fits r → Reads decode (put_uint32 n ++ wire r) r
unfolding decode
decode-Reads n r h = read_then _ (int32_read_any n) (
    read_then _ (int32_read r.correlation_id h.correlation_id) (
      read_then _
        (array_read_same decode_broker wire_broker FitsBroker broker_read r.brokers h.brokers_count
          h.brokers)
        (read_last _ (
          array_read_same decode_topic wire_topic FitsTopic topic_read r.topics h.topics_count
            h.topics))))

-- A MetadataResp whose numbers, lengths and errors fit their fields: Bytes writes its layout behind its size,
-- and ReadMetadataResp gives the same message back from any reader that begins with those bytes.
pub read-bytes_metadata_resp :
    (r : MetadataResp) (rest : List ℕ) (ending : Error)
    → Fits r
    → (bytes r ≡ done (ok (frame (wire r))))
      × (read (record { bytes = frame (wire r) ++ rest; ending = ending }) ≡ done (ok r))
unfolding bytes read
read-bytes_metadata_resp r rest ending h =
    carried (wire r) (fields-Writes r h) (decode-Reads (length (wire r)) r h) rest ending
