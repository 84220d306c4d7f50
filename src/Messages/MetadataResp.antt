-- ===== src/Messages/MetadataResp.antt =====
-- MetadataResp of proto/messages.go: the response, its reader and its writer.
pub mod Layout
use kafka.Base.{ℕ, List, Option, length}
use kafka.Base.Program.{Exec, ◌>>=◌, ◌>>◌, pure, for_each}
use kafka.Wire.Source.{Source}
use kafka.Wire.Errors.{Error}
use kafka.Wire.Decoder.{
  Decoding, Result, decode_int32, decode_string, decode_error, decode_array, read_with,
}
use kafka.Wire.Encoder.{
  Enc, Buffer, buffer_writer, encode, int32, int32s, string, encode_error, encode_array_len,
}
use kafka.Messages.Frame.{bytes_of}

pub record MetadataRespBroker : Type 0 where
  pub node_id : ℕ
  pub host : List ℕ
  pub port : ℕ

pub record MetadataRespPartition : Type 0 where
  pub err : Option Error
  pub id : ℕ
  pub leader : ℕ
  pub replicas : List ℕ
  pub isrs : List ℕ

pub record MetadataRespTopic : Type 0 where
  pub err : Option Error
  pub name : List ℕ
  pub partitions : List MetadataRespPartition

pub record MetadataResp : Type 0 where
  pub correlation_id : ℕ
  pub brokers : List MetadataRespBroker
  pub topics : List MetadataRespTopic

decode_broker : Decoding MetadataRespBroker
decode_broker = do
  node_id ← decode_int32
  host ← decode_string
  port ← decode_int32
  pure (record { node_id = node_id; host = host; port = port })

decode_partition : Decoding MetadataRespPartition
decode_partition = do
  err ← decode_error
  id ← decode_int32
  leader ← decode_int32
  replicas ← decode_array decode_int32
  isrs ← decode_array decode_int32
  pure (record { err = err; id = id; leader = leader; replicas = replicas; isrs = isrs })

decode_topic : Decoding MetadataRespTopic
unfolding decode_partition
decode_topic = do
  err ← decode_error
  name ← decode_string
  partitions ← decode_array decode_partition
  pure (record { err = err; name = name; partitions = partitions })

unfoldable pub decode : Decoding MetadataResp
unfolding decode_broker decode_topic
decode = do
  _ ← decode_int32
  correlation_id ← decode_int32
  brokers ← decode_array decode_broker
  topics ← decode_array decode_topic
  pure (record { correlation_id = correlation_id; brokers = brokers; topics = topics })

encode_broker : MetadataRespBroker → Enc Buffer
encode_broker broker = do
  encode (int32 broker.node_id)
  encode (string broker.host)
  encode (int32 broker.port)

encode_partition : MetadataRespPartition → Enc Buffer
encode_partition part = do
  encode_error part.err
  encode (int32 part.id)
  encode (int32 part.leader)
  encode (int32s part.replicas)
  encode (int32s part.isrs)

encode_topic : MetadataRespTopic → Enc Buffer
unfolding encode_partition
encode_topic topic = do
  encode_error topic.err
  encode (string topic.name)
  encode_array_len (length topic.partitions)
  for_each encode_partition topic.partitions

fields : MetadataResp → Enc Buffer
unfolding encode_broker encode_topic
fields r = do
  encode (int32 0)
  encode (int32 r.correlation_id)
  encode_array_len (length r.brokers)
  for_each encode_broker r.brokers
  encode_array_len (length r.topics)
  for_each encode_topic r.topics

unfoldable pub read : Source → Exec (Result MetadataResp)
unfolding decode
read = read_with decode

unfoldable pub bytes : MetadataResp → Exec (Result (List ℕ))
unfolding fields
bytes r = bytes_of (fields r)
