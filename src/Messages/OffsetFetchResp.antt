-- ===== src/Messages/OffsetFetchResp.antt =====
-- OffsetFetchResp of proto/messages.go: the response, its reader and its writer.
pub mod Layout
use kafka.Base.{ℕ, List, Option, length}
use kafka.Base.Program.{Exec, ◌>>=◌, ◌>>◌, pure, for_each}
use kafka.Wire.Source.{Source}
use kafka.Wire.Errors.{Error}
use kafka.Wire.Decoder.{
  Decoding, Result, decode_int32, decode_int64, decode_string, decode_error, decode_array,
  read_with,
}
use kafka.Wire.Encoder.{
  Enc, Buffer, buffer_writer, encode, int32, int64, string, encode_error, encode_array_len,
}
use kafka.Messages.Frame.{bytes_of}

pub record OffsetFetchRespPartition : Type 0 where
  pub id : ℕ
  pub offset : ℕ
  pub metadata : List ℕ
  pub err : Option Error

pub record OffsetFetchRespTopic : Type 0 where
  pub name : List ℕ
  pub partitions : List OffsetFetchRespPartition

pub record OffsetFetchResp : Type 0 where
  pub correlation_id : ℕ
  pub topics : List OffsetFetchRespTopic

decode_partition : Decoding OffsetFetchRespPartition
decode_partition = do
  id ← decode_int32
  offset ← decode_int64
  metadata ← decode_string
  err ← decode_error
  pure (record { id = id; offset = offset; metadata = metadata; err = err })

decode_topic : Decoding OffsetFetchRespTopic
unfolding decode_partition
decode_topic = do
  name ← decode_string
  partitions ← decode_array decode_partition
  pure (record { name = name; partitions = partitions })

unfoldable pub decode : Decoding OffsetFetchResp
unfolding decode_topic
decode = do
  _ ← decode_int32
  correlation_id ← decode_int32
  topics ← decode_array decode_topic
  pure (record { correlation_id = correlation_id; topics = topics })

encode_partition : OffsetFetchRespPartition → Enc Buffer
encode_partition part = do
  encode (int32 part.id)
  encode (int64 part.offset)
  encode (string part.metadata)
  encode_error part.err

encode_topic : OffsetFetchRespTopic → Enc Buffer
unfolding encode_partition
encode_topic topic = do
  encode (string topic.name)
  encode_array_len (length topic.partitions)
  for_each encode_partition topic.partitions

fields : OffsetFetchResp → Enc Buffer
unfolding encode_topic
fields r = do
  encode (int32 0)
  encode (int32 r.correlation_id)
  encode_array_len (length r.topics)
  for_each encode_topic r.topics

unfoldable pub read : Source → Exec (Result OffsetFetchResp)
unfolding decode
read = read_with decode

unfoldable pub bytes : OffsetFetchResp → Exec (Result (List ℕ))
unfolding fields
bytes r = bytes_of (fields r)
