-- ===== src/Messages/FetchResp.antt =====
-- FetchResp of proto/messages.go: its reader and its writer.
pub mod Layout
use kafka.Base.{ℕ, List, Option, length, map}
use kafka.Base.Program.{Exec, ◌>>=◌, ◌>>◌, pure, for_each}
use kafka.Wire.Source.{Source}
use kafka.Wire.Errors.{Error}
use kafka.Wire.Decoder.{
  Decoding, Result, decode_int32, decode_int64, decode_string, decode_error, decode_array,
  read_with,
}
use kafka.Wire.Encoder.{
  Enc, Buffer, buffer_writer, encode, int32, int64, string, encode_error, encode_array_len,
}
use kafka.Messages.Frame.{bytes_of}
use kafka.MessageSet.Message.{Message, Codecs, compression_none}
use kafka.Messages.SetField.{decode_set, encode_set}

pub record FetchRespPartition : Type 0 where
  pub id : ℕ
  pub err : Option Error
  pub tip_offset : ℕ
  pub messages : List Message

pub record FetchRespTopic : Type 0 where
  pub name : List ℕ
  pub partitions : List FetchRespPartition

pub record FetchResp : Type 0 where
  pub correlation_id : ℕ
  pub topics : List FetchRespTopic

-- `msg.Topic`, `msg.Partition` and `msg.TipOffset` are set once the messages are read.
pub placed : List ℕ → ℕ → ℕ → Message → Message
placed topic partition tip m = record m { topic = topic; partition = partition; tip_offset = tip }

decode_partition : Codecs → ℕ → List ℕ → Decoding FetchRespPartition
unfolding placed
decode_partition c depth topic = do
  id ← decode_int32
  err ← decode_error
  tip_offset ← decode_int64
  messages ← decode_set c depth
  pure (record {
    id = id;
    err = err;
    tip_offset = tip_offset;
    messages = map (placed topic id tip_offset) messages;
  })

decode_topic : Codecs → ℕ → Decoding FetchRespTopic
unfolding decode_partition
decode_topic c depth = do
  name ← decode_string
  partitions ← decode_array (decode_partition c depth name)
  pure (record { name = name; partitions = partitions })

unfoldable pub decode : Codecs → ℕ → Decoding FetchResp
unfolding decode_topic
decode c depth = do
  _ ← decode_int32
  correlation_id ← decode_int32
  topics ← decode_array (decode_topic c depth)
  pure (record { correlation_id = correlation_id; topics = topics })

-- Bytes writes its message sets uncompressed.
encode_partition : Codecs → FetchRespPartition → Enc Buffer
encode_partition c part = do
  encode (int32 part.id)
  encode_error part.err
  encode (int64 part.tip_offset)
  encode_set c compression_none part.messages

encode_topic : Codecs → FetchRespTopic → Enc Buffer
unfolding encode_partition
encode_topic c topic = do
  encode (string topic.name)
  encode_array_len (length topic.partitions)
  for_each (encode_partition c) topic.partitions

fields : Codecs → FetchResp → Enc Buffer
unfolding encode_topic
fields c r = do
  encode (int32 0)
  encode (int32 r.correlation_id)
  encode_array_len (length r.topics)
  for_each (encode_topic c) r.topics

-- `depth` bounds how deep compressed sets may lie inside one another.
unfoldable pub read : Codecs → ℕ → Source → Exec (Result FetchResp)
unfolding decode
read c depth = read_with (decode c depth)

unfoldable pub bytes : Codecs → FetchResp → Exec (Result (List ℕ))
unfolding fields
bytes c r = bytes_of (fields c r)
