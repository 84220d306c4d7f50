-- ===== src/Messages/OffsetReq.antt =====
-- OffsetReq of proto/messages.go: the request, its reader and its writer.
pub mod Layout
use kafka.Base.{ℕ, List, length}
use kafka.Base.Program.{Exec, ◌>>=◌, ◌>>◌, pure, for_each}
use kafka.Wire.Source.{Source}
use kafka.Wire.Decoder.{
  Decoding, Result, decode_int32, decode_int64, decode_string, decode_array, read_with,
}
use kafka.Wire.Encoder.{
  Enc, Buffer, buffer_writer, Writer, Written, encode, int16, int32, int64, string,
  encode_array_len,
}
use kafka.Messages.Frame.{offset_req_kind, bytes_of, write_to}

pub record OffsetReqPartition : Type 0 where
  pub id : ℕ
  pub time_ms : ℕ
  pub max_offsets : ℕ

pub record OffsetReqTopic : Type 0 where
  pub name : List ℕ
  pub partitions : List OffsetReqPartition

pub record OffsetReq : Type 0 where
  pub correlation_id : ℕ
  pub client_id : List ℕ
  pub replica_id : ℕ
  pub topics : List OffsetReqTopic

decode_partition : Decoding OffsetReqPartition
decode_partition = do
  id ← decode_int32
  time_ms ← decode_int64
  max_offsets ← decode_int32
  pure (record { id = id; time_ms = time_ms; max_offsets = max_offsets })

decode_topic : Decoding OffsetReqTopic
unfolding decode_partition
decode_topic = do
  name ← decode_string
  partitions ← decode_array decode_partition
  pure (record { name = name; partitions = partitions })

decode : Decoding OffsetReq
unfolding decode_topic
decode = do
  _ ← decode_int32
  _ ← decode_int32
  correlation_id ← decode_int32
  client_id ← decode_string
  replica_id ← decode_int32
  topics ← decode_array decode_topic
  pure (record {
    correlation_id = correlation_id;
    client_id = client_id;
    replica_id = replica_id;
    topics = topics;
  })

encode_partition : OffsetReqPartition → Enc Buffer
encode_partition part = do
  encode (int32 part.id)
  encode (int64 part.time_ms)
  encode (int32 part.max_offsets)

encode_topic : OffsetReqTopic → Enc Buffer
unfolding encode_partition
encode_topic topic = do
  encode (string topic.name)
  encode_array_len (length topic.partitions)
  for_each encode_partition topic.partitions

fields : OffsetReq → Enc Buffer
unfolding encode_topic
fields r = do
  encode (int32 0)
  encode (int16 offset_req_kind)
  encode (int16 0)
  encode (int32 r.correlation_id)
  encode (string r.client_id)
  encode (int32 r.replica_id)
  encode_array_len (length r.topics)
  for_each encode_topic r.topics

unfoldable pub read : Source → Exec (Result OffsetReq)
unfolding decode
read = read_with decode

unfoldable pub bytes : OffsetReq → Exec (Result (List ℕ))
unfolding fields
bytes r = bytes_of (fields r)

unfoldable pub send : {W : Type 0} ⦃wr : Writer W⦄ → OffsetReq → W → Exec (Written W)
send r w = write_to (bytes r) w
