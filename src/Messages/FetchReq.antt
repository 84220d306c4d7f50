-- ===== src/Messages/FetchReq.antt =====
-- FetchReq of proto/messages.go: the request, its reader and its writer.
pub mod Layout
use kafka.Base.{ℕ, List, length}
use kafka.Base.Program.{Exec, ◌>>=◌, ◌>>◌, pure, for_each}
use kafka.Wire.Source.{Source}
use kafka.Wire.Decoder.{
  Decoding, Result, decode_int32, decode_int64, decode_string, decode_array, read_with,
}
use kafka.Wire.Encoder.{
  Enc, Buffer, buffer_writer, Writer, Written, encode, int16, int32, int64, string,
  encode_array_len,
}
use kafka.Messages.Frame.{fetch_req_kind, minus_one32, bytes_of, write_to}
use kafka.Messages.Duration.{to_milliseconds, decode_duration}

pub record FetchReqPartition : Type 0 where
  pub id : ℕ
  pub fetch_offset : ℕ
  pub max_bytes : ℕ

pub record FetchReqTopic : Type 0 where
  pub name : List ℕ
  pub partitions : List FetchReqPartition

pub record FetchReq : Type 0 where
  pub correlation_id : ℕ
  pub client_id : List ℕ
  pub max_wait_time : ℕ
  pub min_bytes : ℕ
  pub topics : List FetchReqTopic

decode_partition : Decoding FetchReqPartition
decode_partition = do
  id ← decode_int32
  fetch_offset ← decode_int64
  max_bytes ← decode_int32
  pure (record { id = id; fetch_offset = fetch_offset; max_bytes = max_bytes })

decode_topic : Decoding FetchReqTopic
unfolding decode_partition
decode_topic = do
  name ← decode_string
  partitions ← decode_array decode_partition
  pure (record { name = name; partitions = partitions })

decode : Decoding FetchReq
unfolding decode_topic
decode = do
  _ ← decode_int32
  _ ← decode_int32
  correlation_id ← decode_int32
  client_id ← decode_string
  _ ← decode_int32
  max_wait_time ← decode_duration
  min_bytes ← decode_int32
  topics ← decode_array decode_topic
  pure (record {
    correlation_id = correlation_id;
    client_id = client_id;
    max_wait_time = max_wait_time;
    min_bytes = min_bytes;
    topics = topics;
  })

encode_partition : FetchReqPartition → Enc Buffer
encode_partition part = do
  encode (int32 part.id)
  encode (int64 part.fetch_offset)
  encode (int32 part.max_bytes)

encode_topic : FetchReqTopic → Enc Buffer
unfolding encode_partition
encode_topic topic = do
  encode (string topic.name)
  encode_array_len (length topic.partitions)
  for_each encode_partition topic.partitions

fields : FetchReq → Enc Buffer
unfolding encode_topic
fields r = do
  encode (int32 0)
  encode (int16 fetch_req_kind)
  encode (int16 0)
  encode (int32 r.correlation_id)
  encode (string r.client_id)
  encode (int32 minus_one32)
  encode (int32 (to_milliseconds r.max_wait_time))
  encode (int32 r.min_bytes)
  encode_array_len (length r.topics)
  for_each encode_topic r.topics

unfoldable pub read : Source → Exec (Result FetchReq)
unfolding decode
read = read_with decode

unfoldable pub bytes : FetchReq → Exec (Result (List ℕ))
unfolding fields
bytes r = bytes_of (fields r)

unfoldable pub send : {W : Type 0} ⦃wr : Writer W⦄ → FetchReq → W → Exec (Written W)
send r w = write_to (bytes r) w
