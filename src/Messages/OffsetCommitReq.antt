-- ===== src/Messages/OffsetCommitReq.antt =====
-- OffsetCommitReq of proto/messages.go: the request, its reader and its writer.
pub mod Layout
use kafka.Base.{ℕ, ◌*◌, ◌%◌, ◌^◌, List, [], length, ◌==◌, if◌then◌else◌}
use kafka.Base.Program.{Exec, ◌>>=◌, ◌>>◌, pure, for_each}
use kafka.Wire.Source.{Source}
use kafka.Wire.Decoder.{
  Decoding, Result, decode_int16, decode_int32, decode_int64, decode_string, decode_array,
  read_with,
}
use kafka.Wire.Encoder.{
  Enc, Buffer, buffer_writer, Writer, Written, encode, int16, int32, int64, string,
  encode_array_len,
}
use kafka.Messages.Frame.{offset_commit_req_kind, minus_one32, minus_one64, bytes_of, write_to}

pub record OffsetCommitReqPartition : Type 0 where
  pub id : ℕ
  pub offset : ℕ
  pub time_stamp : ℕ
  pub metadata : List ℕ

pub record OffsetCommitReqTopic : Type 0 where
  pub name : List ℕ
  pub partitions : List OffsetCommitReqPartition

pub record OffsetCommitReq : Type 0 where
  pub correlation_id : ℕ
  pub client_id : List ℕ
  pub consumer_group : List ℕ
  pub topics : List OffsetCommitReqTopic

-- `time.Unix(0, v*int64(time.Millisecond))`: a time is its int64 of nanoseconds, which wraps.
pub time_of : ℕ → ℕ
time_of v = v * 10 ^ 6 % 2 ^ 64

decode_partition : Decoding OffsetCommitReqPartition
unfolding time_of
decode_partition = do
  id ← decode_int32
  offset ← decode_int64
  stamp ← decode_int64
  metadata ← decode_string
  pure (record { id = id; offset = offset; time_stamp = time_of stamp; metadata = metadata })

decode_topic : Decoding OffsetCommitReqTopic
unfolding decode_partition
decode_topic = do
  name ← decode_string
  partitions ← decode_array decode_partition
  pure (record { name = name; partitions = partitions })

-- The generation and the consumer, which version 1 carries.
skip_member : Decoding (Unit {0})
skip_member = do _ ← decode_int32; _ ← decode_string; pure tt

decode_member : ℕ → Decoding (Unit {0})
unfolding skip_member
decode_member api_version = if api_version == 1 then skip_member else pure tt

decode : Decoding OffsetCommitReq
unfolding decode_topic decode_member
decode = do
  _ ← decode_int32
  _ ← decode_int16
  api_version ← decode_int16
  correlation_id ← decode_int32
  client_id ← decode_string
  consumer_group ← decode_string
  _ ← decode_member api_version
  topics ← decode_array decode_topic
  pure (record {
    correlation_id = correlation_id;
    client_id = client_id;
    consumer_group = consumer_group;
    topics = topics;
  })

-- The time stamp is not written: -1 asks the server for its own time.
encode_partition : OffsetCommitReqPartition → Enc Buffer
encode_partition part = do
  encode (int32 part.id)
  encode (int64 part.offset)
  encode (int64 minus_one64)
  encode (string part.metadata)

encode_topic : OffsetCommitReqTopic → Enc Buffer
unfolding encode_partition
encode_topic topic = do
  encode (string topic.name)
  encode_array_len (length topic.partitions)
  for_each encode_partition topic.partitions

fields : OffsetCommitReq → Enc Buffer
unfolding encode_topic
fields r = do
  encode (int32 0)
  encode (int16 offset_commit_req_kind)
  encode (int16 1)
  encode (int32 r.correlation_id)
  encode (string r.client_id)
  encode (string r.consumer_group)
  encode (int32 minus_one32)
  encode (string [])
  encode_array_len (length r.topics)
  for_each encode_topic r.topics

unfoldable pub read : Source → Exec (Result OffsetCommitReq)
unfolding decode
read = read_with decode

unfoldable pub bytes : OffsetCommitReq → Exec (Result (List ℕ))
unfolding fields
bytes r = bytes_of (fields r)

unfoldable pub send : {W : Type 0} ⦃wr : Writer W⦄ → OffsetCommitReq → W → Exec (Written W)
send r w = write_to (bytes r) w
