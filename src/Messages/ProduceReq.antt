-- ===== src/Messages/ProduceReq.antt =====
-- ProduceReq of proto/messages.go: its reader and its writer.
pub mod Layout
use kafka.Base.{ℕ, List, length}
use kafka.Base.Program.{Exec, ◌>>=◌, ◌>>◌, pure, for_each}
use kafka.Wire.Source.{Source}
use kafka.Wire.Decoder.{
  Decoding, Result, decode_int16, decode_int32, decode_string, decode_array, read_with,
}
use kafka.Wire.Encoder.{
  Enc, Buffer, buffer_writer, Writer, Written, encode_array_len, encode_int16, encode_int32,
  encode_string,
}
use kafka.Messages.Frame.{produce_req_kind, bytes_of, write_to}
use kafka.Messages.Duration.{to_milliseconds, decode_duration}
use kafka.MessageSet.Message.{Message, Codecs, compression_none}
use kafka.Messages.SetField.{decode_set, encode_set}

pub record ProduceReqPartition : Type 0 where
  pub id : ℕ
  pub messages : List Message

pub record ProduceReqTopic : Type 0 where
  pub name : List ℕ
  pub partitions : List ProduceReqPartition

pub record ProduceReq : Type 0 where
  pub correlation_id : ℕ
  pub client_id : List ℕ
  pub compression : ℕ
  pub required_acks : ℕ
  pub timeout : ℕ
  pub topics : List ProduceReqTopic

decode_partition : Codecs → ℕ → Decoding ProduceReqPartition
decode_partition c depth = do
  id ← decode_int32
  messages ← decode_set c depth
  pure (record { id = id; messages = messages })

decode_topic : Codecs → ℕ → Decoding ProduceReqTopic
unfolding decode_partition
decode_topic c depth = do
  name ← decode_string
  partitions ← decode_array (decode_partition c depth)
  pure (record { name = name; partitions = partitions })

-- The compression stays at its zero value: it is used only when a request is sent.
decode : Codecs → ℕ → Decoding ProduceReq
unfolding decode_topic
decode c depth = do
  _ ← decode_int32
  _ ← decode_int32
  correlation_id ← decode_int32
  client_id ← decode_string
  required_acks ← decode_int16
  timeout ← decode_duration
  topics ← decode_array (decode_topic c depth)
  pure (record {
    correlation_id = correlation_id;
    client_id = client_id;
    compression = compression_none;
    required_acks = required_acks;
    timeout = timeout;
    topics = topics;
  })

encode_partition : Codecs → ℕ → ProduceReqPartition → Enc Buffer
encode_partition c compression p = do encode_int32 p.id; encode_set c compression p.messages

encode_topic : Codecs → ℕ → ProduceReqTopic → Enc Buffer
unfolding encode_partition
encode_topic c compression t = do
  encode_string t.name
  encode_array_len (length t.partitions)
  for_each (encode_partition c compression) t.partitions

fields : Codecs → ProduceReq → Enc Buffer
unfolding encode_topic
fields c r = do
  encode_int32 0
  encode_int16 produce_req_kind
  encode_int16 0
  encode_int32 r.correlation_id
  encode_string r.client_id
  encode_int16 r.required_acks
  encode_int32 (to_milliseconds r.timeout)
  encode_array_len (length r.topics)
  for_each (encode_topic c r.compression) r.topics

-- `depth` bounds how deep compressed sets may lie inside one another.
unfoldable pub read : Codecs → ℕ → Source → Exec (Result ProduceReq)
unfolding decode
read c depth = read_with (decode c depth)

unfoldable pub bytes : Codecs → ProduceReq → Exec (Result (List ℕ))
unfolding fields
bytes c r = bytes_of (fields c r)

unfoldable pub send : {W : Type 0} ⦃wr : Writer W⦄ → Codecs → ProduceReq → W → Exec (Written W)
send c r w = write_to (bytes c r) w
