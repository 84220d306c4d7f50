-- ===== src/Messages/OffsetFetchReq.antt =====
-- OffsetFetchReq of proto/messages.go: the request, its reader and its writer.
pub mod Layout
use kafka.Base.{ℕ, List, length}
use kafka.Base.Program.{Exec, ◌>>=◌, ◌>>◌, pure, for_each}
use kafka.Wire.Source.{Source}
use kafka.Wire.Decoder.{Decoding, Result, decode_int32, decode_string, decode_array, read_with}
use kafka.Wire.Encoder.{
  Enc, Buffer, buffer_writer, Writer, Written, encode, int16, int32, string, encode_array_len,
}
use kafka.Messages.Frame.{offset_fetch_req_kind, bytes_of, write_to}

pub record OffsetFetchReqTopic : Type 0 where
  pub name : List ℕ
  pub partitions : List ℕ

pub record OffsetFetchReq : Type 0 where
  pub correlation_id : ℕ
  pub client_id : List ℕ
  pub consumer_group : List ℕ
  pub topics : List OffsetFetchReqTopic

decode_topic : Decoding OffsetFetchReqTopic
decode_topic = do
  name ← decode_string
  partitions ← decode_array decode_int32
  pure (record { name = name; partitions = partitions })

decode : Decoding OffsetFetchReq
unfolding decode_topic
decode = do
  _ ← decode_int32
  _ ← decode_int32
  correlation_id ← decode_int32
  client_id ← decode_string
  consumer_group ← decode_string
  topics ← decode_array decode_topic
  pure (record {
    correlation_id = correlation_id;
    client_id = client_id;
    consumer_group = consumer_group;
    topics = topics;
  })

encode_topic : OffsetFetchReqTopic → Enc Buffer
encode_topic topic = do
  encode (string topic.name)
  encode_array_len (length topic.partitions)
  for_each (λ p. encode (int32 p)) topic.partitions

fields : OffsetFetchReq → Enc Buffer
unfolding encode_topic
fields r = do
  encode (int32 0)
  encode (int16 offset_fetch_req_kind)
  encode (int16 1)
  encode (int32 r.correlation_id)
  encode (string r.client_id)
  encode (string r.consumer_group)
  encode_array_len (length r.topics)
  for_each encode_topic r.topics

unfoldable pub read : Source → Exec (Result OffsetFetchReq)
unfolding decode
read = read_with decode

unfoldable pub bytes : OffsetFetchReq → Exec (Result (List ℕ))
unfolding fields
bytes r = bytes_of (fields r)

unfoldable pub send : {W : Type 0} ⦃wr : Writer W⦄ → OffsetFetchReq → W → Exec (Written W)
send r w = write_to (bytes r) w
