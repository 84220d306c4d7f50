-- ===== src/Messages/OffsetFetchReq/Layout.antt =====
-- OffsetFetchReq on the wire, and the round trip.
use kafka.Base.{ℕ, ◌^◌, ◌<◌, ◌≡◌, List, ◌++◌, length, All}
use kafka.Base.Program.{done}
use kafka.Wire.BigEndian.{put_uint16, put_uint32}
use kafka.Wire.Errors.{Error}
use kafka.Wire.Decoder.{ok, decode_int32}
use kafka.Wire.Encoder.{buffer_writer, encode, int32}
use kafka.Wire.Reads.{
  Reads, read_then, read_last, int32_read, int32_read_any, int16s_read, string_read,
  array_read_same, put_string, put_array,
}
use kafka.Wire.Writes.{
  Writes, write_then, write_pair, encode-int16, encode-int32, encode-string, array_len_written,
  for_each_written, FitsInt32,
}
use kafka.Messages.Frame.{offset_fetch_req_kind, frame, carried}
use kafka.Messages.OffsetFetchReq.{
  OffsetFetchReqTopic, OffsetFetchReq, decode_topic, encode_topic, decode, fields, read, bytes,
}

abbrev pub wire_topic : OffsetFetchReqTopic → List ℕ
wire_topic topic = put_string topic.name ++ put_array put_uint32 topic.partitions

pub record FitsTopic (topic : OffsetFetchReqTopic) : Type 0 where
  pub name : length topic.name < 2 ^ 15
  pub partitions_count : length topic.partitions < 2 ^ 31
  pub partitions : All FitsInt32 topic.partitions

topic_written :
    (topic : OffsetFetchReqTopic) → FitsTopic topic → Writes (encode_topic topic) (wire_topic topic)
unfolding encode_topic
topic_written topic h = write_then (encode-string topic.name) (
    write_then (array_len_written (length topic.partitions) h.partitions_count) (
      for_each_written (λ p. encode (int32 p)) put_uint32 FitsInt32 (λ x _. encode-int32 x)
        topic.partitions h.partitions))

topic_read :
    (topic : OffsetFetchReqTopic) → FitsTopic topic → Reads decode_topic (wire_topic topic) topic
unfolding decode_topic
topic_read topic h = read_then _ (string_read topic.name h.name) (
    read_last _ (
      array_read_same decode_int32 put_uint32 FitsInt32 int32_read topic.partitions
        h.partitions_count h.partitions))

-- The layout of the message behind its size.
abbrev pub wire : OffsetFetchReq → List ℕ
wire r =
    (put_uint16 offset_fetch_req_kind ++ put_uint16 1)
    ++ (put_uint32 r.correlation_id
        ++ (put_string r.client_id
            ++ (put_string r.consumer_group ++ put_array wire_topic r.topics)))

pub record Fits (r : OffsetFetchReq) : Type 0 where
  pub correlation_id : r.correlation_id < 2 ^ 32
  pub client_id : length r.client_id < 2 ^ 15
  pub consumer_group : length r.consumer_group < 2 ^ 15
  pub topics_count : length r.topics < 2 ^ 31
  pub topics : All FitsTopic r.topics

fields-Writes : (r : OffsetFetchReq) → Fits r → Writes (fields r) (put_uint32 0 ++ wire r)
unfolding fields
fields-Writes r h = write_then (encode-int32 0) (
    write_pair (encode-int16 offset_fetch_req_kind) (encode-int16 1) (
      write_then (encode-int32 r.correlation_id) (
        write_then (encode-string r.client_id) (
          write_then (encode-string r.consumer_group) (
            write_then (array_len_written (length r.topics) h.topics_count) (
              for_each_written encode_topic wire_topic FitsTopic topic_written r.topics
                h.topics))))))

decode-Reads : (n : ℕ) (r : OffsetFetchReq) → Fits r → Reads decode (put_uint32 n ++ wire r) r
unfolding decode
decode-Reads n r h = read_then _ (int32_read_any n) (
    read_then _ (int16s_read offset_fetch_req_kind 1) (
      read_then _ (int32_read r.correlation_id h.correlation_id) (
        read_then _ (string_read r.client_id h.client_id) (
          read_then _ (string_read r.consumer_group h.consumer_group) (
            read_last _ (
              array_read_same decode_topic wire_topic FitsTopic topic_read r.topics h.topics_count
                h.topics))))))

-- A OffsetFetchReq whose numbers, lengths and errors fit their fields: Bytes writes its layout behind its size,
-- and ReadOffsetFetchReq gives the same message back from any reader that begins with those bytes.
pub read-bytes_offset_fetch_req :
    (r : OffsetFetchReq) (rest : List ℕ) (ending : Error)
    → Fits r
    → (bytes r ≡ done (ok (frame (wire r))))
      × (read (record { bytes = frame (wire r) ++ rest; ending = ending }) ≡ done (ok r))
unfolding bytes read
read-bytes_offset_fetch_req r rest ending h =
    carried (wire r) (fields-Writes r h) (decode-Reads (length (wire r)) r h) rest ending
