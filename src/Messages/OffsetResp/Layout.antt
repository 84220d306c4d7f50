-- ===== src/Messages/OffsetResp/Layout.antt =====
-- OffsetResp on the wire, and the round trip.
use kafka.Base.{ℕ, ◌^◌, ◌<◌, ◌≡◌, List, ◌++◌, length, All}
use kafka.Base.Program.{done}
use kafka.Wire.BigEndian.{put_uint32, put_uint64}
use kafka.Wire.Errors.{Error}
use kafka.Wire.Decoder.{ok, decode_int64}
use kafka.Wire.Encoder.{buffer_writer, encode, int64}
use kafka.Wire.Reads.{
  Reads, read_then, read_last, int32_read, int64_read, int32_read_any, string_read, array_read_same,
  put_string, put_array,
}
use kafka.Wire.Writes.{
  Writes, write_then, encode-int32, encode-int64, encode-string, array_len_written,
  for_each_written, error_written, error_read, put_error, FitsError, FitsInt64,
}
use kafka.Messages.Frame.{frame, carried}
use kafka.Messages.OffsetResp.{
  OffsetRespPartition, OffsetRespTopic, OffsetResp, decode_partition, encode_partition,
  decode_topic, encode_topic, decode, fields, read, bytes,
}

abbrev pub wire_partition : OffsetRespPartition → List ℕ
wire_partition part =
    put_uint32 part.id ++ (put_error part.err ++ put_array put_uint64 part.offsets)

pub record FitsPartition (part : OffsetRespPartition) : Type 0 where
  pub id : part.id < 2 ^ 32
  pub err : FitsError part.err
  pub offsets_count : length part.offsets < 2 ^ 31
  pub offsets : All FitsInt64 part.offsets

partition_written :
    (part : OffsetRespPartition)
    → FitsPartition part
    → Writes (encode_partition part) (wire_partition part)
unfolding encode_partition
partition_written part h = write_then (encode-int32 part.id) (
    write_then (error_written part.err h.err) (
      write_then (array_len_written (length part.offsets) h.offsets_count) (
        for_each_written (λ off. encode (int64 off)) put_uint64 FitsInt64 (λ x _. encode-int64 x)
          part.offsets h.offsets)))

partition_read :
    (part : OffsetRespPartition)
    → FitsPartition part
    → Reads decode_partition (wire_partition part) part
unfolding decode_partition
partition_read part h = read_then _ (int32_read part.id h.id) (
    read_then _ (error_read part.err h.err) (
      read_last _ (
        array_read_same decode_int64 put_uint64 FitsInt64 int64_read part.offsets h.offsets_count
          h.offsets)))

abbrev pub wire_topic : OffsetRespTopic → List ℕ
wire_topic topic = put_string topic.name ++ put_array wire_partition topic.partitions

pub record FitsTopic (topic : OffsetRespTopic) : Type 0 where
  pub name : length topic.name < 2 ^ 15
  pub partitions_count : length topic.partitions < 2 ^ 31
  pub partitions : All FitsPartition topic.partitions

topic_written :
    (topic : OffsetRespTopic) → FitsTopic topic → Writes (encode_topic topic) (wire_topic topic)
unfolding encode_topic
topic_written topic h = write_then (encode-string topic.name) (
    write_then (array_len_written (length topic.partitions) h.partitions_count) (
      for_each_written encode_partition wire_partition FitsPartition partition_written
        topic.partitions h.partitions))

topic_read :
    (topic : OffsetRespTopic) → FitsTopic topic → Reads decode_topic (wire_topic topic) topic
unfolding decode_topic
topic_read topic h = read_then _ (string_read topic.name h.name) (
    read_last _ (
      array_read_same decode_partition wire_partition FitsPartition partition_read topic.partitions
        h.partitions_count h.partitions))

-- The layout of the message behind its size.
abbrev pub wire : OffsetResp → List ℕ
wire r = put_uint32 r.correlation_id ++ put_array wire_topic r.topics

pub record Fits (r : OffsetResp) : Type 0 where
  pub correlation_id : r.correlation_id < 2 ^ 32
  pub topics_count : length r.topics < 2 ^ 31
  pub topics : All FitsTopic r.topics

fields-Writes : (r : OffsetResp) → Fits r → Writes (fields r) (put_uint32 0 ++ wire r)
unfolding fields
fields-Writes r h = write_then (encode-int32 0) (
    write_then (encode-int32 r.correlation_id) (
      write_then (array_len_written (length r.topics) h.topics_count)
        (for_each_written encode_topic wire_topic FitsTopic topic_written r.topics h.topics)))

decode-Reads : (n : ℕ) (r : OffsetResp) → Fits r → Reads decode (put_uint32 n ++ wire r) r
unfolding decode
decode-Reads n r h = read_then _ (int32_read_any n) (
    read_then _ (int32_read r.correlation_id h.correlation_id) (
      read_last _ (
        array_read_same decode_topic wire_topic FitsTopic topic_read r.topics h.topics_count
          h.topics)))

-- A OffsetResp whose numbers, lengths and errors fit their fields: Bytes writes its layout behind its size,
-- and ReadOffsetResp gives the same message back from any reader that begins with those bytes.
pub read-bytes_offset_resp :
    (r : OffsetResp) (rest : List ℕ) (ending : Error)
    → Fits r
    → (bytes r ≡ done (ok (frame (wire r))))
      × (read (record { bytes = frame (wire r) ++ rest; ending = ending }) ≡ done (ok r))
unfolding bytes read
read-bytes_offset_resp r rest ending h =
    carried (wire r) (fields-Writes r h) (decode-Reads (length (wire r)) r h) rest ending
