-- ===== src/Messages/FetchReq/Layout.antt =====
-- FetchReq on the wire, and the round trip.
use kafka.Base.{ℕ, ◌^◌, ◌<◌, ◌≡◌, List, ◌++◌, length, All, arith}
use kafka.Base.Program.{done}
use kafka.Wire.BigEndian.{put_uint16, put_uint32, put_uint64}
use kafka.Wire.Errors.{Error}
use kafka.Wire.Decoder.{ok}
use kafka.Wire.Reads.{
  Reads, read_then, read_last, int32_read, int64_read, int32_read_any, int16s_read, string_read,
  array_read_same, put_string, put_array,
}
use kafka.Wire.Writes.{
  Writes, write_then, write_pair, encode-int16, encode-int32, encode-int64, encode-string,
  array_len_written, for_each_written,
}
use kafka.Messages.Frame.{fetch_req_kind, minus_one32, frame, carried}
use kafka.Messages.Duration.{to_milliseconds, duration_read, FitsDuration}
use kafka.Messages.FetchReq.{
  FetchReqPartition, FetchReqTopic, FetchReq, decode_partition, encode_partition, decode_topic,
  encode_topic, decode, fields, read, bytes,
}

abbrev pub wire_partition : FetchReqPartition → List ℕ
wire_partition part =
    put_uint32 part.id ++ (put_uint64 part.fetch_offset ++ put_uint32 part.max_bytes)

pub record FitsPartition (part : FetchReqPartition) : Type 0 where
  pub id : part.id < 2 ^ 32
  pub fetch_offset : part.fetch_offset < 2 ^ 64
  pub max_bytes : part.max_bytes < 2 ^ 32

partition_written :
    (part : FetchReqPartition)
    → FitsPartition part
    → Writes (encode_partition part) (wire_partition part)
unfolding encode_partition
partition_written part h =
    write_then (encode-int32 part.id)
      (write_then (encode-int64 part.fetch_offset) (encode-int32 part.max_bytes))

partition_read :
    (part : FetchReqPartition)
    → FitsPartition part
    → Reads decode_partition (wire_partition part) part
unfolding decode_partition
partition_read part h = read_then _ (int32_read part.id h.id) (
    read_then _ (int64_read part.fetch_offset h.fetch_offset)
      (read_last _ (int32_read part.max_bytes h.max_bytes)))

abbrev pub wire_topic : FetchReqTopic → List ℕ
wire_topic topic = put_string topic.name ++ put_array wire_partition topic.partitions

pub record FitsTopic (topic : FetchReqTopic) : Type 0 where
  pub name : length topic.name < 2 ^ 15
  pub partitions_count : length topic.partitions < 2 ^ 31
  pub partitions : All FitsPartition topic.partitions

topic_written :
    (topic : FetchReqTopic) → FitsTopic topic → Writes (encode_topic topic) (wire_topic topic)
unfolding encode_topic
topic_written topic h = write_then (encode-string topic.name) (
    write_then (array_len_written (length topic.partitions) h.partitions_count) (
      for_each_written encode_partition wire_partition FitsPartition partition_written
        topic.partitions h.partitions))

topic_read : (topic : FetchReqTopic) → FitsTopic topic → Reads decode_topic (wire_topic topic) topic
unfolding decode_topic
topic_read topic h = read_then _ (string_read topic.name h.name) (
    read_last _ (
      array_read_same decode_partition wire_partition FitsPartition partition_read topic.partitions
        h.partitions_count h.partitions))

-- The layout of the message behind its size.
abbrev pub wire : FetchReq → List ℕ
wire r =
    (put_uint16 fetch_req_kind ++ put_uint16 0)
    ++ (put_uint32 r.correlation_id
        ++ (put_string r.client_id
            ++ (put_uint32 minus_one32
                ++ (put_uint32 (to_milliseconds r.max_wait_time)
                    ++ (put_uint32 r.min_bytes ++ put_array wire_topic r.topics)))))

pub record Fits (r : FetchReq) : Type 0 where
  pub correlation_id : r.correlation_id < 2 ^ 32
  pub client_id : length r.client_id < 2 ^ 15
  pub max_wait_time : FitsDuration r.max_wait_time
  pub min_bytes : r.min_bytes < 2 ^ 32
  pub topics_count : length r.topics < 2 ^ 31
  pub topics : All FitsTopic r.topics

fields-Writes : (r : FetchReq) → Fits r → Writes (fields r) (put_uint32 0 ++ wire r)
unfolding fields
fields-Writes r h = write_then (encode-int32 0) (
    write_pair (encode-int16 fetch_req_kind) (encode-int16 0) (
      write_then (encode-int32 r.correlation_id) (
        write_then (encode-string r.client_id) (
          write_then (encode-int32 minus_one32) (
            write_then (encode-int32 (to_milliseconds r.max_wait_time)) (
              write_then (encode-int32 r.min_bytes) (
                write_then (array_len_written (length r.topics) h.topics_count) (
                  for_each_written encode_topic wire_topic FitsTopic topic_written r.topics
                    h.topics))))))))

decode-Reads : (n : ℕ) (r : FetchReq) → Fits r → Reads decode (put_uint32 n ++ wire r) r
unfolding decode
decode-Reads n r h = read_then _ (int32_read_any n) (
    read_then _ (int16s_read fetch_req_kind 0) (
      read_then _ (int32_read r.correlation_id h.correlation_id) (
        read_then _ (string_read r.client_id h.client_id) (
          read_then _ (int32_read minus_one32 (omega arith)) (
            read_then _ (duration_read r.max_wait_time h.max_wait_time) (
              read_then _ (int32_read r.min_bytes h.min_bytes) (
                read_last _ (
                  array_read_same decode_topic wire_topic FitsTopic topic_read r.topics
                    h.topics_count h.topics))))))))

-- A FetchReq whose numbers, lengths and errors fit their fields: Bytes writes its layout behind its size,
-- and ReadFetchReq gives the same message back from any reader that begins with those bytes.
pub read-bytes_fetch_req :
    (r : FetchReq) (rest : List ℕ) (ending : Error)
    → Fits r
    → (bytes r ≡ done (ok (frame (wire r))))
      × (read (record { bytes = frame (wire r) ++ rest; ending = ending }) ≡ done (ok r))
unfolding bytes read
read-bytes_fetch_req r rest ending h =
    carried (wire r) (fields-Writes r h) (decode-Reads (length (wire r)) r h) rest ending
