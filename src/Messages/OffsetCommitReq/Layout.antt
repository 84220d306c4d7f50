-- ===== src/Messages/OffsetCommitReq/Layout.antt =====
-- OffsetCommitReq on the wire, and the round trip.
use kafka.Base.{ℕ, ◌^◌, ◌<◌, ◌≡◌, List, [], ◌++◌, length, All, arith, map}
use kafka.Base.Program.{done}
use kafka.Wire.BigEndian.{put_uint16, put_uint32, put_uint64}
use kafka.Wire.Errors.{Error}
use kafka.Wire.Decoder.{ok}
use kafka.Wire.Reads.{
  Reads, read_then, read_last, int16_read, int32_read, int64_read, int32_read_any, string_read,
  array_read, put_string, put_array,
}
use kafka.Wire.Writes.{
  Writes, write_then, write_pair, encode-int16, encode-int32, encode-int64, encode-string,
  array_len_written, for_each_written,
}
use kafka.Messages.Frame.{offset_commit_req_kind, minus_one32, minus_one64, frame, carried}
use kafka.Messages.OffsetCommitReq.{
  OffsetCommitReqPartition, OffsetCommitReqTopic, OffsetCommitReq, time_of, decode_partition,
  decode_topic, decode_member, decode, encode_partition, encode_topic, fields, read, bytes,
}

abbrev pub wire_partition : OffsetCommitReqPartition → List ℕ
wire_partition part =
    put_uint32 part.id
    ++ (put_uint64 part.offset ++ (put_uint64 minus_one64 ++ put_string part.metadata))

-- What comes back of a partition: the time that -1 stands for in place of its own.
abbrev pub restamped : OffsetCommitReqPartition → OffsetCommitReqPartition
restamped part = record part { time_stamp = time_of minus_one64 }

pub record FitsPartition (part : OffsetCommitReqPartition) : Type 0 where
  pub id : part.id < 2 ^ 32
  pub offset : part.offset < 2 ^ 64
  pub metadata : length part.metadata < 2 ^ 15

partition_written :
    (part : OffsetCommitReqPartition)
    → FitsPartition part
    → Writes (encode_partition part) (wire_partition part)
unfolding encode_partition
partition_written part h = write_then (encode-int32 part.id) (
    write_then (encode-int64 part.offset)
      (write_then (encode-int64 minus_one64) (encode-string part.metadata)))

partition_read :
    (part : OffsetCommitReqPartition)
    → FitsPartition part
    → Reads decode_partition (wire_partition part) (restamped part)
unfolding decode_partition
partition_read part h = read_then _ (int32_read part.id h.id) (
    read_then _ (int64_read part.offset h.offset) (
      read_then _ (int64_read minus_one64 (omega arith))
        (read_last _ (string_read part.metadata h.metadata))))

abbrev pub wire_topic : OffsetCommitReqTopic → List ℕ
wire_topic topic = put_string topic.name ++ put_array wire_partition topic.partitions

abbrev pub restamped_topic : OffsetCommitReqTopic → OffsetCommitReqTopic
restamped_topic topic = record topic { partitions = map restamped topic.partitions }

pub record FitsTopic (topic : OffsetCommitReqTopic) : Type 0 where
  pub name : length topic.name < 2 ^ 15
  pub partitions_count : length topic.partitions < 2 ^ 31
  pub partitions : All FitsPartition topic.partitions

topic_written :
    (topic : OffsetCommitReqTopic)
    → FitsTopic topic
    → Writes (encode_topic topic) (wire_topic topic)
unfolding encode_topic
topic_written topic h = write_then (encode-string topic.name) (
    write_then (array_len_written (length topic.partitions) h.partitions_count) (
      for_each_written encode_partition wire_partition FitsPartition partition_written
        topic.partitions h.partitions))

topic_read :
    (topic : OffsetCommitReqTopic)
    → FitsTopic topic
    → Reads decode_topic (wire_topic topic) (restamped_topic topic)
unfolding decode_topic
topic_read topic h = read_then _ (string_read topic.name h.name) (
    read_last _ (
      array_read decode_partition wire_partition FitsPartition restamped partition_read
        topic.partitions h.partitions_count h.partitions))

-- The group's generation, -1, and the consumer, the empty string.
abbrev wire_member : List ℕ
wire_member = put_uint32 minus_one32 ++ put_string []

-- The layout of the message behind its size.
abbrev pub wire : OffsetCommitReq → List ℕ
wire r =
    put_uint16 offset_commit_req_kind
    ++ (put_uint16 1
        ++ (put_uint32 r.correlation_id
            ++ (put_string r.client_id
                ++ (put_string r.consumer_group
                    ++ (wire_member ++ put_array wire_topic r.topics)))))

pub record Fits (r : OffsetCommitReq) : Type 0 where
  pub correlation_id : r.correlation_id < 2 ^ 32
  pub client_id : length r.client_id < 2 ^ 15
  pub consumer_group : length r.consumer_group < 2 ^ 15
  pub topics_count : length r.topics < 2 ^ 31
  pub topics : All FitsTopic r.topics

fields-Writes : (r : OffsetCommitReq) → Fits r → Writes (fields r) (put_uint32 0 ++ wire r)
unfolding fields
fields-Writes r h = write_then (encode-int32 0) (
    write_then (encode-int16 offset_commit_req_kind) (
      write_then (encode-int16 1) (
        write_then (encode-int32 r.correlation_id) (
          write_then (encode-string r.client_id) (
            write_then (encode-string r.consumer_group) (
              write_pair (encode-int32 minus_one32) (encode-string []) (
                write_then (array_len_written (length r.topics) h.topics_count) (
                  for_each_written encode_topic wire_topic FitsTopic topic_written r.topics
                    h.topics))))))))

member_read : Reads (decode_member 1) wire_member tt
unfolding decode_member
member_read =
    read_then _ (int32_read minus_one32 (omega arith))
      (read_last (λ _. tt) (string_read [] (omega arith)))

decode-Reads :
    (n : ℕ) (r : OffsetCommitReq)
    → Fits r
    → Reads decode (put_uint32 n ++ wire r) (record r { topics = map restamped_topic r.topics })
unfolding decode
decode-Reads n r h = read_then _ (int32_read_any n) (
    read_then _ (int16_read offset_commit_req_kind (omega arith)) (
      read_then _ (int16_read 1 (omega arith)) (
        read_then _ (int32_read r.correlation_id h.correlation_id) (
          read_then _ (string_read r.client_id h.client_id) (
            read_then _ (string_read r.consumer_group h.consumer_group) (
              read_then _ member_read (
                read_last _ (
                  array_read decode_topic wire_topic FitsTopic restamped_topic topic_read r.topics
                    h.topics_count h.topics))))))))

-- An OffsetCommitReq whose numbers and lengths fit their fields: Bytes writes its layout behind its
-- size, and ReadOffsetCommitReq gives the message back from any reader that begins with those bytes,
-- but for the time stamps: each becomes the time that -1 milliseconds stands for.
pub read-bytes_offset_commit_req :
    (r : OffsetCommitReq) (rest : List ℕ) (ending : Error)
    → Fits r
    → (bytes r ≡ done (ok (frame (wire r))))
      × (read (record { bytes = frame (wire r) ++ rest; ending = ending })
          ≡ done (ok (record r { topics = map restamped_topic r.topics })))
unfolding bytes read
read-bytes_offset_commit_req r rest ending h =
    carried (wire r) (fields-Writes r h) (decode-Reads (length (wire r)) r h) rest ending
