-- ===== src/Messages/FetchResp/Layout.antt =====
-- FetchResp on the wire, and the round trip.
use kafka.Base.{ℕ, ◌^◌, ◌<◌, ◌≡◌, List, ◌++◌, length, All, arith, map, suc}
use kafka.Base.Program.{done}
use kafka.Wire.BigEndian.{put_uint32, put_uint64}
use kafka.Wire.Errors.{Error}
use kafka.Wire.Decoder.{ok}
use kafka.Wire.Reads.{
  Reads, read_then, read_last, int32_read, int64_read, int32_read_any, string_read, array_read,
  put_string, put_array,
}
use kafka.Wire.Writes.{
  Writes, write_then, encode-int32, encode-int64, encode-string, array_len_written,
  for_each_written, error_written, error_read, put_error, FitsError,
}
use kafka.Messages.Frame.{frame, carried}
use kafka.MessageSet.Message.{Message, Codecs, compression_none}
use kafka.MessageSet.ReadLaws.{received}
use kafka.MessageSet.RoundTrip.{CodecLaws, FitsSet}
use kafka.Messages.SetField.{put_set, set_written, set_read}
use kafka.Messages.FetchResp.{
  FetchRespPartition, FetchRespTopic, FetchResp, decode_partition, decode_topic, decode,
  encode_partition, encode_topic, fields, read, bytes,
}

-- A message that knows where it comes from.
abbrev pub stamped : List ℕ → ℕ → ℕ → Message → Message
stamped topic partition tip m = record m { topic = topic; partition = partition; tip_offset = tip }

-- What comes back of the partition of a topic.
abbrev pub received_partition : List ℕ → FetchRespPartition → FetchRespPartition
received_partition topic part = record part {
  messages = map (stamped topic part.id part.tip_offset) (map received part.messages);
}

abbrev pub received_topic : FetchRespTopic → FetchRespTopic
received_topic topic = record topic {
  partitions = map (received_partition topic.name) topic.partitions;
}

module _ (c : Codecs) where
  abbrev pub wire_partition : FetchRespPartition → List ℕ
  wire_partition part =
      put_uint32 part.id
      ++ (put_error part.err
          ++ (put_uint64 part.tip_offset ++ put_set c compression_none part.messages))

  abbrev pub wire_topic : FetchRespTopic → List ℕ
  wire_topic topic = put_string topic.name ++ put_array wire_partition topic.partitions

  -- The layout of the message behind its size.
  abbrev pub wire : FetchResp → List ℕ
  wire r = put_uint32 r.correlation_id ++ put_array wire_topic r.topics

  pub record FitsPartition (part : FetchRespPartition) : Type 0 where
    pub id : part.id < 2 ^ 32
    pub err : FitsError part.err
    pub tip_offset : part.tip_offset < 2 ^ 64
    pub messages : FitsSet c compression_none part.messages

  pub record FitsTopic (topic : FetchRespTopic) : Type 0 where
    pub name : length topic.name < 2 ^ 15
    pub partitions_count : length topic.partitions < 2 ^ 31
    pub partitions : All FitsPartition topic.partitions

  pub record Fits (r : FetchResp) : Type 0 where
    pub correlation_id : r.correlation_id < 2 ^ 32
    pub topics_count : length r.topics < 2 ^ 31
    pub topics : All FitsTopic r.topics

  partition_written :
      (part : FetchRespPartition)
      → FitsPartition part
      → Writes (encode_partition c part) (wire_partition part)
  unfolding encode_partition
  partition_written part h = write_then (encode-int32 part.id) (
      write_then (error_written part.err h.err)
        (write_then (encode-int64 part.tip_offset) (set_written c compression_none part.messages)))

  topic_written :
      (topic : FetchRespTopic) → FitsTopic topic → Writes (encode_topic c topic) (wire_topic topic)
  unfolding encode_topic
  topic_written topic h = write_then (encode-string topic.name) (
      write_then (array_len_written (length topic.partitions) h.partitions_count) (
        for_each_written (encode_partition c) wire_partition FitsPartition partition_written
          topic.partitions h.partitions))

  fields-Writes : (r : FetchResp) → Fits r → Writes (fields c r) (put_uint32 0 ++ wire r)
  unfolding fields
  fields-Writes r h = write_then (encode-int32 0) (
      write_then (encode-int32 r.correlation_id) (
        write_then (array_len_written (length r.topics) h.topics_count)
          (for_each_written (encode_topic c) wire_topic FitsTopic topic_written r.topics h.topics)))

module _ (c : Codecs) (depth : ℕ) (laws : CodecLaws c) where
  partition_read :
      (topic : List ℕ) (part : FetchRespPartition)
      → FitsPartition c part
      → Reads
          (decode_partition c (suc (suc depth)) topic)
          (wire_partition c part)
          (received_partition topic part)
  unfolding decode_partition
  partition_read topic part h = read_then _ (int32_read part.id h.id) (
      read_then _ (error_read part.err h.err) (
        read_then _ (int64_read part.tip_offset h.tip_offset) (
          read_last _
            (set_read c depth compression_none part.messages laws (omega arith) h.messages))))

  topic_read :
      (topic : FetchRespTopic)
      → FitsTopic c topic
      → Reads (decode_topic c (suc (suc depth))) (wire_topic c topic) (received_topic topic)
  unfolding decode_topic
  topic_read topic h = read_then _ (string_read topic.name h.name) (
      read_last _ (
        array_read (decode_partition c (suc (suc depth)) topic.name) (wire_partition c)
          (FitsPartition c) (received_partition topic.name) (partition_read topic.name)
          topic.partitions h.partitions_count h.partitions))

  decode-Reads :
      (n : ℕ) (r : FetchResp)
      → Fits c r
      → Reads
          (decode c (suc (suc depth)))
          (put_uint32 n ++ wire c r)
          (record r { topics = map received_topic r.topics })
  unfolding decode
  decode-Reads n r h = read_then _ (int32_read_any n) (
      read_then _ (int32_read r.correlation_id h.correlation_id) (
        read_last _ (
          array_read (decode_topic c (suc (suc depth))) (wire_topic c) (FitsTopic c) received_topic
            topic_read r.topics h.topics_count h.topics)))

-- A FetchResp whose numbers, lengths, errors and message sets fit their fields: Bytes writes its layout
-- behind its size, and ReadFetchResp, on any reader that begins with those bytes, gives the message
-- back, with the checksum, the topic, the partition and the tip offset set in each of its messages.
pub read-bytes_fetch_resp :
    (c : Codecs) (depth : ℕ) (r : FetchResp) (rest : List ℕ) (ending : Error)
    → CodecLaws c
    → Fits c r
    → (bytes c r ≡ done (ok (frame (wire c r))))
      × (read c (suc (suc depth)) (record { bytes = frame (wire c r) ++ rest; ending = ending })
          ≡ done (ok (record r { topics = map received_topic r.topics })))
unfolding bytes read
read-bytes_fetch_resp c depth r rest ending laws h =
    carried (wire c r) (fields-Writes c r h) (decode-Reads c depth laws (length (wire c r)) r h)
      rest ending
