-- ===== src/Messages/ProduceReq/Layout.antt =====
-- ProduceReq on the wire, and the round trip.
use kafka.Base.{ℕ, ◌^◌, ◌<◌, ◌≡◌, List, ◌++◌, length, All, map, suc}
use kafka.Base.Program.{done}
use kafka.Wire.BigEndian.{put_uint16, put_uint32}
use kafka.Wire.Errors.{Error}
use kafka.Wire.Decoder.{ok}
use kafka.Wire.Reads.{
  Reads, read_then, read_last, int16_read, int32_read, int32_read_any, int16s_read, string_read,
  array_read, put_string, put_array,
}
use kafka.Wire.Writes.{
  Writes, write_then, write_pair, array_len_written, for_each_written, int16_written, int32_written,
  string_written,
}
use kafka.Messages.Frame.{produce_req_kind, frame, carried}
use kafka.Messages.Duration.{to_milliseconds, duration_read, FitsDuration}
use kafka.MessageSet.Message.{Codecs, compression_none}
use kafka.MessageSet.ReadLaws.{received}
use kafka.MessageSet.RoundTrip.{CodecLaws, FitsSet}
use kafka.Messages.SetField.{put_set, set_written, set_read}
use kafka.Messages.ProduceReq.{
  ProduceReqPartition, ProduceReqTopic, ProduceReq, decode_partition, decode_topic, decode,
  encode_partition, encode_topic, fields, read, bytes,
}

abbrev pub received_partition : ProduceReqPartition → ProduceReqPartition
received_partition p = record p { messages = map received p.messages }

abbrev pub received_topic : ProduceReqTopic → ProduceReqTopic
received_topic t = record t { partitions = map received_partition t.partitions }

module _ (c : Codecs) (compression : ℕ) where
  abbrev pub wire_partition : ProduceReqPartition → List ℕ
  wire_partition p = put_uint32 p.id ++ put_set c compression p.messages

  abbrev pub wire_topic : ProduceReqTopic → List ℕ
  wire_topic t = put_string t.name ++ put_array wire_partition t.partitions

  pub record FitsPartition (p : ProduceReqPartition) : Type 0 where
    pub id : p.id < 2 ^ 32
    pub messages : FitsSet c compression p.messages

  pub record FitsTopic (t : ProduceReqTopic) : Type 0 where
    pub name : length t.name < 2 ^ 15
    pub partitions_count : length t.partitions < 2 ^ 31
    pub partitions : All FitsPartition t.partitions

  partition_written :
      (p : ProduceReqPartition)
      → FitsPartition p
      → Writes (encode_partition c compression p) (wire_partition p)
  unfolding encode_partition
  partition_written p h = write_then (int32_written p.id) (set_written c compression p.messages)

  topic_written :
      (t : ProduceReqTopic) → FitsTopic t → Writes (encode_topic c compression t) (wire_topic t)
  unfolding encode_topic
  topic_written t h = write_then (string_written t.name) (
      write_then (array_len_written (length t.partitions) h.partitions_count) (
        for_each_written (encode_partition c compression) wire_partition FitsPartition
          partition_written t.partitions h.partitions))

-- The layout of the message behind its size.
abbrev pub wire : Codecs → ProduceReq → List ℕ
wire c r =
    (put_uint16 produce_req_kind ++ put_uint16 0)
    ++ (put_uint32 r.correlation_id
        ++ (put_string r.client_id
            ++ (put_uint16 r.required_acks
                ++ (put_uint32 (to_milliseconds r.timeout)
                    ++ put_array (wire_topic c r.compression) r.topics))))

pub record Fits (c : Codecs) (r : ProduceReq) : Type 0 where
  pub correlation_id : r.correlation_id < 2 ^ 32
  pub client_id : length r.client_id < 2 ^ 15
  pub compression : r.compression < 3
  pub required_acks : r.required_acks < 2 ^ 16
  pub timeout : FitsDuration r.timeout
  pub topics_count : length r.topics < 2 ^ 31
  pub topics : All (FitsTopic c r.compression) r.topics

fields-Writes :
    (c : Codecs) (r : ProduceReq) → Fits c r → Writes (fields c r) (put_uint32 0 ++ wire c r)
unfolding fields
fields-Writes c r h = write_then (int32_written 0) (
    write_pair (int16_written produce_req_kind) (int16_written 0) (
      write_then (int32_written r.correlation_id) (
        write_then (string_written r.client_id) (
          write_then (int16_written r.required_acks) (
            write_then (int32_written (to_milliseconds r.timeout)) (
              write_then (array_len_written (length r.topics) h.topics_count) (
                for_each_written (encode_topic c r.compression) (wire_topic c r.compression)
                  (FitsTopic c r.compression) (topic_written c r.compression) r.topics
                  h.topics)))))))

module _ (c : Codecs) (depth compression : ℕ) (laws : CodecLaws c) (small : compression < 3) where
  partition_read :
      (p : ProduceReqPartition)
      → FitsPartition c compression p
      → Reads
          (decode_partition c (suc (suc depth)))
          (wire_partition c compression p)
          (received_partition p)
  unfolding decode_partition
  partition_read p h =
      read_then _ (int32_read p.id h.id)
        (read_last _ (set_read c depth compression p.messages laws small h.messages))

  topic_read :
      (t : ProduceReqTopic)
      → FitsTopic c compression t
      → Reads (decode_topic c (suc (suc depth))) (wire_topic c compression t) (received_topic t)
  unfolding decode_topic
  topic_read t h = read_then _ (string_read t.name h.name) (
      read_last _ (
        array_read (decode_partition c (suc (suc depth))) (wire_partition c compression)
          (FitsPartition c compression) received_partition partition_read t.partitions
          h.partitions_count h.partitions))

-- What the server reads of the request.
abbrev pub received_req : ProduceReq → ProduceReq
received_req r = record r { compression = compression_none; topics = map received_topic r.topics }

decode-Reads :
    (c : Codecs) (depth n : ℕ) (r : ProduceReq)
    → CodecLaws c
    → Fits c r
    → Reads (decode c (suc (suc depth))) (put_uint32 n ++ wire c r) (received_req r)
unfolding decode
decode-Reads c depth n r laws h = read_then _ (int32_read_any n) (
    read_then _ (int16s_read produce_req_kind 0) (
      read_then _ (int32_read r.correlation_id h.correlation_id) (
        read_then _ (string_read r.client_id h.client_id) (
          read_then _ (int16_read r.required_acks h.required_acks) (
            read_then _ (duration_read r.timeout h.timeout) (
              read_last _ (
                array_read (decode_topic c (suc (suc depth))) (wire_topic c r.compression)
                  (FitsTopic c r.compression) received_topic
                  (topic_read c depth r.compression laws h.compression) r.topics h.topics_count
                  h.topics)))))))

-- A ProduceReq whose numbers, lengths, time-out and message sets fit their fields, with compression
-- methods that can be undone: Bytes writes its layout behind its size, and ReadProduceReq, on any reader
-- that begins with those bytes, gives the request back, with no compression and with the checksum set
-- in each of its messages.
pub read-bytes_produce_req :
    (c : Codecs) (depth : ℕ) (r : ProduceReq) (rest : List ℕ) (ending : Error)
    → CodecLaws c
    → Fits c r
    → (bytes c r ≡ done (ok (frame (wire c r))))
      × (read c (suc (suc depth)) (record { bytes = frame (wire c r) ++ rest; ending = ending })
          ≡ done (ok (received_req r)))
unfolding bytes read
read-bytes_produce_req c depth r rest ending laws h =
    carried (wire c r) (fields-Writes c r h) (decode-Reads c depth (length (wire c r)) r laws h)
      rest ending
