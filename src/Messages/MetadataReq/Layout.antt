-- ===== src/Messages/MetadataReq/Layout.antt =====
-- MetadataReq on the wire, and the round trip.
use kafka.Base.{ℕ, ◌^◌, ◌<◌, ◌≡◌, List, ◌++◌, length, All}
use kafka.Base.Program.{done}
use kafka.Wire.BigEndian.{put_uint16, put_uint32}
use kafka.Wire.Errors.{Error}
use kafka.Wire.Decoder.{ok, decode_string}
use kafka.Wire.Encoder.{buffer_writer, encode, string}
use kafka.Wire.Reads.{
  Reads, read_then, read_last, int32_read, int32_read_any, int16s_read, string_read,
  array_read_same, put_string, put_array,
}
use kafka.Wire.Writes.{
  Writes, write_then, write_pair, encode-int16, encode-int32, encode-string, array_len_written,
  for_each_written, FitsString,
}
use kafka.Messages.Frame.{metadata_req_kind, frame, carried}
use kafka.Messages.MetadataReq.{MetadataReq, decode, fields, read, bytes}

-- The layout of the message behind its size.
abbrev pub wire : MetadataReq → List ℕ
wire r =
    (put_uint16 metadata_req_kind ++ put_uint16 0)
    ++ (put_uint32 r.correlation_id ++ (put_string r.client_id ++ put_array put_string r.topics))

pub record Fits (r : MetadataReq) : Type 0 where
  pub correlation_id : r.correlation_id < 2 ^ 32
  pub client_id : length r.client_id < 2 ^ 15
  pub topics_count : length r.topics < 2 ^ 31
  pub topics : All FitsString r.topics

fields-Writes : (r : MetadataReq) → Fits r → Writes (fields r) (put_uint32 0 ++ wire r)
unfolding fields
fields-Writes r h = write_then (encode-int32 0) (
    write_pair (encode-int16 metadata_req_kind) (encode-int16 0) (
      write_then (encode-int32 r.correlation_id) (
        write_then (encode-string r.client_id) (
          write_then (array_len_written (length r.topics) h.topics_count) (
            for_each_written (λ name. encode (string name)) put_string FitsString
              (λ x _. encode-string x) r.topics h.topics)))))

decode-Reads : (n : ℕ) (r : MetadataReq) → Fits r → Reads decode (put_uint32 n ++ wire r) r
unfolding decode
decode-Reads n r h = read_then _ (int32_read_any n) (
    read_then _ (int16s_read metadata_req_kind 0) (
      read_then _ (int32_read r.correlation_id h.correlation_id) (
        read_then _ (string_read r.client_id h.client_id) (
          read_last _ (
            array_read_same decode_string put_string FitsString string_read r.topics h.topics_count
              h.topics)))))

-- A MetadataReq whose numbers, lengths and errors fit their fields: Bytes writes its layout behind its size,
-- and ReadMetadataReq gives the same message back from any reader that begins with those bytes.
pub read-bytes_metadata_req :
    (r : MetadataReq) (rest : List ℕ) (ending : Error)
    → Fits r
    → (bytes r ≡ done (ok (frame (wire r))))
      × (read (record { bytes = frame (wire r) ++ rest; ending = ending }) ≡ done (ok r))
unfolding bytes read
read-bytes_metadata_req r rest ending h =
    carried (wire r) (fields-Writes r h) (decode-Reads (length (wire r)) r h) rest ending
