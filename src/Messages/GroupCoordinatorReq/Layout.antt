-- ===== src/Messages/GroupCoordinatorReq/Layout.antt =====
-- GroupCoordinatorReq on the wire, and the round trip.
use kafka.Base.{ℕ, ◌^◌, ◌<◌, ◌≡◌, List, ◌++◌, length}
use kafka.Base.Program.{done}
use kafka.Wire.BigEndian.{put_uint16, put_uint32}
use kafka.Wire.Errors.{Error}
use kafka.Wire.Decoder.{ok}
use kafka.Wire.Reads.{
  Reads, read_then, read_last, int32_read, int32_read_any, int16s_read, string_read, put_string,
}
use kafka.Wire.Writes.{Writes, write_then, write_pair, encode-int16, encode-int32, encode-string}
use kafka.Messages.Frame.{group_coordinator_req_kind, frame, carried}
use kafka.Messages.GroupCoordinatorReq.{GroupCoordinatorReq, decode, fields, read, bytes}

-- The layout of the message behind its size.
abbrev pub wire : GroupCoordinatorReq → List ℕ
wire r =
    (put_uint16 group_coordinator_req_kind ++ put_uint16 0)
    ++ (put_uint32 r.correlation_id ++ (put_string r.client_id ++ put_string r.consumer_group))

pub record Fits (r : GroupCoordinatorReq) : Type 0 where
  pub correlation_id : r.correlation_id < 2 ^ 32
  pub client_id : length r.client_id < 2 ^ 15
  pub consumer_group : length r.consumer_group < 2 ^ 15

fields-Writes : (r : GroupCoordinatorReq) → Fits r → Writes (fields r) (put_uint32 0 ++ wire r)
unfolding fields
fields-Writes r h = write_then (encode-int32 0) (
    write_pair (encode-int16 group_coordinator_req_kind) (encode-int16 0) (
      write_then (encode-int32 r.correlation_id)
        (write_then (encode-string r.client_id) (encode-string r.consumer_group))))

decode-Reads : (n : ℕ) (r : GroupCoordinatorReq) → Fits r → Reads decode (put_uint32 n ++ wire r) r
unfolding decode
decode-Reads n r h = read_then _ (int32_read_any n) (
    read_then _ (int16s_read group_coordinator_req_kind 0) (
      read_then _ (int32_read r.correlation_id h.correlation_id) (
        read_then _ (string_read r.client_id h.client_id)
          (read_last _ (string_read r.consumer_group h.consumer_group)))))

-- A GroupCoordinatorReq whose numbers, lengths and errors fit their fields: Bytes writes its layout behind its size,
-- and ReadGroupCoordinatorReq gives the same message back from any reader that begins with those bytes.
pub read-bytes_group_coordinator_req :
    (r : GroupCoordinatorReq) (rest : List ℕ) (ending : Error)
    → Fits r
    → (bytes r ≡ done (ok (frame (wire r))))
      × (read (record { bytes = frame (wire r) ++ rest; ending = ending }) ≡ done (ok r))
unfolding bytes read
read-bytes_group_coordinator_req r rest ending h =
    carried (wire r) (fields-Writes r h) (decode-Reads (length (wire r)) r h) rest ending
