-- ===== src/Messages/GroupCoordinatorResp/Layout.antt =====
-- GroupCoordinatorResp on the wire, and the round trip.
use kafka.Base.{ℕ, ◌^◌, ◌<◌, ◌≡◌, List, ◌++◌, length}
use kafka.Base.Program.{done}
use kafka.Wire.BigEndian.{put_uint32}
use kafka.Wire.Errors.{Error}
use kafka.Wire.Decoder.{ok}
use kafka.Wire.Reads.{
  Reads, read_then, read_last, int32_read, int32_read_any, string_read, put_string,
}
use kafka.Wire.Writes.{
  Writes, write_then, encode-int32, encode-string, error_written, error_read, put_error, FitsError,
}
use kafka.Messages.Frame.{frame, carried}
use kafka.Messages.GroupCoordinatorResp.{GroupCoordinatorResp, decode, fields, read, bytes}

-- The layout of the message behind its size.
abbrev pub wire : GroupCoordinatorResp → List ℕ
wire r =
    put_uint32 r.correlation_id
    ++ (put_error r.err
        ++ (put_uint32 r.coordinator_id
            ++ (put_string r.coordinator_host ++ put_uint32 r.coordinator_port)))

pub record Fits (r : GroupCoordinatorResp) : Type 0 where
  pub correlation_id : r.correlation_id < 2 ^ 32
  pub err : FitsError r.err
  pub coordinator_id : r.coordinator_id < 2 ^ 32
  pub coordinator_host : length r.coordinator_host < 2 ^ 15
  pub coordinator_port : r.coordinator_port < 2 ^ 32

fields-Writes : (r : GroupCoordinatorResp) → Fits r → Writes (fields r) (put_uint32 0 ++ wire r)
unfolding fields
fields-Writes r h = write_then (encode-int32 0) (
    write_then (encode-int32 r.correlation_id) (
      write_then (error_written r.err h.err) (
        write_then (encode-int32 r.coordinator_id)
          (write_then (encode-string r.coordinator_host) (encode-int32 r.coordinator_port)))))

decode-Reads : (n : ℕ) (r : GroupCoordinatorResp) → Fits r → Reads decode (put_uint32 n ++ wire r) r
unfolding decode
decode-Reads n r h = read_then _ (int32_read_any n) (
    read_then _ (int32_read r.correlation_id h.correlation_id) (
      read_then _ (error_read r.err h.err) (
        read_then _ (int32_read r.coordinator_id h.coordinator_id) (
          read_then _ (string_read r.coordinator_host h.coordinator_host)
            (read_last _ (int32_read r.coordinator_port h.coordinator_port))))))

-- A GroupCoordinatorResp whose numbers, lengths and errors fit their fields: Bytes writes its layout behind its size,
-- and ReadGroupCoordinatorResp gives the same message back from any reader that begins with those bytes.
pub read-bytes_group_coordinator_resp :
    (r : GroupCoordinatorResp) (rest : List ℕ) (ending : Error)
    → Fits r
    → (bytes r ≡ done (ok (frame (wire r))))
      × (read (record { bytes = frame (wire r) ++ rest; ending = ending }) ≡ done (ok r))
unfolding bytes read
read-bytes_group_coordinator_resp r rest ending h =
    carried (wire r) (fields-Writes r h) (decode-Reads (length (wire r)) r h) rest ending
