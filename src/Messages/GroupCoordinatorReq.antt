-- ===== src/Messages/GroupCoordinatorReq.antt =====
-- GroupCoordinatorReq of proto/messages.go: the request, its reader and its writer.
pub mod Layout
use kafka.Base.{ℕ, List}
use kafka.Base.Program.{Exec, ◌>>=◌, ◌>>◌, pure}
use kafka.Wire.Source.{Source}
use kafka.Wire.Decoder.{Decoding, Result, decode_int32, decode_string, read_with}
use kafka.Wire.Encoder.{Enc, Buffer, buffer_writer, Writer, Written, encode, int16, int32, string}
use kafka.Messages.Frame.{group_coordinator_req_kind, bytes_of, write_to}

pub record GroupCoordinatorReq : Type 0 where
  pub correlation_id : ℕ
  pub client_id : List ℕ
  pub consumer_group : List ℕ

decode : Decoding GroupCoordinatorReq
decode = do
  _ ← decode_int32
  _ ← decode_int32
  correlation_id ← decode_int32
  client_id ← decode_string
  consumer_group ← decode_string
  pure (record {
    correlation_id = correlation_id;
    client_id = client_id;
    consumer_group = consumer_group;
  })

fields : GroupCoordinatorReq → Enc Buffer
fields r = do
  encode (int32 0)
  encode (int16 group_coordinator_req_kind)
  encode (int16 0)
  encode (int32 r.correlation_id)
  encode (string r.client_id)
  encode (string r.consumer_group)

unfoldable pub read : Source → Exec (Result GroupCoordinatorReq)
unfolding decode
read = read_with decode

unfoldable pub bytes : GroupCoordinatorReq → Exec (Result (List ℕ))
unfolding fields
bytes r = bytes_of (fields r)

unfoldable pub send : {W : Type 0} ⦃wr : Writer W⦄ → GroupCoordinatorReq → W → Exec (Written W)
send r w = write_to (bytes r) w
