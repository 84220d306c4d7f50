-- ===== src/Messages/GroupCoordinatorResp.antt =====
-- GroupCoordinatorResp of proto/messages.go: the response, its reader and its writer.
pub mod Layout
use kafka.Base.{ℕ, List, Option}
use kafka.Base.Program.{Exec, ◌>>=◌, ◌>>◌, pure}
use kafka.Wire.Source.{Source}
use kafka.Wire.Errors.{Error}
use kafka.Wire.Decoder.{Decoding, Result, decode_int32, decode_string, decode_error, read_with}
use kafka.Wire.Encoder.{Enc, Buffer, buffer_writer, encode, int32, string, encode_error}
use kafka.Messages.Frame.{bytes_of}

pub record GroupCoordinatorResp : Type 0 where
  pub correlation_id : ℕ
  pub err : Option Error
  pub coordinator_id : ℕ
  pub coordinator_host : List ℕ
  pub coordinator_port : ℕ

decode : Decoding GroupCoordinatorResp
decode = do
  _ ← decode_int32
  correlation_id ← decode_int32
  err ← decode_error
  coordinator_id ← decode_int32
  coordinator_host ← decode_string
  coordinator_port ← decode_int32
  pure (record {
    correlation_id = correlation_id;
    err = err;
    coordinator_id = coordinator_id;
    coordinator_host = coordinator_host;
    coordinator_port = coordinator_port;
  })

fields : GroupCoordinatorResp → Enc Buffer
fields r = do
  encode (int32 0)
  encode (int32 r.correlation_id)
  encode_error r.err
  encode (int32 r.coordinator_id)
  encode (string r.coordinator_host)
  encode (int32 r.coordinator_port)

unfoldable pub read : Source → Exec (Result GroupCoordinatorResp)
unfolding decode
read = read_with decode

unfoldable pub bytes : GroupCoordinatorResp → Exec (Result (List ℕ))
unfolding fields
bytes r = bytes_of (fields r)
