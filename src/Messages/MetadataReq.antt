-- ===== src/Messages/MetadataReq.antt =====
-- MetadataReq of proto/messages.go: the request, its reader and its writer.
pub mod Layout
use kafka.Base.{ℕ, List, length}
use kafka.Base.Program.{Exec, ◌>>=◌, ◌>>◌, pure, for_each}
use kafka.Wire.Source.{Source}
use kafka.Wire.Decoder.{Decoding, Result, decode_int32, decode_string, decode_array, read_with}
use kafka.Wire.Encoder.{
  Enc, Buffer, buffer_writer, Writer, Written, encode, int16, int32, string, encode_array_len,
}
use kafka.Messages.Frame.{metadata_req_kind, bytes_of, write_to}

pub record MetadataReq : Type 0 where
  pub correlation_id : ℕ
  pub client_id : List ℕ
  pub topics : List (List ℕ)

decode : Decoding MetadataReq
decode = do
  _ ← decode_int32
  _ ← decode_int32
  correlation_id ← decode_int32
  client_id ← decode_string
  topics ← decode_array decode_string
  pure (record { correlation_id = correlation_id; client_id = client_id; topics = topics })

fields : MetadataReq → Enc Buffer
fields r = do
  encode (int32 0)
  encode (int16 metadata_req_kind)
  encode (int16 0)
  encode (int32 r.correlation_id)
  encode (string r.client_id)
  encode_array_len (length r.topics)
  for_each (λ name. encode (string name)) r.topics

unfoldable pub read : Source → Exec (Result MetadataReq)
unfolding decode
read = read_with decode

unfoldable pub bytes : MetadataReq → Exec (Result (List ℕ))
unfolding fields
bytes r = bytes_of (fields r)

unfoldable pub send : {W : Type 0} ⦃wr : Writer W⦄ → MetadataReq → W → Exec (Written W)
send r w = write_to (bytes r) w
