-- ===== src/MessageSet/Message.antt =====
-- Message and the compression methods of proto/messages.go, and what the source takes from
-- compress/gzip and github.com/golang/snappy.
use kafka.Base.{ℕ, List, [], Option, none, some, length}
use kafka.Base.Program.{Exec, done, ◌>>◌, then_exec}
use kafka.Wire.Encoder.{Enc, Buffer, buffer_writer, new_encoder, encode_int8, encode_bytes}
use kafka.MessageSet.Crc.{checksum}

pub record Message : Type 0 where
  pub key : Option (List ℕ)
  pub value : Option (List ℕ)
  pub offset : ℕ
  pub crc : ℕ
  pub topic : List ℕ
  pub partition : ℕ
  pub tip_offset : ℕ

abbrev pub compression_none : ℕ
compression_none = 0

abbrev pub compression_gzip : ℕ
compression_gzip = 1

abbrev pub compression_snappy : ℕ
compression_snappy = 2

-- `len(b)`; the nil slice has no bytes.
abbrev pub size_of : Option (List ℕ) → ℕ
size_of none = 0
size_of (some b) = length b

-- A message with these fields and the zero value in the others.
abbrev pub plain_message : Option (List ℕ) → Option (List ℕ) → ℕ → Message
plain_message key value offset = record {
  key = key;
  value = value;
  offset = offset;
  crc = 0;
  topic = [];
  partition = 0;
  tip_offset = 0;
}

-- The compressors and decompressors, whose code is not in the repository; `none` is an error.
pub record Codecs : Type 0 where
  pub gzip : List ℕ → List ℕ
  pub gunzip : List ℕ → Option (List ℕ)
  pub snappy_encode : List ℕ → List ℕ
  pub snappy_decode : List ℕ → Option (List ℕ)

unfoldable pub crc_fields : Message → ℕ → Enc Buffer
crc_fields m compression = do
  encode_int8 0
  encode_int8 compression
  encode_bytes m.key
  encode_bytes m.value

-- ComputeCrc: the encoder's error is not looked at.
unfoldable pub compute_crc : Message → ℕ → Exec ℕ
unfolding crc_fields
compute_crc m compression =
    then_exec (crc_fields m compression (new_encoder [])) λ (_, e). done (checksum e.w)
