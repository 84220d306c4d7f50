-- ===== src/MessageSet/Read.antt =====
-- readMessageSet of proto/messages.go.
use kafka.Base.{
  ℕ, zero, suc, ◌+◌, ◌%◌, ◌^◌, List, [], ◌∷◌, ◌++◌, Option, none, some, length, drop, ltb, ◌==◌,
  if◌then◌else◌,
}
use kafka.Base.Program.{Exec, done, panic, out_of_fuel, then_exec, ◌>>=◌, pure}
use kafka.Wire.BigEndian.{is_negative32}
use kafka.Wire.Source.{Source, read_full, limit_reader, after_limit}
use kafka.Wire.Errors.{
  Error, eof, unexpected_eof, cannot_decode_message, gzip_error, bad_compression,
}
use kafka.Wire.Decoder.{
  Decoding, Decoder, Result, ok, failed, new_decoder, decode_int8, decode_int32, decode_uint32,
  decode_int64, decode_bytes,
}
use kafka.MessageSet.Crc.{checksum}
use kafka.MessageSet.Message.{Message, Codecs, compression_none, compression_gzip}
use kafka.MessageSet.Snappy.{snappy_decode}

-- A message set, and the reader behind what was taken of it.
abbrev pub SetRead : Type 0
SetRead = Result (List Message) × Source

-- An end of the input inside a message ends the set; any other error is returned.
unfoldable pub stop : Error → List Message → Result (List Message)
stop eof set = ok set
stop unexpected_eof set = ok set
stop e set = failed e

abbrev pub or_empty : Option (List ℕ) → List ℕ
or_empty none = []
or_empty (some b) = b

unfoldable pub gunzip : Codecs → List ℕ → Exec (Result (List ℕ))
gunzip c val = elim (c.gunzip val) [ none ↦ done (failed gzip_error) | some out ↦ done (ok out) ]

-- The key and the value of a message, behind its magic byte and attributes.
unfoldable pub decode_content : Decoding (Option (List ℕ) × Option (List ℕ))
decode_content = do key ← decode_bytes; value ← decode_bytes; pure (key, value)

-- What one message adds to the set, or the end of the set (the checksum fails), or an error.
pub data Verdict : Type 0 where
  adds : List Message → Verdict
  ends : Verdict
  fails : Error → Verdict

-- A compressed message: `nested` reads the set that its value holds.
unfoldable pub unpack : (Source → ℕ → Exec SetRead) → Exec (Result (List ℕ)) → Exec Verdict
unpack nested decoded = then_exec decoded λ r. elim r [
  | failed e ↦ done (fails e)
  | ok out ↦
      then_exec (nested (record { bytes = out; ending = eof }) (length out % 2 ^ 32))
        λ (msgs, _). elim msgs [ failed e ↦ done (fails e) | ok ms ↦ done (adds ms) ]
]

-- `switch compression := Compression(attributes & 3)`
unfoldable pub by_compression :
    Codecs
    → (Source → ℕ → Exec SetRead)
    → ℕ
    → ℕ
    → ℕ
    → Option (List ℕ)
    → Option (List ℕ)
    → Exec Verdict
by_compression c nested offset crc compression key value =
    if compression == compression_none
    then done (
        adds (
          record {
            key = key;
            value = value;
            offset = offset;
            crc = crc;
            topic = [];
            partition = 0;
            tip_offset = 0;
          }
          ∷ []))
    else if compression == compression_gzip
    then unpack nested (gunzip c (or_empty value))
    else unpack nested (snappy_decode c (or_empty value))

unfoldable pub decode_checked :
    Codecs → (Source → ℕ → Exec SetRead) → ℕ → ℕ → Decoder → Exec Verdict
decode_checked c nested offset crc msgdec = then_exec (decode_int8 msgdec) λ (_, d).
    then_exec (decode_int8 d) λ (attributes, d').
      if attributes % 4 == 3
      then done (fails (bad_compression 3))
      else then_exec (decode_content d') λ (kv, d''). elim d''.err [
        | some _ ↦ done (fails cannot_decode_message)
        | none ↦ by_compression c nested offset crc (attributes % 4) kv.0 kv.1
      ]

-- The bytes of one message. `msgbuf[4:]` panics if there are less than four.
unfoldable pub decode_message : Codecs → (Source → ℕ → Exec SetRead) → ℕ → List ℕ → Exec Verdict
decode_message c nested offset msgbuf =
    then_exec (decode_uint32 (new_decoder (record { bytes = msgbuf; ending = eof }))) λ (crc, d).
      if ltb (length msgbuf) 4
      then panic
      else if crc == checksum (drop 4 msgbuf)
      then decode_checked c nested offset crc d
      else done ends

-- The scratch buffer's length when a message of `size` bytes is read: it is made anew with
-- `size+10240` bytes, an int32 that may overflow, where it is too short.
unfoldable pub scratch_length : ℕ → ℕ → Option ℕ
scratch_length buf_len size =
    if ltb buf_len size
    then (if ltb (size + 10240) (2 ^ 31) then some (size + 10240) else none)
    else some buf_len

-- The rest of the loop, given the scratch buffer's length, the set so far and the reader.
abbrev pub Rest : Type 0
Rest = ℕ → List Message → Source → Exec SetRead

-- What is done with the verdict on a message.
unfoldable pub settle : Rest → ℕ → List Message → Source → Verdict → Exec SetRead
settle more buf_len set rd (adds ms) = more buf_len (set ++ ms) rd
settle more buf_len set rd ends = done (ok set, rd)
settle more buf_len set rd (fails e) = done (failed e, rd)

-- One message with its size known: `buf[:size]` panics for a negative size, and so does `make` for
-- a length that overflowed.
unfoldable pub read_sized :
    Codecs → (Source → ℕ → Exec SetRead) → ℕ → ℕ → ℕ → Source → Rest → List Message → Exec SetRead
read_sized c nested offset buf_len size rd more set =
    if is_negative32 size then panic else elim (scratch_length buf_len size) [
      | none ↦ panic
      | some n ↦
          let r = read_full size rd in
          elim r.err [
            | some e ↦ done (stop e set, r.source)
            | none ↦ then_exec (decode_message c nested offset r.buf) (settle more n set r.source)
          ]
    ]

-- The loop over the messages of the set. Each round takes twelve bytes at least.
unfoldable pub read_messages :
    Codecs → (Source → ℕ → Exec SetRead) → ℕ → ℕ → List Message → Source → Exec SetRead
read_messages c nested zero buf_len set rd = out_of_fuel
read_messages c nested (suc fuel) buf_len set rd =
    let more : Rest = λ n s r. read_messages c nested fuel n s r in
    then_exec (decode_int64 (new_decoder rd)) λ (offset, d). elim d.err [
      | some e ↦ done (stop e set, d.source)
      | none ↦ then_exec (decode_int32 d) λ (size, d'). elim d'.err [
        | some e ↦ done (stop e set, d'.source)
        | none ↦ read_sized c nested offset buf_len size d'.source more set
      ]
    ]

-- `io.LimitReader(r, int64(size))` reads nothing for a negative size.
abbrev pub limit_of : ℕ → ℕ
limit_of size = if is_negative32 size then 0 else size

-- `depth` bounds how deep compressed sets lie inside one another: the sets that writeMessageSet
-- makes have at most one inside, and a set from elsewhere may have any number.
unfoldable pub read_message_set : Codecs → ℕ → Source → ℕ → Exec SetRead
read_message_set c zero r size = out_of_fuel
read_message_set c (suc depth) r size =
    let limited = limit_reader (limit_of size) r in
    then_exec
      (read_messages c (λ s n. read_message_set c depth s n) (suc (length limited.bytes)) 0 []
        limited)
      λ (set, rest). done (set, after_limit (limit_of size) r rest)
