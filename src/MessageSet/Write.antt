-- ===== src/MessageSet/Write.antt =====
-- writeMessageSet of proto/messages.go. Its writers (bytes.Buffer, buffer, gzip.Writer) take all that
-- is written and never fail, so the writer of the model is a buffer; the gzip writer's output is the
-- compression of what was written to it.
use kafka.Base.{
  ℕ, ◌+◌, ◌%◌, ◌^◌, List, [], ◌∷◌, ◌++◌, none, some, length, take, drop, ◌==◌, if◌then◌else◌,
}
use kafka.Base.Program.{Exec, done, ◌>>◌, then_exec}
use kafka.Wire.BigEndian.{put_uint32}
use kafka.Wire.Encoder.{
  Enc, Buffer, buffer_writer, Written, new_encoder, encode_int64, encode_int32, encode_uint32,
  encode_int8, encode_bytes,
}
use kafka.MessageSet.Crc.{checksum}
use kafka.MessageSet.Message.{
  Message, Codecs, plain_message, size_of, compression_none, compression_gzip, compression_snappy,
}
use kafka.MessageSet.SliceWriter.{SliceWriter, slice_writer, new_slice_writer, reset, slice}

abbrev pub bsize : Message → ℕ
bsize m = 26 + size_of m.key + size_of m.value

abbrev pub msize : Message → ℕ
msize m = 14 + size_of m.key + size_of m.value

unfoldable pub message_fields : ℕ → Message → Enc SliceWriter
message_fields compression m = do
  encode_int64 m.offset
  encode_int32 (msize m % 2 ^ 32)
  encode_uint32 0
  encode_int8 0
  encode_int8 compression
  encode_bytes m.key
  encode_bytes m.value

-- `PutUint32(b.buf[12:16], crc32.ChecksumIEEE(b.buf[16:bsize]))`
unfoldable pub set_crc : ℕ → SliceWriter → SliceWriter
set_crc size b = record b {
  buf = take 12 b.buf ++ (put_uint32 (checksum (drop 16 (take size b.buf))) ++ drop 16 b.buf);
}

-- The loop over the messages: one slice writer serves them all, and each message is written to `w`.
unfoldable pub write_messages : ℕ → SliceWriter → Buffer → ℕ → List Message → Exec (Written Buffer)
unfolding message_fields set_crc
write_messages compression b w total [] = done (record { count = total; err = none; writer = w })
write_messages compression b w total (m ∷ ms) =
    then_exec (message_fields compression m (new_encoder (reset b (bsize m)))) λ (_, enc).
      let p = slice (set_crc (bsize m) enc.w) in
      let rest =
        write_messages compression (set_crc (bsize m) enc.w) (w ++ p) (total + length p) ms in
      elim enc.err [
        | some e ↦ done (record { count = total; err = some e; writer = w })
        | none ↦ rest
      ]

unfoldable pub write_all_messages : ℕ → Buffer → List Message → Exec (Written Buffer)
unfolding write_messages
write_all_messages compression w ms = write_messages compression (new_slice_writer 0) w 0 ms

-- The offset of the last message, which the compressed message takes.
unfoldable pub last_offset : Message → List Message → ℕ
last_offset m [] = m.offset
last_offset m (n ∷ ms) = last_offset n ms

-- The inner set goes to a writer of its own, uncompressed; its compression is the value of one message.
unfoldable pub compress_set : (List ℕ → List ℕ) → Message → List Message → Exec (Written Buffer)
unfolding write_all_messages
compress_set compress m ms = write_all_messages compression_none [] (m ∷ ms)

-- `if err != nil { return 0, err }`, and otherwise the single message that wraps the set.
unfoldable pub write_wrapped :
    (List ℕ → List ℕ) → ℕ → Buffer → Message → List Message → Exec (Written Buffer)
unfolding compress_set last_offset write_all_messages
write_wrapped compress compression w m ms = then_exec (compress_set compress m ms) λ inner.
    elim inner.err [
      | some e ↦ done (record { count = 0; err = some e; writer = w })
      | none ↦
          write_all_messages compression w
            (plain_message none (some (compress inner.writer)) (last_offset m ms) ∷ [])
    ]

unfoldable pub write_message_set : Codecs → Buffer → List Message → ℕ → Exec (Written Buffer)
unfolding write_wrapped write_all_messages
write_message_set c w [] compression = done (record { count = 0; err = none; writer = w })
write_message_set c w (m ∷ ms) compression =
    if compression == compression_gzip
    then write_wrapped c.gzip compression w m ms
    else if compression == compression_snappy
    then write_wrapped c.snappy_encode compression w m ms
    else write_all_messages compression w (m ∷ ms)
