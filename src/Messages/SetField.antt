-- ===== src/Messages/SetField.antt =====
-- A message set as a field of FetchResp and ProduceReq: its size in bytes, then the set.
use kafka.Base.{
  ℕ, zero, suc, ◌+◌, ◌^◌, ◌<◌, ◌≡◌, List, [], ◌∷◌, ◌++◌, none, some, length, take, drop, map, arith,
  append_assoc, length-append, take-length_append, drop-length_append,
}
use kafka.Base.Program.{done, then_exec, ◌>>=◌}
use kafka.Wire.BigEndian.{put_uint32}
use kafka.Wire.Decoder.{Decoding, ok, failed, decode_int32}
use kafka.Wire.Encoder.{Enc, Buffer, buffer_writer, encode_int32}
use kafka.Wire.Reads.{Reads, read_then, int32_read}
use kafka.Wire.Writes.{Writes, int32_written}
use kafka.MessageSet.Message.{Message, Codecs}
use kafka.MessageSet.Write.{write_message_set}
use kafka.MessageSet.Layout.{length-wire_message}
use kafka.MessageSet.WriteLaws.{wire_set, wrapper, write_message_set-wire}
use kafka.MessageSet.Read.{read_message_set}
use kafka.MessageSet.ReadLaws.{received}
use kafka.MessageSet.RoundTrip.{CodecLaws, FitsSet, wire_set_read}

-- The set behind its size. An error of the decoder, or of the set, makes the Read function return it
-- at once; the decoder keeps it, so that nothing more is read.
unfoldable pub read_set : Codecs → ℕ → ℕ → Decoding (List Message)
read_set c depth size d = elim d.err [
  | some e ↦ done ([], d)
  | none ↦ then_exec (read_message_set c depth d.source size) λ (r, source). elim r [
    | failed e ↦ done ([], record { source = source; err = some e })
    | ok ms ↦ done (ms, record { source = source; err = none })
  ]
]

unfoldable pub decode_set : Codecs → ℕ → Decoding (List Message)
decode_set c depth = decode_int32 >>= read_set c depth

-- `binary.BigEndian.PutUint32(buf[i:i+4], uint32(n))`
unfoldable pub put_size_at : ℕ → ℕ → Buffer → Buffer
put_size_at i n buf = take i buf ++ (put_uint32 n ++ drop (i + 4) buf)

-- writeMessageSet writes to the same buffer as the encoder; its error is returned at once.
unfoldable pub write_set : Codecs → ℕ → List Message → ℕ → Enc Buffer
write_set c compression ms i e = then_exec (write_message_set c e.w ms compression) λ r.
    elim r.err [
      | some x ↦ done (tt, record { w = r.writer; err = some x })
      | none ↦ done (tt, record { w = put_size_at i r.count r.writer; err = e.err })
    ]

-- `i := len(buf)`, the placeholder, the set, and its size over the placeholder.
unfoldable pub encode_set : Codecs → ℕ → List Message → Enc Buffer
encode_set c compression ms e =
    then_exec (encode_int32 0 e) λ (_, e'). write_set c compression ms (length e.w) e'

-- The field on the wire.
abbrev pub put_set : Codecs → ℕ → List Message → List ℕ
put_set c compression ms =
    put_uint32 (length (wire_set c compression ms)) ++ wire_set c compression ms

put_size_at-end :
    (ws bs : List ℕ) (n : ℕ)
    → put_size_at (length ws) n ((ws ++ put_uint32 0) ++ bs) ≡ ws ++ (put_uint32 n ++ bs)
unfolding put_size_at put_uint32
put_size_at-end ws bs n =
    let four : length ws + 4 ≡ length (ws ++ put_uint32 0) =
      omega (arith, length-append ws (put_uint32 0)) in
    rw (
      four,
      drop-length_append (ws ++ put_uint32 0) bs,
      append_assoc ws (put_uint32 0) bs,
      take-length_append ws (put_uint32 0 ++ bs),
    )

pub set_written :
    (c : Codecs) (compression : ℕ) (ms : List Message)
    → Writes (encode_set c compression ms) (put_set c compression ms)
unfolding encode_set write_set
set_written c compression ms = record {
  writes = λ ws.
      rw ((int32_written 0).writes ws, write_message_set-wire c (ws ++ put_uint32 0) ms compression)
        (rw (put_size_at-end ws (wire_set c compression ms) (length (wire_set c compression ms))));
}

length-wire_set-lt :
    (c : Codecs) (compression : ℕ) (ms : List Message)
    → compression < 3
    → FitsSet c compression ms
    → length (wire_set c compression ms) < 2 ^ 32
length-wire_set-lt c compression [] small h = omega arith
length-wire_set-lt c zero (m ∷ ms) small h = omega (arith, h.1)
length-wire_set-lt c (suc zero) (m ∷ ms) small h =
    omega (arith, h.2, length-wire_message 1 (wrapper c.gzip m ms))
length-wire_set-lt c (suc (suc zero)) (m ∷ ms) small h =
    omega (arith, h.2, length-wire_message 2 (wrapper c.snappy_encode m ms))
length-wire_set-lt c (suc (suc (suc n))) (m ∷ ms) small h = absurd (omega arith)

read_set-Reads :
    (c : Codecs) (depth compression : ℕ) (ms : List Message)
    → CodecLaws c
    → compression < 3
    → FitsSet c compression ms
    → Reads
        (read_set c (suc (suc depth)) (length (wire_set c compression ms)))
        (wire_set c compression ms)
        (map received ms)
unfolding read_set
read_set-Reads c depth compression ms laws small h = record {
  reads = λ rest ending. rw (wire_set_read c depth compression ms rest ending laws small h);
}

pub set_read :
    (c : Codecs) (depth compression : ℕ) (ms : List Message)
    → CodecLaws c
    → compression < 3
    → FitsSet c compression ms
    → Reads (decode_set c (suc (suc depth))) (put_set c compression ms) (map received ms)
unfolding decode_set
set_read c depth compression ms laws small h =
    read_then _
      (int32_read (length (wire_set c compression ms))
        (length-wire_set-lt c compression ms small h))
      (read_set-Reads c depth compression ms laws small h)
