-- ===== src/Messages/Envelope.antt =====
-- ReadReq and ReadResp of proto/messages.go: whole messages off a stream, by their size.
pub mod Laws
use kafka.Base.{ℕ, ◌+◌, ◌-◌, ◌%◌, ◌^◌, List, ◌++◌, none, some, ltb, leb, ◌||◌, if◌then◌else◌}
use kafka.Base.Program.{Exec, done, panic, then_exec, ◌>>=◌, pure}
use kafka.Wire.BigEndian.{put_uint16, put_uint32}
use kafka.Wire.Source.{Source, read_full}
use kafka.Wire.Decoder.{Decoding, Result, ok, failed, new_decoder, decode_int16, decode_int32}

-- The number of the message (its kind or its correlation id), its bytes with the size in front, and
-- the reader after it. Where Go returns an error beside other values, the callers look at the error.
abbrev pub Envelope : Type 0
Envelope = Result (ℕ × List ℕ) × Source

-- `io.ReadFull(r, b[header:])` behind the bytes that were put back into `b`.
read_rest : ℕ → List ℕ → ℕ → Source → Envelope
read_rest number front size r =
    let result = read_full size r in
    elim result.err [
      | some e ↦ (failed e, result.source)
      | none ↦ (ok (number, front ++ result.buf), result.source)
    ]

-- `make([]byte, msgSize+4)` with an int32 sum that wraps: a negative length panics, and so does a
-- slice with no room for the header.
unfoldable pub total_size : ℕ → ℕ
total_size size = (size + 4) % 2 ^ 32

fits_header : ℕ → ℕ → Exec (Unit {0})
fits_header header total = if ltb total header || leb (2 ^ 31) total then panic else done tt

req_header : Decoding (ℕ × ℕ)
req_header = do size ← decode_int32; kind ← decode_int16; pure (size, kind)

resp_header : Decoding (ℕ × ℕ)
resp_header = do size ← decode_int32; correlation_id ← decode_int32; pure (size, correlation_id)

unfoldable pub read_req : Source → Exec Envelope
unfolding req_header fits_header total_size read_rest
read_req r = then_exec (req_header (new_decoder r)) λ (h, d). elim d.err [
  | some e ↦ done (failed e, d.source)
  | none ↦
      then_exec (fits_header 6 (total_size h.0))
        λ _. done (read_rest h.1 (put_uint32 h.0 ++ put_uint16 h.1) (total_size h.0 - 6) d.source)
]

unfoldable pub read_resp : Source → Exec Envelope
unfolding resp_header fits_header total_size read_rest
read_resp r = then_exec (resp_header (new_decoder r)) λ (h, d). elim d.err [
  | some e ↦ done (failed e, d.source)
  | none ↦
      then_exec (fits_header 8 (total_size h.0))
        λ _. done (read_rest h.1 (put_uint32 h.0 ++ put_uint32 h.1) (total_size h.0 - 8) d.source)
]
