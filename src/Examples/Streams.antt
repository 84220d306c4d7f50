-- ===== src/Examples/Streams.antt =====
-- Whole messages taken off a stream.
use kafka.Base.{◌≡◌, ◌<◌, ◌^◌, ◌-◌, ◌≤◌, ◌⊎◌, [], ◌∷◌, ◌++◌, arith}
use kafka.Base.Program.{done, panic}
use kafka.Wire.BigEndian.{put_uint32}
use kafka.Wire.Errors.{eof}
use kafka.Wire.Decoder.{ok}
use kafka.Messages.Frame.{frame}
use kafka.MessageSet.ReadLaws.{source_of}
use kafka.Messages.Envelope.{Envelope, read_resp}
use kafka.Messages.Envelope.Laws.{read_resp-panics, read_resp-frame}

read_resp-panics_example :
    let read = read_resp (source_of ((put_uint32 3 ++ put_uint32 7) ++ (9 ∷ [])) eof) in
    ((3 < 4) ⊎ (2 ^ 31 - 4 ≤ 3) → read ≡ panic)
    × (4 ≤ 3 → 3 < 2 ^ 31 - 4 → (result : Envelope) × (read ≡ done result))
read_resp-panics_example = read_resp-panics 3 7 (9 ∷ []) eof (omega arith) (omega arith)

read_resp-frame_example :
    read_resp (source_of (frame (put_uint32 7 ++ (1 ∷ 2 ∷ [])) ++ (9 ∷ [])) eof)
    ≡ done (ok (7, frame (put_uint32 7 ++ (1 ∷ 2 ∷ []))), source_of (9 ∷ []) eof)
read_resp-frame_example = read_resp-frame 7 (1 ∷ 2 ∷ []) (9 ∷ []) eof (omega arith) (omega arith)
