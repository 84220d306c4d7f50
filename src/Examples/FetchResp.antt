-- ===== src/Examples/FetchResp.antt =====
-- A FetchResp on the wire.
use kafka.Base.{◌≡◌, [], ◌∷◌, ◌++◌, arith, map, none}
use kafka.Base.Program.{done}
use kafka.Wire.Errors.{eof}
use kafka.Wire.Decoder.{ok}
use kafka.Messages.Frame.{frame}
use kafka.Messages.FetchResp.{FetchResp, read, bytes}
use kafka.Messages.FetchResp.Layout.{wire, Fits, read-bytes_fetch_resp, received_topic}
use kafka.Examples.{codecs, codecs-CodecLaws, sample_message, fits_plain}

abbrev pub sample : FetchResp
sample = record {
  correlation_id = 7;
  topics =
      (record {
        name = (97 ∷ 98 ∷ []);
        partitions =
            (record { id = 0; err = none; tip_offset = 43; messages = (sample_message ∷ []) } ∷ []);
      }
        ∷ []);
}

pub sample-Fits : Fits codecs sample
sample-Fits = record {
  correlation_id = omega arith;
  topics_count = omega arith;
  topics = (
    record {
      name = omega arith;
      partitions_count = omega arith;
      partitions = (
        record { id = omega arith; err = tt; tip_offset = omega arith; messages = fits_plain },
        tt,
      );
    },
    tt,
  );
}

read-bytes_fetch_resp_example :
    (bytes codecs sample ≡ done (ok (frame (wire codecs sample))))
    × (read codecs 2 (record { bytes = frame (wire codecs sample) ++ (7 ∷ []); ending = eof })
        ≡ done (ok (record sample { topics = map received_topic sample.topics })))
read-bytes_fetch_resp_example =
    read-bytes_fetch_resp codecs 0 sample (7 ∷ []) eof codecs-CodecLaws sample-Fits
