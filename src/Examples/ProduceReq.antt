-- ===== src/Examples/ProduceReq.antt =====
-- A ProduceReq on the wire.
use kafka.Base.{◌≡◌, [], ◌∷◌, ◌++◌, refl, arith}
use kafka.Base.Program.{done}
use kafka.Wire.Errors.{eof}
use kafka.Wire.Decoder.{ok}
use kafka.Messages.Frame.{frame}
use kafka.Messages.ProduceReq.{ProduceReq, read, bytes}
use kafka.Messages.ProduceReq.Layout.{wire, Fits, read-bytes_produce_req, received_req}
use kafka.Examples.{codecs, codecs-CodecLaws, sample_message, fits_gzip}

abbrev sample : ProduceReq
sample = record {
  correlation_id = 7;
  client_id = (97 ∷ 98 ∷ []);
  compression = 1;
  required_acks = 65535;
  timeout = 1500000000;
  topics =
      (record {
        name = (97 ∷ 98 ∷ []);
        partitions = (record { id = 0; messages = (sample_message ∷ []) } ∷ []);
      }
        ∷ []);
}

sample-Fits : Fits codecs sample
sample-Fits = record {
  correlation_id = omega arith;
  client_id = omega arith;
  compression = omega arith;
  required_acks = omega arith;
  timeout = (refl, omega arith);
  topics_count = omega arith;
  topics = (
    record {
      name = omega arith;
      partitions_count = omega arith;
      partitions = (record { id = omega arith; messages = fits_gzip }, tt);
    },
    tt,
  );
}

read-bytes_produce_req_example :
    (bytes codecs sample ≡ done (ok (frame (wire codecs sample))))
    × (read codecs 2 (record { bytes = frame (wire codecs sample) ++ (7 ∷ []); ending = eof })
        ≡ done (ok (received_req sample)))
read-bytes_produce_req_example =
    read-bytes_produce_req codecs 0 sample (7 ∷ []) eof codecs-CodecLaws sample-Fits
