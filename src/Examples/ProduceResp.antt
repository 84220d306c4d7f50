-- ===== src/Examples/ProduceResp.antt =====
-- A ProduceResp on the wire.
use kafka.Base.{[], ◌∷◌, arith, some}
use kafka.Wire.Errors.{kafka_error, err_request_timeout}
use kafka.Messages.ProduceResp.{ProduceResp}
use kafka.Messages.ProduceResp.Layout.{Fits}
use kafka.Examples.{fits_request_timeout}

abbrev pub sample : ProduceResp
sample = record {
  correlation_id = 7;
  topics =
      (record {
        name = (97 ∷ 98 ∷ []);
        partitions =
            (record { id = 0; err = some (kafka_error err_request_timeout); offset = 42 } ∷ []);
      }
        ∷ []);
}

pub sample-Fits : Fits sample
sample-Fits = record {
  correlation_id = omega arith;
  topics_count = omega arith;
  topics = (
    record {
      name = omega arith;
      partitions_count = omega arith;
      partitions =
          (record { id = omega arith; err = fits_request_timeout; offset = omega arith }, tt);
    },
    tt,
  );
}
