-- ===== src/Examples/OffsetCommitResp.antt =====
-- A OffsetCommitResp on the wire.
use kafka.Base.{[], ◌∷◌, arith, none, some}
use kafka.Wire.Errors.{kafka_error, err_request_timeout}
use kafka.Messages.OffsetCommitResp.{OffsetCommitResp}
use kafka.Messages.OffsetCommitResp.Layout.{Fits}
use kafka.Examples.{fits_request_timeout}

abbrev pub sample : OffsetCommitResp
sample = record {
  correlation_id = 7;
  topics =
      (record {
        name = (97 ∷ 98 ∷ []);
        partitions =
            (record { id = 0; err = some (kafka_error err_request_timeout) }
              ∷ record { id = 1; err = none }
              ∷ []);
      }
        ∷ []);
}

pub sample-Fits : Fits sample
sample-Fits = record {
  correlation_id = omega arith;
  topics_count = omega arith;
  topics = (
    record {
      name = omega arith;
      partitions_count = omega arith;
      partitions = (
        record { id = omega arith; err = fits_request_timeout },
        (record { id = omega arith; err = tt }, tt),
      );
    },
    tt,
  );
}
