-- ===== src/Examples/OffsetFetchResp.antt =====
-- A OffsetFetchResp on the wire.
use kafka.Base.{[], ◌∷◌, arith, some}
use kafka.Wire.Errors.{kafka_error, err_request_timeout}
use kafka.Messages.OffsetFetchResp.{OffsetFetchResp}
use kafka.Messages.OffsetFetchResp.Layout.{Fits}
use kafka.Examples.{fits_request_timeout}

abbrev pub sample : OffsetFetchResp
sample = record {
  correlation_id = 7;
  topics =
      (record {
        name = (97 ∷ 98 ∷ []);
        partitions =
            (record {
              id = 0;
              offset = 42;
              metadata = (97 ∷ 98 ∷ []);
              err = some (kafka_error err_request_timeout);
            }
              ∷ []);
      }
        ∷ []);
}

pub sample-Fits : Fits sample
sample-Fits = record {
  correlation_id = omega arith;
  topics_count = omega arith;
  topics = (
    record {
      name = omega arith;
      partitions_count = omega arith;
      partitions = (
        record {
          id = omega arith;
          offset = omega arith;
          metadata = omega arith;
          err = fits_request_timeout;
        },
        tt,
      );
    },
    tt,
  );
}
