-- ===== src/Examples/OffsetResp.antt =====
-- A OffsetResp on the wire.
use kafka.Base.{[], ◌∷◌, arith, some}
use kafka.Wire.Errors.{kafka_error, err_request_timeout}
use kafka.Messages.OffsetResp.{OffsetResp}
use kafka.Messages.OffsetResp.Layout.{Fits}
use kafka.Examples.{fits_request_timeout}

abbrev pub sample : OffsetResp
sample = record {
  correlation_id = 7;
  topics =
      (record {
        name = (97 ∷ 98 ∷ []);
        partitions =
            (record {
              id = 0;
              err = some (kafka_error err_request_timeout);
              offsets = (42 ∷ 0 ∷ []);
            }
              ∷ []);
      }
        ∷ []);
}

pub sample-Fits : Fits sample
sample-Fits = record {
  correlation_id = omega arith;
  topics_count = omega arith;
  topics = (
    record {
      name = omega arith;
      partitions_count = omega arith;
      partitions = (
        record {
          id = omega arith;
          err = fits_request_timeout;
          offsets_count = omega arith;
          offsets = (omega arith, (omega arith, tt));
        },
        tt,
      );
    },
    tt,
  );
}
