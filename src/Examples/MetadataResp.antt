-- ===== src/Examples/MetadataResp.antt =====
-- A MetadataResp on the wire.
use kafka.Base.{[], ◌∷◌, arith, none, some}
use kafka.Wire.Errors.{kafka_error, err_request_timeout}
use kafka.Messages.MetadataResp.{MetadataResp}
use kafka.Messages.MetadataResp.Layout.{Fits}
use kafka.Examples.{fits_request_timeout}

abbrev pub sample : MetadataResp
sample = record {
  correlation_id = 7;
  brokers = (record { node_id = 1; host = (97 ∷ 98 ∷ []); port = 9092 } ∷ []);
  topics =
      (record {
        err = none;
        name = (97 ∷ 98 ∷ []);
        partitions =
            (record {
              err = some (kafka_error err_request_timeout);
              id = 3;
              leader = 4294967295;
              replicas = (1 ∷ 2 ∷ []);
              isrs = (1 ∷ []);
            }
              ∷ []);
      }
        ∷ []);
}

pub sample-Fits : Fits sample
sample-Fits = record {
  correlation_id = omega arith;
  brokers_count = omega arith;
  brokers = (record { node_id = omega arith; host = omega arith; port = omega arith }, tt);
  topics_count = omega arith;
  topics = (
    record {
      err = tt;
      name = omega arith;
      partitions_count = omega arith;
      partitions = (
        record {
          err = fits_request_timeout;
          id = omega arith;
          leader = omega arith;
          replicas_count = omega arith;
          replicas = (omega arith, (omega arith, tt));
          isrs_count = omega arith;
          isrs = (omega arith, tt);
        },
        tt,
      );
    },
    tt,
  );
}
