-- ===== src/Examples/FetchReq.antt =====
-- A FetchReq on the wire.
use kafka.Base.{[], ◌∷◌, refl, arith}
use kafka.Messages.FetchReq.{FetchReq}
use kafka.Messages.FetchReq.Layout.{Fits}

abbrev pub sample : FetchReq
sample = record {
  correlation_id = 7;
  client_id = (97 ∷ 98 ∷ []);
  max_wait_time = 1500000000;
  min_bytes = 1;
  topics =
      (record {
        name = (97 ∷ 98 ∷ []);
        partitions = (record { id = 0; fetch_offset = 5; max_bytes = 1024 } ∷ []);
      }
        ∷ []);
}

pub sample-Fits : Fits sample
sample-Fits = record {
  correlation_id = omega arith;
  client_id = omega arith;
  max_wait_time = (refl, omega arith);
  min_bytes = omega arith;
  topics_count = omega arith;
  topics = (
    record {
      name = omega arith;
      partitions_count = omega arith;
      partitions =
          (record { id = omega arith; fetch_offset = omega arith; max_bytes = omega arith }, tt);
    },
    tt,
  );
}
