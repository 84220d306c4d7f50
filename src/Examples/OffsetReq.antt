-- ===== src/Examples/OffsetReq.antt =====
-- A OffsetReq on the wire.
use kafka.Base.{[], ◌∷◌, arith}
use kafka.Messages.OffsetReq.{OffsetReq}
use kafka.Messages.OffsetReq.Layout.{Fits}

abbrev pub sample : OffsetReq
sample = record {
  correlation_id = 7;
  client_id = (97 ∷ 98 ∷ []);
  replica_id = 4294967295;
  topics =
      (record {
        name = (97 ∷ 98 ∷ []);
        partitions = (record { id = 0; time_ms = 18446744073709551615; max_offsets = 2 } ∷ []);
      }
        ∷ []);
}

pub sample-Fits : Fits sample
sample-Fits = record {
  correlation_id = omega arith;
  client_id = omega arith;
  replica_id = omega arith;
  topics_count = omega arith;
  topics = (
    record {
      name = omega arith;
      partitions_count = omega arith;
      partitions =
          (record { id = omega arith; time_ms = omega arith; max_offsets = omega arith }, tt);
    },
    tt,
  );
}
