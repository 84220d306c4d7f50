-- ===== src/Examples/OffsetCommitReq.antt =====
-- A OffsetCommitReq on the wire.
use kafka.Base.{[], ◌∷◌, arith}
use kafka.Messages.OffsetCommitReq.{OffsetCommitReq}
use kafka.Messages.OffsetCommitReq.Layout.{Fits}

abbrev pub sample : OffsetCommitReq
sample = record {
  correlation_id = 7;
  client_id = (97 ∷ 98 ∷ []);
  consumer_group = (97 ∷ 98 ∷ []);
  topics =
      (record {
        name = (97 ∷ 98 ∷ []);
        partitions =
            (record { id = 0; offset = 42; time_stamp = 0; metadata = (97 ∷ 98 ∷ []) } ∷ []);
      }
        ∷ []);
}

pub sample-Fits : Fits sample
sample-Fits = record {
  correlation_id = omega arith;
  client_id = omega arith;
  consumer_group = omega arith;
  topics_count = omega arith;
  topics = (
    record {
      name = omega arith;
      partitions_count = omega arith;
      partitions = (record { id = omega arith; offset = omega arith; metadata = omega arith }, tt);
    },
    tt,
  );
}
