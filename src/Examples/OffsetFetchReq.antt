-- ===== src/Examples/OffsetFetchReq.antt =====
-- A OffsetFetchReq on the wire.
use kafka.Base.{[], ◌∷◌, arith}
use kafka.Messages.OffsetFetchReq.{OffsetFetchReq}
use kafka.Messages.OffsetFetchReq.Layout.{Fits}

abbrev pub sample : OffsetFetchReq
sample = record {
  correlation_id = 7;
  client_id = (97 ∷ 98 ∷ []);
  consumer_group = (97 ∷ 98 ∷ []);
  topics = (record { name = (97 ∷ 98 ∷ []); partitions = (0 ∷ 4 ∷ []) } ∷ []);
}

pub sample-Fits : Fits sample
sample-Fits = record {
  correlation_id = omega arith;
  client_id = omega arith;
  consumer_group = omega arith;
  topics_count = omega arith;
  topics = (
    record {
      name = omega arith;
      partitions_count = omega arith;
      partitions = (omega arith, (omega arith, tt));
    },
    tt,
  );
}
