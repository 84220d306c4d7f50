-- ===== src/Examples/MetadataReq.antt =====
-- A MetadataReq on the wire.
use kafka.Base.{[], ◌∷◌, arith}
use kafka.Messages.MetadataReq.{MetadataReq}
use kafka.Messages.MetadataReq.Layout.{Fits}

abbrev pub sample : MetadataReq
sample = record {
  correlation_id = 7;
  client_id = (97 ∷ 98 ∷ []);
  topics = ((97 ∷ 98 ∷ []) ∷ [] ∷ []);
}

pub sample-Fits : Fits sample
sample-Fits = record {
  correlation_id = omega arith;
  client_id = omega arith;
  topics_count = omega arith;
  topics = (omega arith, (omega arith, tt));
}
