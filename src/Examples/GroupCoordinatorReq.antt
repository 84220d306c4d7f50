-- ===== src/Examples/GroupCoordinatorReq.antt =====
-- A GroupCoordinatorReq on the wire.
use kafka.Base.{[], ◌∷◌, arith}
use kafka.Messages.GroupCoordinatorReq.{GroupCoordinatorReq}
use kafka.Messages.GroupCoordinatorReq.Layout.{Fits}

abbrev pub sample : GroupCoordinatorReq
sample = record { correlation_id = 7; client_id = (97 ∷ 98 ∷ []); consumer_group = (97 ∷ 98 ∷ []) }

pub sample-Fits : Fits sample
sample-Fits = record {
  correlation_id = omega arith;
  client_id = omega arith;
  consumer_group = omega arith;
}
