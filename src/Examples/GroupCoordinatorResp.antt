-- ===== src/Examples/GroupCoordinatorResp.antt =====
-- A GroupCoordinatorResp on the wire.
use kafka.Base.{[], ◌∷◌, arith, some}
use kafka.Wire.Errors.{kafka_error, err_request_timeout}
use kafka.Messages.GroupCoordinatorResp.{GroupCoordinatorResp}
use kafka.Messages.GroupCoordinatorResp.Layout.{Fits}
use kafka.Examples.{fits_request_timeout}

abbrev pub sample : GroupCoordinatorResp
sample = record {
  correlation_id = 7;
  err = some (kafka_error err_request_timeout);
  coordinator_id = 2;
  coordinator_host = (97 ∷ 98 ∷ []);
  coordinator_port = 9092;
}

pub sample-Fits : Fits sample
sample-Fits = record {
  correlation_id = omega arith;
  err = fits_request_timeout;
  coordinator_id = omega arith;
  coordinator_host = omega arith;
  coordinator_port = omega arith;
}
