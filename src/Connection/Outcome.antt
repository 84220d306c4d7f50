-- ===== src/Connection/Outcome.antt =====
-- What the calls of connection.go and broker.go return: a value, or one of the errors they make or pass on.
use kafka.Base.{ℕ, Bool, true, false, ◌||◌}
use kafka.Wire.Errors.{Error, eof, io_error}
use kafka.Wire.Decoder.{Result, ok, failed}

pub data Failure : Type 0 where
  -- an error of the package proto, or one that it passed on from the connection
  passed_on : Error → Failure
  -- "got unexpected correlation ID", with the one that came and the one that was sent
  unexpected_correlation_id : (got sent : ℕ) → Failure
  -- NoConnectionsAvailable
  no_connections_available : Failure
  -- what dialling returned, and the error of a pool that has no backend for an address
  dial_error no_backend : Failure
  -- the errors.New of broker.go, told apart by their texts
  unknown_broker_id programmer_error incomplete_response no_broker_reached : Failure
  -- "invalid start offset" and "cannot commit negative offset"
  invalid_start_offset negative_offset : ℕ → Failure

pub data Outcome (A : Type 0) : Type 0 where
  returned : A → Outcome A
  refused : Failure → Outcome A

abbrev pub outcome_of : {A : Type 0} → Result A → Outcome A
outcome_of (ok a) = returned a
outcome_of (failed e) = refused (passed_on e)

-- Which of the errors that come from a connection are a *net.OpError, and which are syscall.EPIPE.
pub record NetworkErrors : Type 0 where
  pub is_op_error : ℕ → Bool
  pub is_epipe : ℕ → Bool

-- `err == io.EOF || err == syscall.EPIPE`
abbrev pub is_hung_up : NetworkErrors → Failure → Bool
is_hung_up net (passed_on eof) = true
is_hung_up net (passed_on (io_error n)) = net.is_epipe n
is_hung_up net _ = false

-- `_, ok := err.(*net.OpError); ok || err == io.EOF || err == syscall.EPIPE`
abbrev pub is_dead : NetworkErrors → Failure → Bool
is_dead net (passed_on eof) = true
is_dead net (passed_on (io_error n)) = net.is_op_error n || net.is_epipe n
is_dead net _ = false
