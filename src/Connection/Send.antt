-- ===== src/Connection/Send.antt =====
-- Close, sendRequestHelper and sendRequest of connection.go. What the connection is still to read is given,
-- as are the numbers that Int31 is still to return.
use kafka.Base.{ℕ, suc, List, none, some, Bool, true, false, ◌==◌, if◌then◌else◌}
use kafka.Base.Program.{Exec, done, then_exec}
use kafka.Wire.Errors.{kafka_error, err_request_timeout, eof}
use kafka.Wire.Source.{Source}
use kafka.Wire.Decoder.{Result, ok, failed}
use kafka.Wire.Encoder.{Written}
use kafka.Messages.Envelope.{Envelope, read_resp}
use kafka.Connection.Outcome.{
  Outcome, returned, refused, passed_on, unexpected_correlation_id, outcome_of,
}

-- `socket` is what is written to, `closes` how often its Close was called.
pub record Connection (W : Type 0) : Type 0 where
  pub socket : W
  pub rd : Source
  pub rnd : ℕ → ℕ
  pub closed : Bool
  pub closes : ℕ

abbrev pub Call : Type 0 → Type 0 → Type 0
Call W A = Connection W → Exec (Outcome A × Connection W)

module _ {W : Type 0} where
  -- The swap closes the transport for the first caller only.
  unfoldable pub close : Connection W → Connection W
  close c = if c.closed then c else record c { closed = true; closes = suc c.closes }

  unfoldable pub checked : ℕ → Envelope → Connection W → Outcome (List ℕ) × Connection W
  unfolding close
  checked req_id (failed e, rd) c = (refused (passed_on e), record c { rd = rd })
  checked req_id (ok (correlation_id, b), rd) c =
      let after = record c { rd = rd } in
      if correlation_id == req_id
      then (returned b, after)
      else (refused (unexpected_correlation_id correlation_id req_id), close after)

  abbrev pub respond : ℕ → Written W → Call W (List ℕ)
  respond req_id written c = elim written.err [
    | some e ↦ done (refused (passed_on e), record c { socket = written.writer })
    | none ↦
        then_exec (read_resp c.rd)
          λ envelope. done (checked req_id envelope (record c { socket = written.writer }))
  ]

  unfoldable pub send_request_helper : (W → Exec (Written W)) → ℕ → Call W (List ℕ)
  unfolding checked read_resp
  send_request_helper send req_id c = then_exec (send c.socket) λ written. respond req_id written c

  -- An error closes the connection.
  abbrev pub close_on_error : Outcome (List ℕ) × Connection W → Outcome (List ℕ) × Connection W
  close_on_error (returned b, c) = (returned b, c)
  close_on_error (refused f, c) = (refused f, close c)

  -- What the helper still does after the time-out concerns a closed connection, and is left out.
  unfoldable pub send_request : Bool → (W → Exec (Written W)) → ℕ → Call W (List ℕ)
  unfolding close send_request_helper
  send_request true send req_id c =
      done (refused (passed_on (kafka_error err_request_timeout)), close c)
  send_request false send req_id c =
      then_exec (send_request_helper send req_id c) λ answer. done (close_on_error answer)

  -- `if req.CorrelationID == 0 { req.CorrelationID = c.rnd.Int31() }`
  unfoldable pub correlate : ℕ → Connection W → ℕ × Connection W
  correlate id c = (
    if id == 0 then c.rnd 0 else id,
    record c { rnd = if id == 0 then (λ i. c.rnd (suc i)) else c.rnd },
  )

  -- The Read function of the response, on the bytes of a response.
  abbrev pub parse : {R : Type 0} → (Source → Exec (Result R)) → Outcome (List ℕ) → Call W R
  parse read (refused f) c = done (refused f, c)
  parse read (returned b) c =
      then_exec (read (record { bytes = b; ending = eof })) λ r. done (outcome_of r, c)
