-- ===== src/Connection/Answers.antt =====
-- The responses that the requests of connection.go get, and the errors that close the connection.
use kafka.Base.{
  ℕ, ◌+◌, ◌^◌, ◌<◌, ◌≡◌, refl, ap, List, ◌++◌, none, Bool, true, false, ◌==◌, length, arith,
  Bool-cases, inl, inr,
}
use kafka.Base.Program.{Exec, done, panic, out_of_fuel, then_exec}
use kafka.Wire.BigEndian.{put_uint32}
use kafka.Wire.Errors.{Error}
use kafka.Wire.Encoder.{Written}
use kafka.Messages.Frame.{frame}
use kafka.MessageSet.ReadLaws.{source_of}
use kafka.Messages.Envelope.Laws.{read_resp-frame}
use kafka.Connection.Outcome.{Outcome, returned, refused, unexpected_correlation_id}
use kafka.Connection.Send.{
  Connection, close, checked, send_request_helper, close_on_error, send_request,
}

-- The property of what a call that ends returns.
abbrev pub IfDone : {A : Type 0} → (A → Type 0) → Exec A → Type 0
IfDone P (done a) = P a
IfDone P _ = Unit

module _ {W : Type 0} where
  -- Closing twice closes the transport once.
  close_twice : (c : Connection W) → close (close c) ≡ close c
  unfolding close
  close_twice c = elim (Bool-cases c.closed) [ inl h ↦ rw h refl | inr h ↦ rw h refl ]

  closed-close : (c : Connection W) → (close c).closed ≡ true
  unfolding close
  closed-close c = elim (Bool-cases c.closed) [ inl h ↦ rw h refl | inr h ↦ rw h refl ]

  -- What a request is answered with, where it is written and a response to it stands next on the stream.
  pub send_request_lem :
      (send : W → Exec (Written W)) (id count : ℕ) (payload rest : List ℕ) (ending : Error) (w : W)
      (c : Connection W)
      → send c.socket ≡ done (record { count = count; err = none; writer = w })
      → c.rd ≡ source_of (frame (put_uint32 id ++ payload) ++ rest) ending
      → id < 2 ^ 32
      → length payload + 8 < 2 ^ 31
      → send_request false send id c
        ≡ done (
          returned (frame (put_uint32 id ++ payload)),
          record c { socket = w; rd = source_of rest ending },
        )
  unfolding send_request send_request_helper checked
  send_request_lem send id count payload rest ending w c written stream small fits =
      let same : (id == id) ≡ true = ground arith in
      rw (written, stream, read_resp-frame id payload rest ending small fits, same) refl

  -- A response with another id.
  pub send_request_mismatch :
      (send : W → Exec (Written W)) (id other count : ℕ) (payload rest : List ℕ) (ending : Error)
      (w : W) (c : Connection W)
      → send c.socket ≡ done (record { count = count; err = none; writer = w })
      → c.rd ≡ source_of (frame (put_uint32 other ++ payload) ++ rest) ending
      → other < 2 ^ 32
      → length payload + 8 < 2 ^ 31
      → (other == id) ≡ false
      → send_request false send id c
        ≡ done (
          refused (unexpected_correlation_id other id),
          close (record c { socket = w; rd = source_of rest ending }),
        )
  unfolding send_request send_request_helper checked close
  send_request_mismatch send id other count payload rest ending w c written stream small fits
        differ =
      rw (written, stream, read_resp-frame other payload rest ending small fits, differ)
        (ap (λ (after : Connection W). done (refused (unexpected_correlation_id other id), after))
          (close_twice (record c { socket = w; rd = source_of rest ending })))

  -- What is refused leaves a connection that is closed.
  abbrev pub ClosedIfRefused : {A : Type 0} → Outcome A × Connection W → Type 0
  ClosedIfRefused (returned a, c) = Unit
  ClosedIfRefused (refused f, c) = c.closed ≡ true

  close_on_error-Closed :
      (answer : Outcome (List ℕ) × Connection W) → ClosedIfRefused (close_on_error answer)
  close_on_error-Closed (returned b, c) = tt
  close_on_error-Closed (refused f, c) = closed-close c

  closed_after :
      (called : Exec (Outcome (List ℕ) × Connection W))
      → IfDone ClosedIfRefused (then_exec called λ answer. done (close_on_error answer))
  closed_after (done answer) = close_on_error-Closed answer
  closed_after panic = tt
  closed_after out_of_fuel = tt

  -- sendRequest leaves the connection closed whenever it returns an error: of the request's writer, of
  -- the response's reader, for a response with another correlation id, and at the time-out.
  pub send_request-Closed :
      (timed_out : Bool) (send : W → Exec (Written W)) (id : ℕ) (c : Connection W)
      → IfDone ClosedIfRefused (send_request timed_out send id c)
  unfolding send_request
  send_request-Closed true send id c = closed-close c
  send_request-Closed false send id c = closed_after (send_request_helper send id c)
