-- ===== src/Pool/Limit.antt =====
-- How many connections a backend of connection_pool.go has open, over everything that can happen.
use kafka.Base.{ℕ, ◌^◌, ◌≤◌, ◌<◌, refl, List, [], ◌∷◌, Option, length, arith}
use kafka.Pool.Backend.{
  Backend, State, new_backend, keep_open, get_idle_connection, get_new_connection,
  num_open_connections, dial_timeout, idle_arrived, wake_once, IdleAt, idle_step,
}
use kafka.Pool.Tracking.{length-keep_open}
use kafka.Pool.Kept.{
  Kept, made_by, receive-Kept, take_idle-Kept, get_new-Kept, in_channel, idle_step-Kept,
  hung_up-Kept, gone_by, StandsAt,
}

-- The backend, which connections are closed, and all the connections it ever made. The gone ones are the
-- closed ones and those that a call of Idle has taken out of the list, for want of room, and closes next.
pub record World : Type 0 where
  pub state : State
  pub made : List ℕ
  pub gone : List ℕ

abbrev with_backend : World → Backend → World
with_backend w b = record w { state = record w.state { backend = b } }

abbrev after_dial : World → Option ℕ → World
after_dial w dialled =
    let (answer, b) = get_new_connection dialled w.state.closed w.state.backend in
    record w { state = record w.state { backend = b }; made = made_by answer w.made }

abbrev with_idle : World → IdleAt → ℕ → World
with_idle w at conn = record w {
  state = (idle_step at conn w.state).1;
  gone = gone_by at conn w.gone;
}

-- What can happen to a backend before it is shut, in any order: the calls of its methods, where those of
-- Idle go step by step, with anything between their steps, and so do the receptions of GetIdleConnection
-- and GetConnection and the removals that follow them; and a connection that its user or its broker closes.
pub data Reachable (limit : ℕ) : World → Type 0 where
  start :
      Reachable limit (record {
        state = record { backend = new_backend limit; closed = [] };
        made = [];
        gone = [];
      })
  got_idle :
      {w : World}
      → Reachable limit w
      → Reachable limit (with_backend w (get_idle_connection w.state.closed w.state.backend).1)
  timed_out :
      {w : World}
      → Reachable limit w
      → Reachable limit (with_backend w (wake_once dial_timeout w.state.closed w.state.backend).1)
  received :
      {w : World}
      → Reachable limit w
      → Reachable limit (with_backend w (wake_once idle_arrived w.state.closed w.state.backend).1)
  waited_for :
      {w : World} (dialled : Option ℕ) → Reachable limit w → Reachable limit (after_dial w dialled)
  -- what a reception from the channel leaves, by itself; the removal of a closed connection that follows it
  -- is the step of Idle at `shut`
  taken :
      {w : World} (channel : List ℕ)
      → Reachable limit w
      → Reachable limit (with_backend w (record w.state.backend { channel = channel }))
  idling :
      {w : World} (at : IdleAt) (conn : ℕ)
      → StandsAt w.state.closed conn at
      → Reachable limit w
      → Reachable limit (with_idle w at conn)
  hung_up :
      {w : World} (conn : ℕ)
      → Reachable limit w
      → Reachable limit (record w {
        state = record w.state { closed = conn ∷ w.state.closed };
        gone = conn ∷ w.gone;
      })

pub Reachable-Kept :
    (limit : ℕ) (w : World)
    → limit < 2 ^ 63
    → Reachable limit w
    → Kept limit w.state.closed w.gone w.made w.state.backend
unfolding new_backend wake_once get_idle_connection
Reachable-Kept limit w small start = record {
  capacity = refl;
  counter = refl;
  limited = omega arith;
  tracked = refl;
  closed_gone = λ c h. h;
}
Reachable-Kept limit w small (got_idle {w = v} r) =
    receive-Kept limit v.state.closed v.gone v.made small v.state.backend.channel v.state.backend
      (Reachable-Kept limit v small r)
Reachable-Kept limit w small (timed_out {w = v} r) = Reachable-Kept limit v small r
Reachable-Kept limit w small (received {w = v} r) =
    take_idle-Kept limit v.state.closed v.gone v.made small v.state.backend.channel v.state.backend
      (Reachable-Kept limit v small r)
Reachable-Kept limit w small (waited_for {w = v} dialled r) =
    get_new-Kept limit v.state.closed v.gone v.made small dialled v.state.backend
      (Reachable-Kept limit v small r)
Reachable-Kept limit w small (taken {w = v} channel r) =
    in_channel limit v.state.closed v.gone v.made small channel v.state.backend
      (Reachable-Kept limit v small r)
Reachable-Kept limit w small (idling {w = v} at conn stands r) =
    idle_step-Kept limit v.state.closed v.gone v.made at conn v.state.backend small stands
      (Reachable-Kept limit v small r)
Reachable-Kept limit w small (hung_up {w = v} conn r) =
    hung_up-Kept limit v.state.closed v.gone v.made conn v.state.backend
      (Reachable-Kept limit v small r)

-- Whatever happens to a backend that is not shut, with a limit below 2 ^ 63 and with the steps of any calls
-- of Idle interleaved: of all the connections that it ever made, never more than its limit are open,
-- unless a call of Idle found no room for them and is about to close them. NumOpenConnections is at least
-- the number of the others that are open, and at most the limit.
pub open_connections-le_limit :
    (limit : ℕ) (w : World)
    → limit < 2 ^ 63
    → Reachable limit w
    → (length (keep_open w.gone w.made) ≤ num_open_connections w.state.backend)
      × (num_open_connections w.state.backend ≤ limit)
unfolding num_open_connections
open_connections-le_limit limit w small r =
    let k = Reachable-Kept limit w small r in
    let count = length-keep_open w.gone w.state.backend.conns in
    (rw k.tracked (omega (arith, k.counter, count)), omega (arith, k.counter, k.limited))
