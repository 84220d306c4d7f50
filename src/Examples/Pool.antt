-- ===== src/Examples/Pool.antt =====
-- Connections that are made, given back, closed and found again.
use kafka.Base.{◌≡◌, ◌≤◌, ◌-◌, ◌^◌, refl, [], ◌∷◌, true, some, length, arith}
use kafka.Pool.Backend.{
  Backend, State, is_closed, keep_open, is_tracked, new_backend, get_new_connection,
  get_idle_connection, idle, idle_steps, idle_step, remove_connection, without, called, offering,
  no_room, close, num_open_connections,
}
use kafka.Pool.Limit.{
  World, Reachable, start, waited_for, idling, hung_up, open_connections-le_limit,
}
use kafka.Pool.Shutting.{first, rest, get_idle_connection-first, num_open_connections-idle_closed}

-- Two connections were made, the first of them is closed, and both wait in the channel.
abbrev two : Backend
two = record { connection_limit = 2; channel = 5 ∷ 6 ∷ []; conns = 5 ∷ 6 ∷ []; counter = 2 }

abbrev world : World
world = record {
  state = record { backend = two; closed = 5 ∷ [] };
  made = 5 ∷ 6 ∷ [];
  gone = 5 ∷ [];
}

world-Reachable : Reachable 2 world
unfolding new_backend get_new_connection idle_step is_closed
world-Reachable = hung_up 5 (
    idling offering 6 tt (
      idling called 6 tt (
        idling offering 5 tt
          (idling called 5 tt (waited_for (some 6) (waited_for (some 5) start))))))

open_connections-le_limit_example :
    (length (keep_open world.gone world.made) ≤ num_open_connections world.state.backend)
    × (num_open_connections world.state.backend ≤ 2)
open_connections-le_limit_example = open_connections-le_limit 2 world (omega arith) world-Reachable

get_idle_connection-first_example :
    ((get_idle_connection (5 ∷ []) two).0 ≡ first (keep_open (5 ∷ []) two.channel))
    × (keep_open (5 ∷ []) (get_idle_connection (5 ∷ []) two).1.channel
        ≡ rest (keep_open (5 ∷ []) two.channel))
get_idle_connection-first_example = get_idle_connection-first (5 ∷ []) two

second_is_tracked : is_tracked 6 two.conns ≡ true
unfolding is_tracked
second_is_tracked = refl

num_open_connections-idle_closed_example :
    num_open_connections (idle 6 (close (record { backend = two; closed = 5 ∷ [] }))).backend
    ≡ 2 ^ 64 - 1
num_open_connections-idle_closed_example =
    num_open_connections-idle_closed 6 (record { backend = two; closed = 5 ∷ [] }) second_is_tracked

-- One connection at most: it is closed while it waits in the channel, another is made in its place at
-- the end of a wait, and finds no room when it is given back.
abbrev replaced : State
replaced = record {
  backend = record { connection_limit = 1; channel = 5 ∷ []; conns = 6 ∷ []; counter = 1 };
  closed = 5 ∷ [];
}

replaced-Reachable : Reachable 1 (record { state = replaced; made = 5 ∷ 6 ∷ []; gone = 5 ∷ [] })
unfolding new_backend get_new_connection idle_step is_closed
replaced-Reachable =
    waited_for (some 6)
      (hung_up 5 (idling offering 5 tt (idling called 5 tt (waited_for (some 5) start))))

-- Idle takes it out of the list before it closes it: in between another one is made, and two are open.
abbrev two_open : State
two_open = record {
  backend = record { connection_limit = 1; channel = 5 ∷ []; conns = 7 ∷ []; counter = 1 };
  closed = 5 ∷ [];
}

two_open-Reachable :
    Reachable 1 (record { state = two_open; made = 5 ∷ 6 ∷ 7 ∷ []; gone = 6 ∷ 5 ∷ [] })
unfolding new_backend get_new_connection idle_step is_closed remove_connection without is_tracked
two_open-Reachable =
    waited_for (some 7) (idling no_room 6 tt (idling offering 6 tt replaced-Reachable))

replaced_closes_an_open_connection : (idle 6 replaced).closed ≡ 6 ∷ 5 ∷ []
unfolding idle idle_steps idle_step
replaced_closes_an_open_connection = refl
