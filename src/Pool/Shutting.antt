-- ===== src/Pool/Shutting.antt =====
-- GetIdleConnection and Close of connection_pool.go.
use kafka.Base.{
  ℕ, ◌-◌, ◌^◌, ◌≡◌, refl, List, [], ◌∷◌, ◌++◌, Option, none, some, true, ap, Bool, if◌then◌else◌,
  arith, Bool-cases, inl, inr,
}
use kafka.Pool.Backend.{
  Backend, State, is_closed, keep_open, is_tracked, remove_connection, receive_idle,
  get_idle_connection, num_open_connections, close, idle, idle_steps, idle_step, shut, offering,
}

-- The first of a list, and the rest.
abbrev pub first : List ℕ → Option ℕ
first [] = none
first (x ∷ xs) = some x

abbrev pub rest : List ℕ → List ℕ
rest [] = []
rest (x ∷ xs) = xs

receive_idle-first :
    (closed channel : List ℕ) (b : Backend)
    → ((receive_idle closed channel b).0 ≡ first (keep_open closed channel))
      × (keep_open closed (receive_idle closed channel b).1.channel
          ≡ rest (keep_open closed channel))
unfolding receive_idle keep_open
receive_idle-first closed [] b = (refl, refl)
receive_idle-first closed (conn ∷ channel) b = elim (Bool-cases (is_closed closed conn)) [
  | inl e ↦ rw e (receive_idle-first closed channel (remove_connection conn b))
  | inr e ↦ rw e (refl, refl)
]

-- GetIdleConnection returns the connection that waited longest of those in the channel that are open,
-- and nil if there is none; the open ones behind it stay in the channel, in their order.
pub get_idle_connection-first :
    (closed : List ℕ) (b : Backend)
    → let (conn, after) = get_idle_connection closed b in
      (conn ≡ first (keep_open closed b.channel))
      × (keep_open closed after.channel ≡ rest (keep_open closed b.channel))
unfolding get_idle_connection
get_idle_connection-first closed b = receive_idle-first closed b.channel b

pub is_closed-of_tracked :
    (conn : ℕ) (conns closed : List ℕ)
    → is_tracked conn conns ≡ true
    → is_closed (conns ++ closed) conn ≡ true
unfolding is_closed is_tracked
is_closed-of_tracked conn [] closed h = cc
is_closed-of_tracked conn (c ∷ conns) closed h =
    ground (arith, is_closed-of_tracked conn conns closed)

-- Idle of a closed connection forgets it.
idle-closed :
    (conn : ℕ) (s : State)
    → is_closed s.closed conn ≡ true
    → idle conn s ≡ record s { backend = remove_connection conn s.backend }
unfolding idle idle_steps idle_step
idle-closed conn s h = ap (λ (b : Bool). idle_steps 3 (if b then shut else offering) conn s) h

-- After Close, a connection of the backend that is given back makes the count of open connections
-- -1: Close resets the count and leaves the list that removeConnection counts down by.
pub num_open_connections-idle_closed :
    (conn : ℕ) (s : State)
    → is_tracked conn s.backend.conns ≡ true
    → num_open_connections (idle conn (close s)).backend ≡ 2 ^ 64 - 1
unfolding num_open_connections close remove_connection
num_open_connections-idle_closed conn s h =
    rw (idle-closed conn (close s) (is_closed-of_tracked conn s.backend.conns s.closed h), h) refl
