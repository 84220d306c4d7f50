-- ===== src/Pool/Backend.antt =====
-- The backend of connection_pool.go. A connection is known by a number, and its IsClosed by a list of
-- the closed ones. What holds the mutex is one step; `int` is its 64 bits.
use kafka.Base.{
  ℕ, zero, suc, ◌+◌, ◌-◌, ◌%◌, ◌^◌, List, [], ◌∷◌, ◌++◌, Option, none, some, Bool, false, ◌||◌,
  ◌&&◌, ◌==◌, ltb, leb, length, if◌then◌else◌,
}
use kafka.Wire.BigEndian.{is_negative64}

pub record Backend : Type 0 where
  -- conf.ConnectionLimit, which is the capacity of the channel too
  pub connection_limit : ℕ
  pub channel : List ℕ
  pub conns : List ℕ
  pub counter : ℕ

pub record State : Type 0 where
  pub backend : Backend
  pub closed : List ℕ

unfoldable pub is_closed : List ℕ → ℕ → Bool
is_closed [] conn = false
is_closed (c ∷ closed) conn = c == conn || is_closed closed conn

unfoldable pub new_backend : ℕ → Backend
new_backend limit = record { connection_limit = limit; channel = []; conns = []; counter = 0 }

abbrev pub int_pred : ℕ → ℕ
int_pred n = (n + (2 ^ 64 - 1)) % 2 ^ 64

abbrev pub int_suc : ℕ → ℕ
int_suc n = (n + 1) % 2 ^ 64

-- `a >= b` on int.
abbrev pub int_ge : ℕ → ℕ → Bool
int_ge a b = if is_negative64 a then is_negative64 b && leb b a else is_negative64 b || leb b a

-- The search of removeConnection: the first match goes, and the count with it.
unfoldable pub without : ℕ → List ℕ → List ℕ
without conn [] = []
without conn (c ∷ conns) = if c == conn then conns else c ∷ without conn conns

unfoldable pub is_tracked : ℕ → List ℕ → Bool
is_tracked conn [] = false
is_tracked conn (c ∷ conns) = c == conn || is_tracked conn conns

unfoldable pub remove_connection : ℕ → Backend → Backend
remove_connection conn b =
    if is_tracked conn b.conns
    then record b { conns = without conn b.conns; counter = int_pred b.counter }
    else b

-- The connections that are not closed, in order: the loop of getNewConnection.
unfoldable pub keep_open : List ℕ → List ℕ → List ℕ
keep_open closed [] = []
keep_open closed (c ∷ conns) =
    if is_closed closed c then keep_open closed conns else c ∷ keep_open closed conns

-- What getNewConnection and GetConnection answer.
pub data Answer : Type 0 where
  connected : ℕ → Answer
  dial_failed no_connections_available : Answer

-- `newTCPConnection`, whose outcome is given: the new connection, or an error.
unfoldable pub dial : Option ℕ → Backend → Option Answer × Backend
dial none b = (some dial_failed, b)
dial (some conn) b = (
  some (connected conn),
  record b { conns = b.conns ++ (conn ∷ []); counter = int_suc b.counter },
)

-- `none` is the answer `nil, nil`: the limit is reached.
unfoldable pub get_new_connection : Option ℕ → List ℕ → Backend → Option Answer × Backend
unfolding dial keep_open
get_new_connection dialled closed b =
    let new_conns = keep_open closed b.conns in
    if int_ge b.counter b.connection_limit
    then if length new_conns == b.counter
      then (none, b)
      else dial dialled (record b { conns = new_conns; counter = length new_conns })
    else dial dialled b

-- GetIdleConnection's loop over what the channel holds.
unfoldable pub receive_idle : List ℕ → List ℕ → Backend → Option ℕ × Backend
unfolding is_closed remove_connection
receive_idle closed [] b = (none, record b { channel = [] })
receive_idle closed (conn ∷ channel) b =
    let more = receive_idle closed channel (remove_connection conn b) in
    if is_closed closed conn then more else (some conn, record b { channel = channel })

unfoldable pub get_idle_connection : List ℕ → Backend → Option ℕ × Backend
unfolding receive_idle
get_idle_connection closed b = receive_idle closed b.channel b

-- What wakes the select of GetConnection: the dial timeout, a connection in the channel, or the end
-- of a wait, with the outcome of the dial that may follow.
pub data Wake : Type 0 where
  dial_timeout idle_arrived : Wake
  waited : Option ℕ → Wake

-- The case of a received connection; an empty channel wakes nobody.
unfoldable pub take_idle : List ℕ → List ℕ → Backend → Option Answer × Backend
unfolding is_closed remove_connection
take_idle closed [] b = (none, b)
take_idle closed (conn ∷ channel) b =
    let rest = record b { channel = channel } in
    if is_closed closed conn
    then (none, remove_connection conn rest)
    else (some (connected conn), rest)

-- One round of GetConnection's loop; `none` goes round again.
unfoldable pub wake_once : Wake → List ℕ → Backend → Option Answer × Backend
unfolding take_idle get_new_connection
wake_once dial_timeout closed b = (some no_connections_available, b)
wake_once idle_arrived closed b = take_idle closed b.channel b
wake_once (waited dialled) closed b = get_new_connection dialled closed b

-- GetConnection over what wakes it in turn; `none` while it still waits.
unfoldable pub get_connection : List Wake → List ℕ → Backend → Option Answer × Backend
unfolding wake_once
get_connection [] closed b = (none, b)
get_connection (wake ∷ wakes) closed b =
    let (answer, after) = wake_once wake closed b in
    elim answer [ some a ↦ (some a, after) | none ↦ get_connection wakes closed after ]

-- Idle holds no lock across its steps: where a call of it stands.
pub data IdleAt : Type 0 where
  called shut offering no_room uncounted ended : IdleAt

-- One step of Idle: IsClosed, removeConnection of a closed connection, the select on the channel, and,
-- where that has no room, removeConnection and Close.
unfoldable pub idle_step : IdleAt → ℕ → State → IdleAt × State
unfolding is_closed remove_connection
idle_step called conn s = (if is_closed s.closed conn then shut else offering, s)
idle_step shut conn s = (ended, record s { backend = remove_connection conn s.backend })
idle_step offering conn s =
    if ltb (length s.backend.channel) s.backend.connection_limit
    then (
      ended,
      record s { backend = record s.backend { channel = s.backend.channel ++ (conn ∷ []) } },
    )
    else (no_room, s)
idle_step no_room conn s = (uncounted, record s { backend = remove_connection conn s.backend })
idle_step uncounted conn s = (ended, record s { closed = conn ∷ s.closed })
idle_step ended conn s = (ended, s)

unfoldable pub idle_steps : ℕ → IdleAt → ℕ → State → State
unfolding idle_step
idle_steps zero at conn s = s
idle_steps (suc n) at conn s =
    let (next, after) = idle_step at conn s in idle_steps n next conn after

-- Idle where nothing else happens between its steps, of which it has four at most.
unfoldable pub idle : ℕ → State → State
unfolding idle_steps
idle conn s = idle_steps 4 called conn s

unfoldable pub num_open_connections : Backend → ℕ
num_open_connections b = b.counter

-- Close closes every connection and resets the count, but keeps the list.
unfoldable pub close : State → State
close s = record {
  backend = record s.backend { counter = 0 };
  closed = s.backend.conns ++ s.closed;
}
