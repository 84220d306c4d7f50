-- ===== src/Pool/Addresses.antt =====
-- The connectionPool of connection_pool.go: a backend for each address that may be connected to.
use kafka.Base.{ℕ, List, [], ◌∷◌, Option, none, some, Bool, false, ◌||◌, if◌then◌else◌}
use kafka.Base.Maps.{string_same, string_eq, Map, lookup, delete, assign}
use kafka.Pool.Backend.{
  Backend, new_backend, Answer, Wake, get_connection, get_idle_connection, idle, close,
}

-- The field of `conf` that the pool uses, the map, and which connections are closed.
pub record ConnectionPool : Type 0 where
  pub connection_limit : ℕ
  pub backends : Map (List ℕ) Backend
  pub closed : List ℕ

unfoldable pub contains : List ℕ → List (List ℕ) → Bool
contains addr [] = false
contains addr (a ∷ addrs) = string_same a addr || contains addr addrs

-- The keys that are not among `addrs`: what is left of `deletedAddrs`.
unfoldable pub deleted_addrs : List (List ℕ) → Map (List ℕ) Backend → List (List ℕ)
deleted_addrs addrs [] = []
deleted_addrs addrs (e ∷ m) =
    let rest = deleted_addrs addrs m in if contains e.0 addrs then rest else e.0 ∷ rest

unfoldable pub add_if_new :
    ℕ → List ℕ → Option Backend → Map (List ℕ) Backend → Map (List ℕ) Backend
add_if_new limit addr none m = assign addr (new_backend limit) m
add_if_new limit addr (some _) m = m

unfoldable pub add_addrs : ℕ → List (List ℕ) → Map (List ℕ) Backend → Map (List ℕ) Backend
unfolding add_if_new
add_addrs limit [] m = m
add_addrs limit (addr ∷ addrs) m = add_addrs limit addrs (add_if_new limit addr (lookup addr m) m)

unfoldable pub close_backend : List ℕ → Option Backend → ConnectionPool → ConnectionPool
close_backend addr none cp = cp
close_backend addr (some b) cp = record cp {
  backends = delete addr cp.backends;
  closed = (close (record { backend = b; closed = cp.closed })).closed;
}

unfoldable pub remove_addrs : List (List ℕ) → ConnectionPool → ConnectionPool
unfolding close_backend
remove_addrs [] cp = cp
remove_addrs (addr ∷ addrs) cp =
    remove_addrs addrs (close_backend addr (lookup addr cp.backends) cp)

unfoldable pub initialize_addrs : List (List ℕ) → ConnectionPool → ConnectionPool
unfolding deleted_addrs add_addrs remove_addrs
initialize_addrs addrs cp =
    remove_addrs (deleted_addrs addrs cp.backends)
      (record cp { backends = add_addrs cp.connection_limit addrs cp.backends })

unfoldable pub new_connection_pool : ℕ → List (List ℕ) → ConnectionPool
unfolding initialize_addrs
new_connection_pool limit nodes =
    initialize_addrs nodes (record { connection_limit = limit; backends = []; closed = [] })

unfoldable pub get_backend : List ℕ → ConnectionPool → Option Backend
get_backend addr cp = lookup addr cp.backends

abbrev pub set_backend : List ℕ → Backend → ConnectionPool → ConnectionPool
set_backend addr b cp = record cp { backends = assign addr b cp.backends }

-- GetConnectionByAddr with what wakes the wait; the outer `none` is the error "no backend for addr".
unfoldable pub get_connection_by_addr :
    List ℕ → List Wake → ConnectionPool → Option (Option Answer) × ConnectionPool
get_connection_by_addr addr wakes cp = elim (lookup addr cp.backends) [
  | none ↦ (none, cp)
  | some b ↦
      let (answer, after) = get_connection wakes cp.closed b in
      (some answer, set_backend addr after cp)
]

-- GetIdleConnection, with the addresses in the order in which they are tried.
unfoldable pub pool_idle_connection : List (List ℕ) → ConnectionPool → Option ℕ × ConnectionPool
pool_idle_connection [] cp = (none, cp)
pool_idle_connection (addr ∷ addrs) cp = elim (lookup addr cp.backends) [
  | none ↦ pool_idle_connection addrs cp
  | some b ↦
      let (conn, after) = get_idle_connection cp.closed b in
      elim conn [
        | some c ↦ (some c, set_backend addr after cp)
        | none ↦ pool_idle_connection addrs (set_backend addr after cp)
      ]
]

-- Idle of the pool, for a connection to an address; nil is left alone by the callers.
unfoldable pub pool_idle : ℕ → List ℕ → ConnectionPool → ConnectionPool
pool_idle conn addr cp = elim (lookup addr cp.backends) [
  | none ↦ record cp { closed = conn ∷ cp.closed }
  | some b ↦
      let s = idle conn (record { backend = b; closed = cp.closed }) in
      record cp { backends = assign addr s.backend cp.backends; closed = s.closed }
]
