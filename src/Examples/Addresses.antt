-- ===== src/Examples/Addresses.antt =====
-- A pool whose addresses change.
use kafka.Base.{◌≡◌, refl, [], ◌∷◌, some, true, false}
use kafka.Base.Maps.{string_eq, lookup}
use kafka.Pool.Backend.{Backend, is_closed, is_tracked}
use kafka.Pool.Addresses.{ConnectionPool, contains, initialize_addrs, get_backend}
use kafka.Pool.Removed.{initialize_addrs_closes}

abbrev used : Backend
used = record { connection_limit = 2; channel = []; conns = 5 ∷ []; counter = 1 }

-- The address "a" has a connection.
abbrev pool : ConnectionPool
pool = record { connection_limit = 2; backends = (97 ∷ [], used) ∷ []; closed = [] }

five_is_tracked : is_tracked 5 used.conns ≡ true
unfolding is_tracked
five_is_tracked = refl

used_is_there : get_backend (97 ∷ []) pool ≡ some used
unfolding get_backend lookup
used_is_there = refl

not_given : contains (97 ∷ []) ((98 ∷ []) ∷ []) ≡ false
unfolding contains
not_given = refl

initialize_addrs_closes_example : is_closed (initialize_addrs ((98 ∷ []) ∷ []) pool).closed 5 ≡ true
initialize_addrs_closes_example =
    initialize_addrs_closes (97 ∷ []) used 5 five_is_tracked ((98 ∷ []) ∷ []) pool used_is_there
      not_given
