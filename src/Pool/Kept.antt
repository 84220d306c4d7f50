-- ===== src/Pool/Kept.antt =====
-- What every operation of a backend keeps: its count, its limit, and that it tracks what it made.
use kafka.Base.{
  ℕ, ◌^◌, ◌≤◌, ◌<◌, ◌≡◌, refl, List, [], ◌∷◌, ◌++◌, Option, none, some, true, ◌==◌, length,
  length-append, arith, Bool-cases, inl, inr, ltb,
}
use kafka.Pool.Backend.{
  Backend, is_closed, keep_open, is_tracked, remove_connection, receive_idle, take_idle,
  get_new_connection, dial, Answer, connected, int_ge, IdleAt, called, shut, offering, no_room,
  uncounted, ended, idle_step,
}
use kafka.Pool.Tracking.{
  length-without, length-keep_open, keep_open-append, keep_open-ClosedIn, ClosedIn, ClosedIn-cons,
  ClosedIn-more, keep_open-same, keep_open-without,
}

-- The count is the list's length, within the limit, and no connection that was made stands outside the
-- list, unless it is gone: closed, or about to be closed.
pub record Kept (limit : ℕ) (closed gone made : List ℕ) (b : Backend) : Type 0 where
  pub capacity : b.connection_limit ≡ limit
  pub counter : b.counter ≡ length b.conns
  pub limited : length b.conns ≤ limit
  pub tracked : keep_open gone made ≡ keep_open gone b.conns
  pub closed_gone : ClosedIn closed gone

abbrev pub made_by : Option Answer → List ℕ → List ℕ
made_by (some (connected conn)) made = made ++ (conn ∷ [])
made_by _ made = made

module _ (limit : ℕ) (closed gone made : List ℕ) (small : limit < 2 ^ 63) where
  remove-Kept :
      (conn : ℕ) (b : Backend)
      → is_closed gone conn ≡ true
      → Kept limit closed gone made b
      → Kept limit closed gone made (remove_connection conn b)
  unfolding remove_connection
  remove-Kept conn b leaves k = elim (Bool-cases (is_tracked conn b.conns)) [
    | inr e ↦ rw e k
    | inl e ↦
        let shorter = length-without conn b.conns e in
        rw e (record {
          capacity = k.capacity;
          counter = omega (arith, k.counter, k.limited);
          limited = omega (arith, k.limited);
          tracked = rw (keep_open-without conn gone b.conns leaves) k.tracked;
          closed_gone = k.closed_gone;
        })
  ]

  pub in_channel :
      (channel : List ℕ) (b : Backend)
      → Kept limit closed gone made b
      → Kept limit closed gone made (record b { channel = channel })
  in_channel channel b k = record {
    capacity = k.capacity;
    counter = k.counter;
    limited = k.limited;
    tracked = k.tracked;
    closed_gone = k.closed_gone;
  }

  pub receive-Kept :
      (channel : List ℕ) (b : Backend)
      → Kept limit closed gone made b
      → Kept limit closed gone made (receive_idle closed channel b).1
  unfolding receive_idle
  receive-Kept [] b k = in_channel [] b k
  receive-Kept (conn ∷ channel) b k = elim (Bool-cases (is_closed closed conn)) [
    | inl e ↦ rw e (
        receive-Kept channel (remove_connection conn b)
          (remove-Kept conn b (k.closed_gone conn e) k))
    | inr e ↦ rw e (in_channel channel b k)
  ]

  pub take_idle-Kept :
      (channel : List ℕ) (b : Backend)
      → Kept limit closed gone made b
      → Kept limit closed gone made (take_idle closed channel b).1
  unfolding take_idle
  take_idle-Kept [] b k = k
  take_idle-Kept (conn ∷ channel) b k = elim (Bool-cases (is_closed closed conn)) [
    | inl e ↦ rw e (
        remove-Kept conn (record b { channel = channel }) (k.closed_gone conn e)
          (in_channel channel b k))
    | inr e ↦ rw e (in_channel channel b k)
  ]

  dial-Kept :
      (dialled : Option ℕ) (b : Backend)
      → Kept limit closed gone made b
      → length b.conns < limit
      → Kept limit closed gone (made_by (dial dialled b).0 made) (dial dialled b).1
  unfolding dial
  dial-Kept none b k room = k
  dial-Kept (some conn) b k room = record {
    capacity = k.capacity;
    counter = omega (arith, k.counter, length-append b.conns (conn ∷ []));
    limited = omega (arith, length-append b.conns (conn ∷ []));
    tracked =
        rw
          (
            keep_open-append gone made (conn ∷ []),
            keep_open-append gone b.conns (conn ∷ []),
            k.tracked,
          )
          refl;
    closed_gone = k.closed_gone;
  }

  pub get_new-Kept :
      (dialled : Option ℕ) (b : Backend)
      → Kept limit closed gone made b
      → Kept limit closed gone
          (made_by (get_new_connection dialled closed b).0 made)
          (get_new_connection dialled closed b).1
  unfolding get_new_connection
  get_new-Kept dialled b k = elim (Bool-cases (int_ge b.counter b.connection_limit)) [
    | inr e ↦ rw e (dial-Kept dialled b k (ground (arith, k.counter, k.capacity, k.limited)))
    | inl e ↦ rw e (elim (Bool-cases (length (keep_open closed b.conns) == b.counter)) [
      | inl f ↦ rw f k
      | inr f ↦ rw f (
          dial-Kept dialled
            (record b {
              conns = keep_open closed b.conns;
              counter = length (keep_open closed b.conns);
            })
            (record {
              capacity = k.capacity;
              counter = refl;
              limited = omega (arith, k.limited, length-keep_open closed b.conns);
              tracked = rw (keep_open-ClosedIn closed gone b.conns k.closed_gone) k.tracked;
              closed_gone = k.closed_gone;
            })
            (ground (arith, k.counter, k.limited, length-keep_open closed b.conns)))
    ])
  ]

-- A connection is closed by its user or by the broker, or by the last step of an Idle.
pub hung_up-Kept :
    (limit : ℕ) (closed gone made : List ℕ) (conn : ℕ) (b : Backend)
    → Kept limit closed gone made b
    → Kept limit (conn ∷ closed) (conn ∷ gone) made b
hung_up-Kept limit closed gone made conn b k = record {
  capacity = k.capacity;
  counter = k.counter;
  limited = k.limited;
  tracked = keep_open-same conn gone made b.conns k.tracked;
  closed_gone = ClosedIn-cons conn closed gone k.closed_gone;
}

leaving-Kept :
    (limit : ℕ) (closed gone made : List ℕ) (conn : ℕ) (b : Backend)
    → Kept limit closed gone made b
    → Kept limit closed (conn ∷ gone) made b
leaving-Kept limit closed gone made conn b k = record {
  capacity = k.capacity;
  counter = k.counter;
  limited = k.limited;
  tracked = keep_open-same conn gone made b.conns k.tracked;
  closed_gone = ClosedIn-more conn closed gone k.closed_gone;
}

gone_now : (conn : ℕ) (gone : List ℕ) → is_closed (conn ∷ gone) conn ≡ true
unfolding is_closed
gone_now conn gone = ground arith

-- What is gone once a call of Idle has done its next step: where it found no room, it takes the connection
-- out of the list before it closes it.
abbrev pub gone_by : IdleAt → ℕ → List ℕ → List ℕ
gone_by no_room conn gone = conn ∷ gone
gone_by uncounted conn gone = conn ∷ gone
gone_by _ conn gone = gone

-- A call of Idle takes a connection out of the list for being closed only when it was found so.
abbrev pub StandsAt : List ℕ → ℕ → IdleAt → Type 0
StandsAt closed conn shut = is_closed closed conn ≡ true
StandsAt closed conn _ = Unit {0}

pub idle_step-Kept :
    (limit : ℕ) (closed gone made : List ℕ) (at : IdleAt) (conn : ℕ) (b : Backend)
    → limit < 2 ^ 63
    → StandsAt closed conn at
    → Kept limit closed gone made b
    → let after = (idle_step at conn (record { backend = b; closed = closed })).1 in
      Kept limit after.closed (gone_by at conn gone) made after.backend
unfolding idle_step
idle_step-Kept limit closed gone made called conn b small stands k = k
idle_step-Kept limit closed gone made shut conn b small stands k =
    remove-Kept limit closed gone made small conn b (k.closed_gone conn stands) k
idle_step-Kept limit closed gone made offering conn b small stands k =
    elim (Bool-cases (ltb (length b.channel) b.connection_limit)) [
      | inl f ↦ rw f (in_channel limit closed gone made small (b.channel ++ (conn ∷ [])) b k)
      | inr f ↦ rw f k
    ]
idle_step-Kept limit closed gone made no_room conn b small stands k =
    remove-Kept limit closed (conn ∷ gone) made small conn b (gone_now conn gone)
      (leaving-Kept limit closed gone made conn b k)
idle_step-Kept limit closed gone made uncounted conn b small stands k =
    hung_up-Kept limit closed gone made conn b k
idle_step-Kept limit closed gone made ended conn b small stands k = k
