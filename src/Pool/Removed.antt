-- ===== src/Pool/Removed.antt =====
-- The connections of the backends that InitializeAddrs removes.
use kafka.Base.{
  ℕ, ◌≡◌, refl, List, [], ◌∷◌, ◌++◌, Option, none, some, true, false, Bool-cases, inl, inr, arith,
}
use kafka.Base.Maps.{string_same, string_same_iff, string_eq, lookup}
use kafka.Pool.Backend.{Backend, close, is_closed, is_tracked}
use kafka.Pool.Addresses.{
  ConnectionPool, contains, deleted_addrs, close_backend, remove_addrs, initialize_addrs,
  get_backend, add_addrs,
}
use kafka.Pool.Shutting.{is_closed-of_tracked}
use kafka.Pool.Initialized.{deleted_or_missing, lookup-close_backend, lookup-add_addrs}

is_closed-append :
    (conn : ℕ) (conns closed : List ℕ)
    → is_closed closed conn ≡ true
    → is_closed (conns ++ closed) conn ≡ true
unfolding is_closed
is_closed-append conn [] closed h = h
is_closed-append conn (c ∷ conns) closed h = ground (arith, is_closed-append conn conns closed h)

is_closed-close_backend :
    (conn : ℕ) (addr : List ℕ) (found : Option Backend) (cp : ConnectionPool)
    → is_closed cp.closed conn ≡ true
    → is_closed (close_backend addr found cp).closed conn ≡ true
unfolding close_backend close
is_closed-close_backend conn addr none cp h = h
is_closed-close_backend conn addr (some b) cp h = is_closed-append conn b.conns cp.closed h

is_closed-remove_addrs :
    (conn : ℕ) (addrs : List (List ℕ)) (cp : ConnectionPool)
    → is_closed cp.closed conn ≡ true
    → is_closed (remove_addrs addrs cp).closed conn ≡ true
unfolding remove_addrs
is_closed-remove_addrs conn [] cp h = h
is_closed-remove_addrs conn (addr ∷ addrs) cp h =
    is_closed-remove_addrs conn addrs (close_backend addr (lookup addr cp.backends) cp)
      (is_closed-close_backend conn addr (lookup addr cp.backends) cp h)

closes_tracked :
    (conn : ℕ) (addr : List ℕ) (found : Option Backend) (b : Backend) (cp : ConnectionPool)
    → found ≡ some b
    → is_tracked conn b.conns ≡ true
    → is_closed (close_backend addr found cp).closed conn ≡ true
unfolding close_backend close
closes_tracked conn addr found b cp there h =
    rw there (is_closed-of_tracked conn b.conns cp.closed h)

module _ (k : List ℕ) (b : Backend) (conn : ℕ) (tracked : is_tracked conn b.conns ≡ true) where
  remove_addrs_closes :
      (addrs : List (List ℕ)) (cp : ConnectionPool)
      → lookup k cp.backends ≡ some b
      → contains k addrs ≡ true
      → is_closed (remove_addrs addrs cp).closed conn ≡ true
  unfolding remove_addrs contains
  remove_addrs_closes [] cp there given = cc
  remove_addrs_closes (addr ∷ addrs) cp there given = elim (Bool-cases (string_same addr k)) [
    | inl e ↦
        let here : addr ≡ k = (string_same_iff addr k).0 e in
        let found : lookup addr cp.backends ≡ some b = rw here there in
        is_closed-remove_addrs conn addrs (close_backend addr (lookup addr cp.backends) cp)
          (closes_tracked conn addr (lookup addr cp.backends) b cp found tracked)
    | inr e ↦
        let kept : lookup k (close_backend addr (lookup addr cp.backends) cp).backends ≡ some b =
          rw (lookup-close_backend k addr (lookup addr cp.backends) cp refl, e) there in
        remove_addrs_closes addrs (close_backend addr (lookup addr cp.backends) cp) kept
          (rw e at given)
  ]

  -- When InitializeAddrs removes the backend of an address, every connection that the backend tracks is
  -- closed.
  pub initialize_addrs_closes :
      (addrs : List (List ℕ)) (cp : ConnectionPool)
      → get_backend k cp ≡ some b
      → contains k addrs ≡ false
      → is_closed (initialize_addrs addrs cp).closed conn ≡ true
  unfolding initialize_addrs get_backend
  initialize_addrs_closes addrs cp there gone =
      let missing = deleted_or_missing k addrs cp.backends gone in
      let kept : lookup k (add_addrs cp.connection_limit addrs cp.backends) ≡ some b =
        rw (lookup-add_addrs cp.connection_limit k addrs cp.backends, there) refl in
      elim (Bool-cases (contains k (deleted_addrs addrs cp.backends))) [
        | inl e ↦
            remove_addrs_closes (deleted_addrs addrs cp.backends)
              (record cp { backends = add_addrs cp.connection_limit addrs cp.backends }) kept e
        | inr e ↦ let none_there : lookup k cp.backends ≡ none = rw e at missing in cc
      ]
