-- ===== src/Pool/Initialized.antt =====
-- The addresses of a connectionPool after InitializeAddrs.
use kafka.Base.{
  ℕ, ◌≡◌, refl, sym, List, [], ◌∷◌, Option, none, some, Bool, true, false, ◌||◌, if◌then◌else◌,
  Bool-cases, inl, inr, arith,
}
use kafka.Base.Maps.{
  string_same, string_same_iff, string_eq, Map, lookup, or_else, or_else-none, or_else_assoc,
  lookup-assign, lookup-delete_same, lookup-delete_other,
}
use kafka.Pool.Backend.{Backend, new_backend}
use kafka.Pool.Addresses.{
  ConnectionPool, contains, deleted_addrs, add_if_new, add_addrs, close_backend, remove_addrs,
  initialize_addrs, get_backend,
}

abbrev pub fresh : Bool → ℕ → Option Backend
fresh true limit = some (new_backend limit)
fresh false limit = none

lookup-add_if_new :
    (limit : ℕ) (k addr : List ℕ) (found : Option Backend) (m : Map (List ℕ) Backend)
    → lookup addr m ≡ found
    → lookup k (add_if_new limit addr found m)
      ≡ or_else (lookup k m) (fresh (string_same addr k) limit)
unfolding add_if_new
lookup-add_if_new limit k addr none m h = elim (Bool-cases (string_same addr k)) [
  | inl e ↦
      let here : addr ≡ k = (string_same_iff addr k).0 e in
      let missing : lookup k m ≡ none = rw here at h in
      rw (lookup-assign k addr (new_backend limit) m, missing, e) refl
  | inr e ↦ rw (lookup-assign k addr (new_backend limit) m, e) (sym (or_else-none (lookup k m)))
]
lookup-add_if_new limit k addr (some b) m h = elim (Bool-cases (string_same addr k)) [
  | inl e ↦
      let here : addr ≡ k = (string_same_iff addr k).0 e in
      let there : lookup k m ≡ some b = rw here at h in rw there refl
  | inr e ↦ rw e (sym (or_else-none (lookup k m)))
]

fresh_twice :
    (a b : Bool) (limit : ℕ) → or_else (fresh a limit) (fresh b limit) ≡ fresh (a || b) limit
fresh_twice true b limit = refl
fresh_twice false b limit = refl

-- The loop keeps what is there and makes the backends that are missing.
pub lookup-add_addrs :
    (limit : ℕ) (k : List ℕ) (addrs : List (List ℕ)) (m : Map (List ℕ) Backend)
    → lookup k (add_addrs limit addrs m) ≡ or_else (lookup k m) (fresh (contains k addrs) limit)
unfolding add_addrs contains
lookup-add_addrs limit k [] m = sym (or_else-none (lookup k m))
lookup-add_addrs limit k (addr ∷ addrs) m =
    rw
      (
        lookup-add_addrs limit k addrs (add_if_new limit addr (lookup addr m) m),
        lookup-add_if_new limit k addr (lookup addr m) m refl,
        ← fresh_twice (string_same addr k) (contains k addrs) limit,
      )
      (sym (
        or_else_assoc (lookup k m) (fresh (string_same addr k) limit)
          (fresh (contains k addrs) limit)))

pub lookup-close_backend :
    (k addr : List ℕ) (found : Option Backend) (cp : ConnectionPool)
    → lookup addr cp.backends ≡ found
    → lookup k (close_backend addr found cp).backends
      ≡ (if string_same addr k then none else lookup k cp.backends)
unfolding close_backend
lookup-close_backend k addr none cp h = elim (Bool-cases (string_same addr k)) [
  | inl e ↦
      let here : addr ≡ k = (string_same_iff addr k).0 e in
      let missing : lookup k cp.backends ≡ none = rw here at h in rw (e, missing) refl
  | inr e ↦ rw e refl
]
lookup-close_backend k addr (some b) cp h = elim (Bool-cases (string_same addr k)) [
  | inl e ↦
      let here : addr ≡ k = (string_same_iff addr k).0 e in
      rw (e, here) (lookup-delete_same k cp.backends)
  | inr e ↦ rw e (lookup-delete_other k addr cp.backends e)
]

lookup-remove_addrs :
    (k : List ℕ) (addrs : List (List ℕ)) (cp : ConnectionPool)
    → lookup k (remove_addrs addrs cp).backends
      ≡ (if contains k addrs then none else lookup k cp.backends)
unfolding remove_addrs contains
lookup-remove_addrs k [] cp = refl
lookup-remove_addrs k (addr ∷ addrs) cp =
    rw
      (
        lookup-remove_addrs k addrs (close_backend addr (lookup addr cp.backends) cp),
        lookup-close_backend k addr (lookup addr cp.backends) cp refl,
      )
      (ground arith)

-- An address is deleted if it is no longer given.
contains-deleted_addrs :
    (k : List ℕ) (addrs : List (List ℕ)) (m : Map (List ℕ) Backend)
    → contains k addrs ≡ true
    → contains k (deleted_addrs addrs m) ≡ false
unfolding contains deleted_addrs
contains-deleted_addrs k addrs [] h = refl
contains-deleted_addrs k addrs (e ∷ m) h = elim (Bool-cases (contains e.0 addrs)) [
  | inl f ↦ rw f (contains-deleted_addrs k addrs m h)
  | inr f ↦ elim (Bool-cases (string_same e.0 k)) [
    | inl g ↦
        let here : e.0 ≡ k = (string_same_iff e.0 k).0 g in
        let clash : contains k addrs ≡ false = rw here at f in cc
    | inr g ↦ rw (f, g) (contains-deleted_addrs k addrs m h)
  ]
]

pub deleted_or_missing :
    (k : List ℕ) (addrs : List (List ℕ)) (m : Map (List ℕ) Backend)
    → contains k addrs ≡ false
    → (if contains k (deleted_addrs addrs m) then none else lookup k m) ≡ none
unfolding contains deleted_addrs lookup
deleted_or_missing k addrs [] h = refl
deleted_or_missing k addrs (e ∷ m) h = elim (Bool-cases (string_same e.0 k)) [
  | inl g ↦
      let here : e.0 ≡ k = (string_same_iff e.0 k).0 g in
      let gone : contains e.0 addrs ≡ false = rw here h in rw (gone, g) refl
  | inr g ↦ elim (Bool-cases (contains e.0 addrs)) [
    | inl f ↦ rw (f, g) (deleted_or_missing k addrs m h)
    | inr f ↦ rw (f, g) (deleted_or_missing k addrs m h)
  ]
]

-- After InitializeAddrs the pool has a backend for exactly the addresses that were given: the one that
-- was there, or a new one.
pub get_backend-initialize_addrs :
    (k : List ℕ) (addrs : List (List ℕ)) (cp : ConnectionPool)
    → get_backend k (initialize_addrs addrs cp) ≡ (
        if contains k addrs
        then or_else (get_backend k cp) (some (new_backend cp.connection_limit))
        else none)
unfolding get_backend initialize_addrs
get_backend-initialize_addrs k addrs cp =
    let removed =
      lookup-remove_addrs k (deleted_addrs addrs cp.backends)
        (record cp { backends = add_addrs cp.connection_limit addrs cp.backends }) in
    rw (removed, lookup-add_addrs cp.connection_limit k addrs cp.backends)
      (elim (Bool-cases (contains k addrs)) [
        | inl e ↦ rw (e, contains-deleted_addrs k addrs cp.backends e) refl
        | inr e ↦ rw (e, or_else-none) (deleted_or_missing k addrs cp.backends e)
      ])
