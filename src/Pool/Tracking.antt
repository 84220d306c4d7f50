-- ===== src/Pool/Tracking.antt =====
-- The list of connections that a backend keeps, and its count of them.
use kafka.Base.{
  ℕ, suc, ◌≤◌, ◌≡◌, refl, ap, List, [], ◌∷◌, ◌++◌, true, ◌==◌, ==_iff, length, arith, Bool-cases,
  if◌then◌else◌, inl, inr,
}
use kafka.Pool.Backend.{is_closed, keep_open, without, is_tracked}

pub length-without :
    (conn : ℕ) (conns : List ℕ)
    → is_tracked conn conns ≡ true
    → suc (length (without conn conns)) ≡ length conns
unfolding without is_tracked
length-without conn [] h = cc
length-without conn (c ∷ conns) h = elim (Bool-cases (c == conn)) [
  | inl e ↦ rw e refl
  | inr e ↦ rw e (ap suc (length-without conn conns (rw e at h)))
]

pub length-keep_open : (closed conns : List ℕ) → length (keep_open closed conns) ≤ length conns
unfolding keep_open
length-keep_open closed [] = omega arith
length-keep_open closed (c ∷ conns) = ground (arith, length-keep_open closed conns)

pub keep_open-append :
    (closed xs ys : List ℕ)
    → keep_open closed (xs ++ ys) ≡ keep_open closed xs ++ keep_open closed ys
unfolding keep_open
keep_open-append closed [] ys = refl
keep_open-append closed (c ∷ xs) ys = elim (Bool-cases (is_closed closed c)) [
  | inl e ↦ rw e (keep_open-append closed xs ys)
  | inr e ↦ rw e (ap (◌∷◌ c) (keep_open-append closed xs ys))
]

-- What is closed in one list is closed in another.
abbrev pub ClosedIn : List ℕ → List ℕ → Type 0
ClosedIn closed gone = (conn : ℕ) → is_closed closed conn ≡ true → is_closed gone conn ≡ true

pub ClosedIn-cons :
    (conn : ℕ) (closed gone : List ℕ)
    → ClosedIn closed gone
    → ClosedIn (conn ∷ closed) (conn ∷ gone)
unfolding is_closed
ClosedIn-cons conn closed gone h c g = elim (Bool-cases (conn == c)) [
  | inl e ↦ rw e refl
  | inr e ↦ rw e (h c (rw e at g))
]

pub ClosedIn-more :
    (conn : ℕ) (closed gone : List ℕ) → ClosedIn closed gone → ClosedIn closed (conn ∷ gone)
unfolding is_closed
ClosedIn-more conn closed gone h c g = elim (Bool-cases (conn == c)) [
  | inl e ↦ rw e refl
  | inr e ↦ rw e (h c g)
]

pub keep_open-ClosedIn :
    (closed gone conns : List ℕ)
    → ClosedIn closed gone
    → keep_open gone (keep_open closed conns) ≡ keep_open gone conns
unfolding keep_open
keep_open-ClosedIn closed gone [] h = refl
keep_open-ClosedIn closed gone (c ∷ conns) h = elim (Bool-cases (is_closed closed c)) [
  | inl e ↦ rw (e, h c e) (keep_open-ClosedIn closed gone conns h)
  | inr e ↦ rw e (
      ap (λ (l : List ℕ). if is_closed gone c then l else c ∷ l)
        (keep_open-ClosedIn closed gone conns h))
]

-- Another connection that is closed.
keep_open-more :
    (conn : ℕ) (closed conns : List ℕ)
    → keep_open (conn ∷ closed) (keep_open closed conns) ≡ keep_open (conn ∷ closed) conns
unfolding keep_open is_closed
keep_open-more conn closed [] = refl
keep_open-more conn closed (c ∷ conns) = ground (arith, keep_open-more conn closed conns)

pub keep_open-same :
    (conn : ℕ) (closed xs ys : List ℕ)
    → keep_open closed xs ≡ keep_open closed ys
    → keep_open (conn ∷ closed) xs ≡ keep_open (conn ∷ closed) ys
keep_open-same conn closed xs ys h =
    rw (← keep_open-more conn closed xs, ← keep_open-more conn closed ys, h) refl

pub keep_open-without :
    (conn : ℕ) (closed conns : List ℕ)
    → is_closed closed conn ≡ true
    → keep_open closed (without conn conns) ≡ keep_open closed conns
unfolding keep_open without
keep_open-without conn closed [] h = refl
keep_open-without conn closed (c ∷ conns) h = elim (Bool-cases (c == conn)) [
  | inl e ↦
      let same : c ≡ conn = (==_iff c conn).0 e in
      let shut : is_closed closed c ≡ true = rw same h in rw (e, shut) refl
  | inr e ↦ ground (arith, keep_open-without conn closed conns h)
]
