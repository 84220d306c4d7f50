-- ===== src/Broker/Settling.antt =====
-- The retry loops of broker.go, whatever their bodies are: what they take they give back.
use kafka.Base.{
  ℕ, zero, suc, ◌+◌, ◌≤◌, ◌≡◌, refl, List, [], ◌∷◌, ◌++◌, Option, Bool, true, false, if◌then◌else◌,
  arith,
}
use kafka.Connection.Outcome.{Failure, Outcome, returned, refused}
use kafka.Broker.Attempts.{
  Action, took, closed, refreshed, Taking, Next, answer, go_on, Body, Unconnected, give_back_all,
  proceed, one_try, retry,
}
use kafka.Broker.Counting.{
  times_taken, times_given, takes, times_held, times_taken-append, times_given-append, takes-append,
  times_given-held, times_taken-held, takes-held,
}

-- Actions that neither take nor give back.
pub record Silent (actions : List Action) : Type 0 where
  pub none_taken : (conn : ℕ) → times_taken conn actions ≡ 0
  pub none_given : (conn : ℕ) → times_given conn actions ≡ 0
  pub no_takes : takes actions ≡ 0

pub nothing-Silent : Silent []
nothing-Silent = record { none_taken = λ c. refl; none_given = λ c. refl; no_takes = refl }

pub closed-Silent : (conn : ℕ) → Silent (closed conn ∷ [])
closed-Silent conn = record { none_taken = λ c. refl; none_given = λ c. refl; no_takes = refl }

pub refreshed-Silent : Silent (refreshed ∷ [])
refreshed-Silent = record { none_taken = λ c. refl; none_given = λ c. refl; no_takes = refl }

pub closed_if-Silent : (b : Bool) (conn : ℕ) → Silent (if b then closed conn ∷ [] else [])
closed_if-Silent true conn = closed-Silent conn
closed_if-Silent false conn = nothing-Silent

-- What was held and is taken is given back in the end, and at most so many are taken.
pub record Settles (held : List ℕ) (most : ℕ) (actions : List Action) : Type 0 where
  pub settled :
      (conn : ℕ) → times_given conn actions ≡ times_held conn held + times_taken conn actions
  pub bounded : takes actions ≤ most

give_back_all-Settles :
    {A : Type 0} (a : Outcome A) (held : List ℕ) → Settles held 0 (give_back_all a held).1
give_back_all-Settles a held = record {
  settled = λ c. omega (arith, times_given-held c held, times_taken-held c held);
  bounded = omega (arith, takes-held held);
}

silent-Settles :
    (held : List ℕ) (most : ℕ) (actions later : List Action)
    → Silent actions
    → Settles held most later
    → Settles held most (actions ++ later)
silent-Settles held most actions later s h = record {
  settled = λ c. omega (
    arith,
    h.settled c,
    s.none_taken c,
    s.none_given c,
    times_taken-append c actions later,
    times_given-append c actions later,
  );
  bounded = omega (arith, h.bounded, s.no_takes, takes-append actions later);
}

-- Actions that give back all that they take, and take at most so many.
pub record Evens (most : ℕ) (actions : List Action) : Type 0 where
  pub evened : (conn : ℕ) → times_given conn actions ≡ times_taken conn actions
  pub few : takes actions ≤ most

evens-Settles :
    (extra : ℕ) (held : List ℕ) (most : ℕ) (actions later : List Action)
    → Evens extra actions
    → Settles held most later
    → Settles held (extra + most) (actions ++ later)
evens-Settles extra held most actions later s h = record {
  settled = λ c. omega (
    arith,
    h.settled c,
    s.evened c,
    times_taken-append c actions later,
    times_given-append c actions later,
  );
  bounded = omega (arith, h.bounded, s.few, takes-append actions later);
}

-- The bound on what is taken by so many tries, each of which takes so many beside its own connection.
abbrev pub rounds : ℕ → ℕ → ℕ
rounds extra zero = 0
rounds extra (suc left) = extra + suc (rounds extra left)

pub rounds_alone : (left : ℕ) → rounds 0 left ≡ left
rounds_alone zero = refl
rounds_alone (suc left) = omega (arith, rounds_alone left)

pub rounds_twice : (left : ℕ) → rounds 1 left ≡ left + left
rounds_twice zero = refl
rounds_twice (suc left) = omega (arith, rounds_twice left)

weaker :
    (held : List ℕ) (most : ℕ) (actions : List Action)
    → Settles held 0 actions
    → Settles held most actions
weaker held most actions h = record { settled = h.settled; bounded = omega (arith, h.bounded) }

took-Settles :
    (most conn : ℕ) (held : List ℕ) (later : List Action)
    → Settles (conn ∷ held) most later
    → Settles held (suc most) (took conn ∷ later)
took-Settles most conn held later h = record {
  settled = λ c. omega (arith, h.settled c);
  bounded = omega (arith, h.bounded);
}

more :
    (held : List ℕ) (most : ℕ) (actions : List Action)
    → Settles held most actions
    → Settles held (suc most) actions
more held most actions h = record { settled = h.settled; bounded = omega (arith, h.bounded) }

module _ {A : Type 0} where
  proceed-Settles :
      (most : ℕ) (held : List ℕ) (next : Next A × List Action)
      (rest : Option Failure → Outcome A × List Action)
      → Silent next.1
      → ((err : Option Failure) → Settles held most (rest err).1)
      → Settles held most (proceed held next rest).1
  proceed-Settles most held (answer a, actions) rest s h =
      silent-Settles held most actions (give_back_all a held).1 s
        (weaker held most (give_back_all a held).1 (give_back_all-Settles a held))
  proceed-Settles most held (go_on err, actions) rest s h =
      silent-Settles held most actions (rest err).1 s (h err)

  one_try-Settles :
      (extra most : ℕ) (unconnected : Unconnected A) (on_conn : ℕ → Next A × List Action)
      (held : List ℕ) (taken : Taking) (rest : Option Failure → List ℕ → Outcome A × List Action)
      → Evens extra taken.1
      → ((conn : ℕ) → Silent (on_conn conn).1)
      → ((err : Option Failure) (later : List ℕ) → Settles later most (rest err later).1)
      → Settles held (extra + suc most) (one_try unconnected on_conn held taken rest).1
  one_try-Settles extra most unconnected on_conn held (refused f, before) rest evens s h =
      evens-Settles extra held (suc most) before _ evens (
        more held most _ (
          proceed-Settles most held (unconnected f, []) (λ e. rest e held) nothing-Silent
            (λ e. h e held)))
  one_try-Settles extra most unconnected on_conn held (returned conn, before) rest evens s h =
      evens-Settles extra held (suc most) before _ evens (
        took-Settles most conn held _ (
          proceed-Settles most (conn ∷ held) (on_conn conn) (λ e. rest e (conn ∷ held)) (s conn)
            (λ e. h e (conn ∷ held))))

module _ {R A : Type 0} (unconnected : Unconnected A) (body : Body R A) where
  abbrev SilentBody : Type 0
  SilentBody = (err : Option Failure) (conn : ℕ) (r : Outcome R) → Silent (body err conn r).1

  pub retry-Settles :
      (extra : ℕ) (last : Option Failure → Outcome A) (taking : ℕ → Taking)
      (responses : ℕ → Outcome R) (evens : (k : ℕ) → Evens extra (taking k).1) (silent : SilentBody)
      (left k : ℕ) (err : Option Failure) (held : List ℕ)
      → Settles held
          (rounds extra left)
          (retry unconnected body last taking responses left k err held).1
  unfolding retry
  retry-Settles extra last taking responses evens silent zero k err held =
      give_back_all-Settles (last err) held
  retry-Settles extra last taking responses evens silent (suc left) k err held =
      one_try-Settles extra (rounds extra left) unconnected (λ conn. body err conn (responses k))
        held (taking k)
        (λ e later. retry unconnected body last taking responses left (suc k) e later) (evens k)
        (λ conn. silent err conn (responses k))
        (λ e later. retry-Settles extra last taking responses evens silent left (suc k) e later)
