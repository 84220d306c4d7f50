-- ===== src/Broker/Counting.antt =====
-- How often the calls of broker.go take and give back a connection.
use kafka.Base.{ℕ, suc, ◌+◌, ◌≡◌, refl, List, [], ◌∷◌, ◌++◌, Bool, true, false, ◌==◌, map, arith}
use kafka.Broker.Attempts.{Action, took, gave_back, closed, refreshed, refreshed_in_background}

abbrev pub one_if : Bool → ℕ
one_if true = 1
one_if false = 0

-- How often a connection is taken, and how often it is given back.
abbrev pub times_taken : ℕ → List Action → ℕ
times_taken conn [] = 0
times_taken conn (took c ∷ actions) = one_if (c == conn) + times_taken conn actions
times_taken conn (_ ∷ actions) = times_taken conn actions

abbrev pub times_given : ℕ → List Action → ℕ
times_given conn [] = 0
times_given conn (gave_back c ∷ actions) = one_if (c == conn) + times_given conn actions
times_given conn (_ ∷ actions) = times_given conn actions

-- How many connections are taken in all.
abbrev pub takes : List Action → ℕ
takes [] = 0
takes (took c ∷ actions) = suc (takes actions)
takes (_ ∷ actions) = takes actions

abbrev pub times_held : ℕ → List ℕ → ℕ
times_held conn [] = 0
times_held conn (c ∷ held) = one_if (c == conn) + times_held conn held

pub times_taken-append :
    (conn : ℕ) (xs ys : List Action)
    → times_taken conn (xs ++ ys) ≡ times_taken conn xs + times_taken conn ys
times_taken-append conn [] ys = omega arith
times_taken-append conn (took c ∷ xs) ys = omega (arith, times_taken-append conn xs ys)
times_taken-append conn (gave_back c ∷ xs) ys = times_taken-append conn xs ys
times_taken-append conn (closed c ∷ xs) ys = times_taken-append conn xs ys
times_taken-append conn (refreshed ∷ xs) ys = times_taken-append conn xs ys
times_taken-append conn (refreshed_in_background ∷ xs) ys = times_taken-append conn xs ys

pub times_given-append :
    (conn : ℕ) (xs ys : List Action)
    → times_given conn (xs ++ ys) ≡ times_given conn xs + times_given conn ys
times_given-append conn [] ys = omega arith
times_given-append conn (took c ∷ xs) ys = times_given-append conn xs ys
times_given-append conn (gave_back c ∷ xs) ys = omega (arith, times_given-append conn xs ys)
times_given-append conn (closed c ∷ xs) ys = times_given-append conn xs ys
times_given-append conn (refreshed ∷ xs) ys = times_given-append conn xs ys
times_given-append conn (refreshed_in_background ∷ xs) ys = times_given-append conn xs ys

pub takes-append : (xs ys : List Action) → takes (xs ++ ys) ≡ takes xs + takes ys
takes-append [] ys = omega arith
takes-append (took c ∷ xs) ys = omega (arith, takes-append xs ys)
takes-append (gave_back c ∷ xs) ys = takes-append xs ys
takes-append (closed c ∷ xs) ys = takes-append xs ys
takes-append (refreshed ∷ xs) ys = takes-append xs ys
takes-append (refreshed_in_background ∷ xs) ys = takes-append xs ys

pub times_given-held :
    (conn : ℕ) (held : List ℕ) → times_given conn (map gave_back held) ≡ times_held conn held
times_given-held conn [] = refl
times_given-held conn (c ∷ held) = omega (arith, times_given-held conn held)

pub times_taken-held : (conn : ℕ) (held : List ℕ) → times_taken conn (map gave_back held) ≡ 0
times_taken-held conn [] = refl
times_taken-held conn (c ∷ held) = times_taken-held conn held

pub takes-held : (held : List ℕ) → takes (map gave_back held) ≡ 0
takes-held [] = refl
takes-held (c ∷ held) = takes-held held
