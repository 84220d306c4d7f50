-- ===== src/Broker/Attempts.antt =====
-- The retry loops of broker.go. For each try the outcome of leaderConnection or coordinatorConnection and
-- that of the request are given; what a call does besides is recorded.
use kafka.Base.{
  ℕ, zero, suc, List, [], ◌∷◌, ◌++◌, Option, none, some, Bool, false, ◌==◌, ◌&&◌, ◌||◌, map,
  if◌then◌else◌,
}
use kafka.Base.Maps.{string_same}
use kafka.Wire.Errors.{Error, kafka_error}
use kafka.Connection.Outcome.{Failure, Outcome, returned, refused}

-- A connection taken from the pool, given back to it (a deferred Idle), or closed; RefreshMetadata called.
pub data Action : Type 0 where
  took gave_back closed : ℕ → Action
  refreshed refreshed_in_background : Action

-- The outcomes of one try. The second counts only where the first is a connection.
pub record Try (R : Type 0) : Type 0 where
  pub connection : Outcome ℕ
  pub response : Outcome R

-- How a try ends: the call returns, or goes round with resErr.
pub data Next (A : Type 0) : Type 0 where
  answer : Outcome A → Next A
  go_on : Option Failure → Next A

-- Taking a connection: how it ends, and what it does before.
abbrev pub Taking : Type 0
Taking = Outcome ℕ × List Action

-- leaderConnection uses no other connection than the one that it returns.
abbrev pub leader_taking : {R : Type 0} → (ℕ → Try R) → ℕ → Taking
leader_taking tries k = ((tries k).connection, [])

abbrev pub response_of : {R : Type 0} → (ℕ → Try R) → ℕ → Outcome R
response_of tries k = (tries k).response

-- What the body of a loop does, from resErr, with the outcome of the request on a connection.
abbrev pub Body : Type 0 → Type 0 → Type 0
Body R A = Option Failure → ℕ → Outcome R → Next A × List Action

-- What it does without a connection.
abbrev pub Unconnected : Type 0 → Type 0
Unconnected A = Failure → Next A

-- The deferred calls, when the call returns: the last connection first.
abbrev pub give_back_all : {A : Type 0} → Outcome A → List ℕ → Outcome A × List Action
give_back_all a held = (a, map gave_back held)

abbrev pub after_actions :
    {A : Type 0} → List Action → Outcome A × List Action → Outcome A × List Action
after_actions actions (a, later) = (a, actions ++ later)

module _ {A : Type 0} where
  abbrev pub proceed :
      List ℕ
      → Next A × List Action
      → (Option Failure → Outcome A × List Action)
      → Outcome A × List Action
  proceed held (answer a, actions) rest = after_actions actions (give_back_all a held)
  proceed held (go_on err, actions) rest = after_actions actions (rest err)

  -- One round, by the outcome of taking a connection.
  abbrev pub one_try :
      Unconnected A
      → (ℕ → Next A × List Action)
      → List ℕ
      → Taking
      → (Option Failure → List ℕ → Outcome A × List Action)
      → Outcome A × List Action
  one_try unconnected on_conn held (refused f, before) rest =
      after_actions before (proceed held (unconnected f, []) (λ e. rest e held))
  one_try unconnected on_conn held (returned conn, before) rest = after_actions before (
      after_actions (took conn ∷ [])
        (proceed (conn ∷ held) (on_conn conn) (λ e. rest e (conn ∷ held))))

module _ {R A : Type 0} where
  -- `for try := 0; try < limit; try++`: the tries left, the number of the next, and what follows the loop.
  unfoldable pub retry :
      Unconnected A
      → Body R A
      → (Option Failure → Outcome A)
      → (ℕ → Taking)
      → (ℕ → Outcome R)
      → ℕ
      → ℕ
      → Option Failure
      → List ℕ
      → Outcome A × List Action
  retry unconnected body last taking responses zero k err held = give_back_all (last err) held
  retry unconnected body last taking responses (suc left) k err held =
      one_try unconnected (λ conn. body err conn (responses k)) held (taking k)
        (λ e later. retry unconnected body last taking responses left (suc k) e later)

-- The loops over a response: the first partition with the number asked for, of a topic with its name.
module _ {T P : Type 0} (name : T → List ℕ) (partitions : T → List P) (id : P → ℕ) where
  unfoldable pub find_in_topic : Bool → ℕ → List P → Option P
  find_in_topic named partition [] = none
  find_in_topic named partition (p ∷ ps) =
      if named && id p == partition then some p else find_in_topic named partition ps

  abbrev pub or_later : Option P → Option P → Option P
  or_later none later = later
  or_later (some p) later = some p

  unfoldable pub find_partition : List ℕ → ℕ → List T → Option P
  unfolding find_in_topic
  find_partition topic partition [] = none
  find_partition topic partition (t ∷ ts) =
      or_later (find_in_topic (string_same (name t) topic) partition (partitions t))
        (find_partition topic partition ts)

-- The errors after which the metadata is refreshed: ErrLeaderNotAvailable, ErrNotLeaderForPartition,
-- ErrBrokerNotAvailable and ErrUnknownTopicOrPartition, by their numbers, which tell the errors of the
-- table apart.
abbrev pub is_failover : Option Error → Bool
is_failover (some (kafka_error e)) = e.errno == 5 || e.errno == 6 || e.errno == 8 || e.errno == 3
is_failover _ = false
