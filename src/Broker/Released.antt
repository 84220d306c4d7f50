-- ===== src/Broker/Released.antt =====
-- Which connections the calls of broker.go take and give back.
use kafka.Base.{
  ℕ, ◌+◌, ◌≤◌, ◌≡◌, refl, List, [], Option, none, some, Bool, true, false, if◌then◌else◌, arith,
  Bool-cases, inl, inr,
}
use kafka.Messages.OffsetResp.{OffsetResp, OffsetRespPartition}
use kafka.Messages.FetchResp.{FetchResp, FetchRespPartition}
use kafka.Messages.GroupCoordinatorResp.{GroupCoordinatorResp}
use kafka.Messages.OffsetCommitResp.{OffsetCommitResp}
use kafka.Messages.OffsetFetchResp.{OffsetFetchResp}
use kafka.Connection.Outcome.{
  Failure, negative_offset, Outcome, returned, refused, NetworkErrors, is_dead, is_hung_up,
}
use kafka.Broker.Attempts.{Action, Try, leader_taking, response_of, answer, go_on, is_failover}
use kafka.Wire.BigEndian.{is_negative64}
use kafka.Broker.Counting.{times_taken, times_given, takes}
use kafka.Broker.Leader.{tries_of}
use kafka.Broker.Requests.{
  offset, offset_body, offset_found, find_offset, or_incomplete, fetch, fetch_body, fetched_found,
  find_fetched, no_messages,
}
use kafka.Broker.Coordinator.{
  ask_on, connection_to_ask, get_group_coordinator, connect_coordinator, coordinator_connection,
  CoordinatorTry, coordinator_taking, commit, commit_body, commit_loop, stored_offset, stored_body,
  last_error,
}
use kafka.Broker.Settling.{
  Silent, nothing-Silent, closed-Silent, refreshed-Silent, closed_if-Silent, Settles, Evens, rounds,
  rounds_alone, rounds_twice, retry-Settles,
}

nothing-Evens : Evens 0 []
nothing-Evens = record { evened = λ c. refl; few = omega arith }

ask_on-Evens :
    (asked : Option ℕ) (response : Outcome GroupCoordinatorResp) → Evens 1 (ask_on asked response).1
ask_on-Evens none response = record { evened = λ c. refl; few = omega arith }
ask_on-Evens (some conn) response = record { evened = λ c. refl; few = omega arith }

connect_coordinator-Evens :
    (connections : List ℕ → Outcome ℕ) (asked : Outcome GroupCoordinatorResp × List Action)
    → Evens 1 asked.1
    → Evens 1 (connect_coordinator connections asked).1
connect_coordinator-Evens connections (refused f, actions) h = h
connect_coordinator-Evens connections (returned resp, actions) h = h

-- The search for the coordinator takes one connection at most, and gives it back.
coordinator_taking-Evens :
    {R : Type 0} (tries : ℕ → CoordinatorTry R) (k : ℕ) → Evens 1 (coordinator_taking tries k).1
unfolding coordinator_taking coordinator_connection get_group_coordinator
coordinator_taking-Evens tries k =
    let t = tries k in
    connect_coordinator-Evens t.connections _
      (ask_on-Evens (connection_to_ask t.idle t.brokers) t.found)

offset_found-Silent :
    (err : Option Failure) (o : Option OffsetRespPartition) → Silent (offset_found err o).1
offset_found-Silent err none = nothing-Silent
offset_found-Silent err (some p) = elim (Bool-cases (is_failover p.err)) [
  | inl h ↦ rw h refreshed-Silent
  | inr h ↦ rw h nothing-Silent
]

offset_body-Silent :
    (net : NetworkErrors) (topic : List ℕ) (partition : ℕ) (err : Option Failure) (conn : ℕ)
    (r : Outcome OffsetResp)
    → Silent (offset_body net topic partition err conn r).1
offset_body-Silent net topic partition err conn (refused f) = elim (Bool-cases (is_dead net f)) [
  | inl h ↦ rw h (closed-Silent conn)
  | inr h ↦ rw h nothing-Silent
]
offset_body-Silent net topic partition err conn (returned resp) =
    offset_found-Silent err (find_offset topic partition resp)

fetched_found-Silent : (o : Option FetchRespPartition) → Silent (fetched_found o).1
fetched_found-Silent none = nothing-Silent
fetched_found-Silent (some p) = elim (Bool-cases (is_failover p.err)) [
  | inl h ↦ rw h refreshed-Silent
  | inr h ↦ rw h nothing-Silent
]

fetch_body-Silent :
    (topic : List ℕ) (partition : ℕ) (err : Option Failure) (conn : ℕ) (r : Outcome FetchResp)
    → Silent (fetch_body topic partition err conn r).1
fetch_body-Silent topic partition err conn (refused f) = closed-Silent conn
fetch_body-Silent topic partition err conn (returned resp) =
    fetched_found-Silent (find_fetched topic partition resp)

commit_body-Silent :
    (net : NetworkErrors) (topic : List ℕ) (partition : ℕ) (err : Option Failure) (conn : ℕ)
    (r : Outcome OffsetCommitResp)
    → Silent (commit_body net topic partition err conn r).1
commit_body-Silent net topic partition err conn (refused f) = closed_if-Silent (is_dead net f) conn
commit_body-Silent net topic partition err conn (returned resp) = nothing-Silent

stored_body-Silent :
    (net : NetworkErrors) (topic : List ℕ) (partition : ℕ) (err : Option Failure) (conn : ℕ)
    (r : Outcome OffsetFetchResp)
    → Silent (stored_body net topic partition err conn r).1
stored_body-Silent net topic partition err conn (refused f) =
    closed_if-Silent (is_hung_up net f) conn
stored_body-Silent net topic partition err conn (returned resp) = nothing-Silent

-- As often given back as taken.
abbrev pub GivenBack : List Action → Type 0
GivenBack actions = (conn : ℕ) → times_given conn actions ≡ times_taken conn actions

balanced :
    (most limit : ℕ) (actions : List Action)
    → most ≤ limit
    → Settles [] most actions
    → GivenBack actions × (takes actions ≤ limit)
balanced most limit actions le h = (λ c. omega (arith, h.settled c), omega (arith, h.bounded, le))

-- However the tries of offset, of a consumer's fetch, of commit and of a coordinator's Offset end, every
-- connection is given back to the pool exactly as often as it was taken from it. offset and fetch take one
-- at most in each try that the limit allows, commit and the coordinator's Offset two: one to ask for the
-- coordinator and one to it. A limit that is not positive allows no try.
pub tries-GivenBack :
    (net : NetworkErrors) (limit : ℕ) (topic : List ℕ) (partition committed : ℕ)
    (offsets : ℕ → Try OffsetResp) (fetches : ℕ → Try FetchResp)
    (commits : ℕ → CoordinatorTry OffsetCommitResp) (stores : ℕ → CoordinatorTry OffsetFetchResp)
    → let found = (offset net limit topic partition offsets).1 in
      let fetched = (fetch limit topic partition fetches).1 in
      let saved = (commit net topic partition limit committed commits).1 in
      let stored = (stored_offset net topic partition limit stores).1 in
      let most = tries_of limit in
      (GivenBack found × (takes found ≤ most))
      × (GivenBack fetched × (takes fetched ≤ most))
      × (GivenBack saved × (takes saved ≤ most + most))
      × (GivenBack stored × (takes stored ≤ most + most))
unfolding offset fetch commit stored_offset
tries-GivenBack net limit topic partition committed offsets fetches commits stores =
    let most = tries_of limit in
    (
      balanced (rounds 0 most) most _ (omega (arith, rounds_alone most)) (
          retry-Settles (λ f. answer (refused f)) (offset_body net topic partition) 0 or_incomplete
            (leader_taking offsets) (response_of offsets) (λ k. nothing-Evens)
            (offset_body-Silent net topic partition) most 0 none []),
      balanced (rounds 0 most) most _ (omega (arith, rounds_alone most)) (
          retry-Settles (λ f. go_on (some f)) (fetch_body topic partition) 0 no_messages
            (leader_taking fetches) (response_of fetches) (λ k. nothing-Evens)
            (fetch_body-Silent topic partition) most 0 none []),
      commit_balanced (is_negative64 committed),
      balanced (rounds 1 most) (most + most) _ (omega (arith, rounds_twice most)) (
          retry-Settles (λ f. go_on (some f)) (stored_body net topic partition) 1
            (last_error (0, [])) (coordinator_taking stores) (λ k. (stores k).response)
            (coordinator_taking-Evens stores) (stored_body-Silent net topic partition) most 0 none
            []),
    )
  where
    commit_balanced :
        (negative : Bool)
        → let done =
            if negative
            then (refused (negative_offset committed), [])
            else commit_loop net topic partition commits (tries_of limit) 0 none [] in
          GivenBack done.1 × (takes done.1 ≤ tries_of limit + tries_of limit)
    commit_balanced true = ((λ c. refl), omega arith)
    commit_balanced false =
        let most = tries_of limit in
        balanced (rounds 1 most) (most + most) _ (omega (arith, rounds_twice most)) (
          retry-Settles (λ f. go_on (some f)) (commit_body net topic partition) 1 (last_error tt)
            (coordinator_taking commits) (λ k. (commits k).response)
            (coordinator_taking-Evens commits) (commit_body-Silent net topic partition) most 0 none
            [])
