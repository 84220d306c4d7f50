-- ===== src/Broker/Coordinator.antt =====
-- The offset coordinator of broker.go, and the search for it.
use kafka.Base.{ℕ, List, [], ◌∷◌, Option, none, some, if◌then◌else◌}
use kafka.Wire.BigEndian.{is_negative64}
use kafka.Wire.Errors.{kafka_error, err_no_coordinator}
use kafka.Messages.GroupCoordinatorResp.{GroupCoordinatorResp}
use kafka.Messages.OffsetCommitReq.{OffsetCommitReq}
use kafka.Messages.OffsetCommitResp.{
  OffsetCommitResp, OffsetCommitRespTopic, OffsetCommitRespPartition,
}
use kafka.Messages.OffsetFetchReq.{OffsetFetchReq}
use kafka.Messages.OffsetFetchResp.{OffsetFetchResp, OffsetFetchRespTopic, OffsetFetchRespPartition}
use kafka.Cluster.Metadata.{node_addr}
use kafka.Connection.Outcome.{
  Failure, passed_on, no_broker_reached, incomplete_response, negative_offset, Outcome, returned,
  refused, NetworkErrors, is_dead, is_hung_up,
}
use kafka.Broker.Leader.{tries_of}
use kafka.Broker.Attempts.{
  Action, took, closed, Taking, Next, answer, go_on, give_back_all, after_actions, retry,
  find_partition,
}
use kafka.Broker.Requests.{with_error}

-- The first of the brokers, in the order in which they are tried, that gives a connection.
abbrev pub first_connected : List (Outcome ℕ) → Option ℕ
first_connected [] = none
first_connected (returned conn ∷ _) = some conn
first_connected (refused _ ∷ rest) = first_connected rest

abbrev pub connection_to_ask : Option ℕ → List (Outcome ℕ) → Option ℕ
connection_to_ask none brokers = first_connected brokers
connection_to_ask (some conn) brokers = some conn

abbrev pub coordinator_of : Outcome GroupCoordinatorResp → Outcome GroupCoordinatorResp
coordinator_of (refused f) = refused f
coordinator_of (returned resp) = with_error resp resp.err

abbrev pub ask_on :
    Option ℕ → Outcome GroupCoordinatorResp → Outcome GroupCoordinatorResp × List Action
ask_on none response = (refused no_broker_reached, [])
ask_on (some conn) response =
    after_actions (took conn ∷ []) (give_back_all (coordinator_of response) (conn ∷ []))

-- getGroupCoordinator, with the idle connection of the pool, what the brokers give in the order in which
-- they are tried, and the outcome of the request.
unfoldable pub get_group_coordinator :
    Option ℕ
    → List (Outcome ℕ)
    → Outcome GroupCoordinatorResp
    → Outcome GroupCoordinatorResp × List Action
get_group_coordinator idle brokers response = ask_on (connection_to_ask idle brokers) response

abbrev no_coordinator : Failure
no_coordinator = passed_on (kafka_error err_no_coordinator)

abbrev pub reached : Outcome ℕ → Outcome ℕ
reached (returned conn) = returned conn
reached (refused f) = refused no_coordinator

-- `fmt.Sprintf("%s:%d", resp.CoordinatorHost, resp.CoordinatorPort)`
abbrev pub coordinator_addr : GroupCoordinatorResp → List ℕ
coordinator_addr resp = node_addr (record {
  node_id = resp.coordinator_id;
  host = resp.coordinator_host;
  port = resp.coordinator_port;
})

abbrev pub connect_coordinator :
    (List ℕ → Outcome ℕ) → Outcome GroupCoordinatorResp × List Action → Outcome ℕ × List Action
connect_coordinator connections (refused f, actions) = (refused no_coordinator, actions)
connect_coordinator connections (returned resp, actions) =
    (reached (connections (coordinator_addr resp)), actions)

-- coordinatorConnection, with what GetConnectionByAddr gives for an address.
unfoldable pub coordinator_connection :
    Option ℕ
    → List (Outcome ℕ)
    → Outcome GroupCoordinatorResp
    → (List ℕ → Outcome ℕ)
    → Outcome ℕ × List Action
unfolding get_group_coordinator node_addr
coordinator_connection idle brokers response connections =
    connect_coordinator connections (get_group_coordinator idle brokers response)

-- One try of commit or of Offset: what the search for the coordinator meets, what GetConnectionByAddr
-- gives for an address, and the outcome of the request.
pub record CoordinatorTry (R : Type 0) : Type 0 where
  pub idle : Option ℕ
  pub brokers : List (Outcome ℕ)
  pub found : Outcome GroupCoordinatorResp
  pub connections : List ℕ → Outcome ℕ
  pub response : Outcome R

unfoldable pub coordinator_taking : {R : Type 0} → (ℕ → CoordinatorTry R) → ℕ → Taking
unfolding coordinator_connection
coordinator_taking tries k =
    let t = tries k in coordinator_connection t.idle t.brokers t.found t.connections

-- The zero time, which is not written, is 0 here.
unfoldable pub commit_request : List ℕ → List ℕ → List ℕ → ℕ → ℕ → List ℕ → OffsetCommitReq
commit_request client_id group topic partition offset metadata = record {
  correlation_id = 0;
  client_id = client_id;
  consumer_group = group;
  topics =
      (record {
        name = topic;
        partitions =
            (record { id = partition; offset = offset; time_stamp = 0; metadata = metadata } ∷ []);
      }
        ∷ []);
}

abbrev pub find_committed : List ℕ → ℕ → OffsetCommitResp → Option OffsetCommitRespPartition
find_committed topic partition resp =
    find_partition {T = OffsetCommitRespTopic} (λ t. t.name) (λ t. t.partitions)
      (λ (p : OffsetCommitRespPartition). p.id) topic partition resp.topics

abbrev pub commit_found : Option OffsetCommitRespPartition → Outcome (Unit {0})
commit_found none = refused incomplete_response
commit_found (some p) = with_error tt p.err

-- The error that a loop without an answer ends with; nil where no try was made.
abbrev pub last_error : {A : Type 0} → A → Option Failure → Outcome A
last_error a none = returned a
last_error a (some f) = refused f

module _ (net : NetworkErrors) (topic : List ℕ) (partition : ℕ) where
  abbrev pub commit_body :
      Option Failure → ℕ → Outcome OffsetCommitResp → Next (Unit {0}) × List Action
  commit_body err conn (refused f) =
      (go_on (some f), if is_dead net f then closed conn ∷ [] else [])
  commit_body err conn (returned resp) =
      (answer (commit_found (find_committed topic partition resp)), [])

  abbrev pub commit_loop :
      (ℕ → CoordinatorTry OffsetCommitResp)
      → ℕ
      → ℕ
      → Option Failure
      → List ℕ
      → Outcome (Unit {0}) × List Action
  commit_loop tries =
      retry (λ f. go_on (some f)) commit_body (last_error tt) (coordinator_taking tries)
        (λ k. (tries k).response)

  -- commit, and so Commit and CommitFull, which differ in the request only.
  unfoldable pub commit :
      ℕ → ℕ → (ℕ → CoordinatorTry OffsetCommitResp) → Outcome (Unit {0}) × List Action
  unfolding retry find_partition coordinator_taking
  commit limit offset tries =
      if is_negative64 offset
      then (refused (negative_offset offset), [])
      else commit_loop tries (tries_of limit) 0 none []

  abbrev pub find_stored : OffsetFetchResp → Option OffsetFetchRespPartition
  find_stored resp =
      find_partition {T = OffsetFetchRespTopic} (λ t. t.name) (λ t. t.partitions)
        (λ (p : OffsetFetchRespPartition). p.id) topic partition resp.topics

  abbrev pub stored : Option OffsetFetchRespPartition → Outcome (ℕ × List ℕ)
  stored none = refused incomplete_response
  stored (some p) = with_error (p.offset, p.metadata) p.err

  abbrev pub stored_body :
      Option Failure → ℕ → Outcome OffsetFetchResp → Next (ℕ × List ℕ) × List Action
  stored_body err conn (refused f) =
      (go_on (some f), if is_hung_up net f then closed conn ∷ [] else [])
  stored_body err conn (returned resp) = (answer (stored (find_stored resp)), [])

  -- Offset of the coordinator: the offset and its metadata.
  unfoldable pub stored_offset :
      ℕ → (ℕ → CoordinatorTry OffsetFetchResp) → Outcome (ℕ × List ℕ) × List Action
  unfolding retry find_partition coordinator_taking
  stored_offset limit tries =
      retry (λ f. go_on (some f)) stored_body (last_error (0, [])) (coordinator_taking tries)
        (λ k. (tries k).response) (tries_of limit) 0 none []

unfoldable pub stored_request : List ℕ → List ℕ → ℕ → OffsetFetchReq
stored_request group topic partition = record {
  correlation_id = 0;
  client_id = [];
  consumer_group = group;
  topics = (record { name = topic; partitions = (partition ∷ []) } ∷ []);
}
