-- ===== src/Examples/Leading.antt =====
-- The requests of a broker's clients, and a leader that has gone.
use kafka.Base.{
  ℕ, suc, ◌+◌, ◌≤◌, ◌≡◌, refl, List, [], ◌∷◌, none, some, false, arith, map, zero, ◌==◌,
}
use kafka.Base.Maps.{lookup, delete, assign, assign_all}
use kafka.Wire.Errors.{eof, kafka_error, err_not_leader_for_partition}
use kafka.Wire.Decoder.{ok, failed}
use kafka.Messages.MetadataResp.{MetadataResp, MetadataRespBroker}
use kafka.Messages.ProduceResp.{ProduceResp, ProduceRespPartition}
use kafka.Messages.FetchResp.{FetchResp, FetchRespPartition}
use kafka.Messages.GroupCoordinatorResp.{GroupCoordinatorResp}
use kafka.Messages.OffsetFetchResp.{OffsetFetchResp}
use kafka.Messages.OffsetCommitResp.{OffsetCommitResp}
use kafka.Pool.Backend.{
  waited, get_connection, get_new_connection, dial, keep_open, new_backend, wake_once,
}
use kafka.Pool.Addresses.{
  new_connection_pool, initialize_addrs, get_connection_by_addr, deleted_addrs, add_addrs,
  add_if_new, remove_addrs, contains, close_backend,
}
use kafka.Cluster.Metadata.{
  TopicPartition, Cluster, cache, cache_topics, get_endpoint, forget_endpoint, get_node_address,
  node_addr, digits,
}
use kafka.Broker.Endpoint.{get_leader_endpoint}
use kafka.Connection.Outcome.{returned, refused, NetworkErrors, dial_error, passed_on}
use kafka.Broker.Attempts.{Try, took, gave_back, find_partition, find_in_topic, retry}
use kafka.Broker.Leader.{
  Client, LeaderTry, found, again, leader_try, leader_connection, find_leader,
}
use kafka.Broker.Failover.{NewLeader, leader_connection-fails_over}
use kafka.Broker.Producing.{produce}
use kafka.Broker.Numbered.{offset_at, content, produce_numbers}
use kafka.Broker.Requests.{fetch, offset}
use kafka.Broker.Coordinator.{
  CoordinatorTry, coordinator_taking, coordinator_connection, get_group_coordinator, commit,
  stored_offset,
}
use kafka.Broker.Counting.{takes}
use kafka.Broker.Released.{GivenBack, tries-GivenBack}
use kafka.Broker.Outcomes.{FetchFailsOver, fetch_loses_error, Acknowledged, commit-Acknowledged}
use kafka.Examples.{sample_message}

abbrev net : NetworkErrors
net = record { is_op_error = λ n. n == 1; is_epipe = λ n. n == 2 }

abbrev topic : List ℕ
topic = 97 ∷ []

abbrev moved_part : FetchRespPartition
moved_part = record {
  id = 0;
  err = some (kafka_error err_not_leader_for_partition);
  tip_offset = 0;
  messages = [];
}

abbrev moved_resp : FetchResp
moved_resp = record {
  correlation_id = 7;
  topics = (record { name = topic; partitions = (moved_part ∷ []) } ∷ []);
}

abbrev moved_try : Try FetchResp
moved_try = record { connection = returned 4; response = returned moved_resp }

moved_FailsOver : FetchFailsOver topic 0 moved_try
unfolding find_partition find_in_topic
moved_FailsOver = record {
  conn = 4;
  resp = moved_resp;
  part = moved_part;
  connected = refl;
  answered = refl;
  there = refl;
  moved = refl;
}

fetch_loses_error_example : (fetch 10 topic 0 (λ k. moved_try)).0 ≡ returned []
fetch_loses_error_example = fetch_loses_error 10 topic 0 (λ k. moved_try) (λ k. moved_FailsOver)

abbrev committed : OffsetCommitResp
committed = record {
  correlation_id = 7;
  topics = (record { name = topic; partitions = (record { id = 0; err = none } ∷ []) } ∷ []);
}

abbrev coordinator : GroupCoordinatorResp
coordinator = record {
  correlation_id = 7;
  err = none;
  coordinator_id = 1;
  coordinator_host = 97 ∷ [];
  coordinator_port = 1;
}

-- The first try reaches no broker to ask for the coordinator; the others ask on the connection 3.
abbrev commit_tries : ℕ → CoordinatorTry OffsetCommitResp
commit_tries zero = record {
  idle = none;
  brokers = refused dial_error ∷ [];
  found = refused dial_error;
  connections = λ a. refused dial_error;
  response = refused dial_error;
}
commit_tries (suc k) = record {
  idle = some 3;
  brokers = [];
  found = returned coordinator;
  connections = λ a. returned 4;
  response = returned committed;
}

abbrev lost_connections : ℕ → CoordinatorTry OffsetFetchResp
lost_connections k = record {
  idle = none;
  brokers = returned (k + 1) ∷ [];
  found = returned coordinator;
  connections = λ a. returned (k + 5);
  response = refused (passed_on eof);
}

commit-Acknowledged_example : (j : ℕ) × Acknowledged topic 0 (commit_tries j)
unfolding commit retry coordinator_taking coordinator_connection get_group_coordinator
    find_partition find_in_topic
commit-Acknowledged_example = commit-Acknowledged net topic 0 10 9 5 commit_tries refl refl

abbrev stored_part : ProduceRespPartition
stored_part = record { id = 0; err = none; offset = 30 }

abbrev stored : ProduceResp
stored = record {
  correlation_id = 7;
  topics = (record { name = topic; partitions = (stored_part ∷ []) } ∷ []);
}

produce_numbers_example :
    let made =
      produce net 1 topic 0 (sample_message ∷ sample_message ∷ []) (returned 4) (returned stored) in
    (made.offset ≡ returned 30)
    × (offset_at 1 made.messages ≡ some 31)
    × (map content made.messages ≡ map content (sample_message ∷ sample_message ∷ []))
    × (made.actions ≡ took 4 ∷ gave_back 4 ∷ [])
unfolding find_partition find_in_topic
produce_numbers_example =
    produce_numbers net 1 topic 0 4 1 (sample_message ∷ sample_message ∷ []) stored stored_part refl
      refl refl (omega arith)

tries-GivenBack_example :
    let found =
      (offset net 10 topic 0
        (λ k. record { connection = refused dial_error; response = refused dial_error })).1 in
    let fetched = (fetch 10 topic 0 (λ k. moved_try)).1 in
    let saved = (commit net topic 0 10 5 commit_tries).1 in
    let kept = (stored_offset net topic 0 10 lost_connections).1 in
    (GivenBack found × (takes found ≤ 10))
    × (GivenBack fetched × (takes fetched ≤ 10))
    × (GivenBack saved × (takes saved ≤ 20))
    × (GivenBack kept × (takes kept ≤ 20))
tries-GivenBack_example =
    tries-GivenBack net 10 topic 0 5
      (λ k. record { connection = refused dial_error; response = refused dial_error })
      (λ k. moved_try) commit_tries lost_connections

-- Two brokers, `a:1` and `b:1`.
abbrev node_a : MetadataRespBroker
node_a = record { node_id = 1; host = 97 ∷ []; port = 1 }

abbrev node_b : MetadataRespBroker
node_b = record { node_id = 2; host = 98 ∷ []; port = 1 }

abbrev led_by : ℕ → MetadataResp
led_by leader = record {
  correlation_id = 7;
  brokers = (node_a ∷ node_b ∷ []);
  topics =
      (record {
        err = none;
        name = topic;
        partitions =
            (record { id = 0; err = none; leader = leader; replicas = []; isrs = [] } ∷ []);
      }
        ∷ []);
}

abbrev empty_cluster : Cluster
empty_cluster = record { nodes = []; endpoints = []; partitions = [] }

abbrev led_by_a : Client
led_by_a = record {
  cluster = (cache (led_by 1) empty_cluster).0;
  conns = new_connection_pool 1 ((97 ∷ 58 ∷ 49 ∷ []) ∷ (98 ∷ 58 ∷ 49 ∷ []) ∷ []);
}

abbrev partition_0 : TopicPartition
partition_0 = record { topic = topic; partition = 0 }

-- `a:1` cannot be dialled; then the metadata names the broker of `b:1`, which can.
abbrev leader_tries : ℕ → LeaderTry
leader_tries zero = record {
  refreshed = failed eof;
  created = failed eof;
  wakes = waited none ∷ [];
}
leader_tries (suc k) = record {
  refreshed = ok (led_by 2);
  created = failed eof;
  wakes = waited (some 9) ∷ [];
}

abbrev lost : Client
lost = (leader_try false partition_0 (leader_tries 0) led_by_a).1

abbrev over : Client
over = (leader_try false partition_0 (leader_tries 1) lost).1

not_dialled : leader_try false partition_0 (leader_tries 0) led_by_a ≡ (again dial_error, lost)
unfolding leader_try find_leader get_endpoint get_leader_endpoint cache cache_topics assign
    assign_all delete lookup node_addr digits get_node_address forget_endpoint
    get_connection_by_addr get_connection get_new_connection dial keep_open new_backend wake_once
    initialize_addrs new_connection_pool deleted_addrs add_addrs add_if_new remove_addrs contains
    close_backend
not_dialled = refl

lost-NewLeader : NewLeader partition_0 (leader_tries 1) lost 9 over
unfolding leader_try find_leader get_endpoint get_leader_endpoint cache cache_topics assign
    assign_all delete lookup node_addr digits get_node_address forget_endpoint
    get_connection_by_addr get_connection get_new_connection dial keep_open new_backend wake_once
    initialize_addrs new_connection_pool deleted_addrs add_addrs add_if_new remove_addrs contains
    close_backend
lost-NewLeader = record {
  meta = led_by 2;
  node = 2;
  head = 98;
  tail = 58 ∷ 49 ∷ [];
  pool = _;
  fresh = refl;
  leader = refl;
  address = refl;
  gives = refl;
  result = refl;
}

leader_connection-fails_over_example :
    leader_connection 10 false partition_0 leader_tries led_by_a ≡ (found 9, over)
leader_connection-fails_over_example =
    leader_connection-fails_over 8 false partition_0 leader_tries led_by_a lost over 9 (omega arith)
      not_dialled lost-NewLeader
