-- ===== src/Broker/Failover.antt =====
-- What leaderConnection of broker.go does about a leader that cannot be reached.
use kafka.Base.{
  ℕ, suc, ◌^◌, ◌<◌, ◌≡◌, refl, sym, ap, subst, ◌∙◌, arith, List, [], ◌∷◌, Option, none, some, Bool,
  false,
}
use kafka.Wire.BigEndian.{is_negative64}
use kafka.Base.Maps.{lookup-delete_same}
use kafka.Wire.Decoder.{Result, ok, failed}
use kafka.Messages.MetadataResp.{MetadataResp}
use kafka.Pool.Backend.{Answer, connected, dial_failed, Wake}
use kafka.Pool.Addresses.{ConnectionPool, get_connection_by_addr}
use kafka.Cluster.Metadata.{
  TopicPartition, topic_partition_eq, cache, get_endpoint, forget_endpoint, get_node_address,
}
use kafka.Broker.Endpoint.{get_leader_endpoint}
use kafka.Broker.Leader.{
  Client, LeaderTry, Tried, found, again, waiting, reinitialized, find_leader, forgetful,
  on_connection, connect_to, on_leader, leader_try, next_try, leader_loop, leader_connection,
}
use kafka.Connection.Outcome.{Failure, passed_on, no_connections_available, dial_error}

forgotten :
    (tp : TopicPartition) (client : Client) → get_endpoint tp (forgetful tp client).cluster ≡ none
unfolding get_endpoint forget_endpoint
forgotten tp client = lookup-delete_same tp client.cluster.endpoints

-- Where a try had the leader's node but no connection to it, the endpoint is forgotten, unless the pool
-- had no connection to spare or the call still waits.
abbrev pub Forgotten : TopicPartition → Tried × Client → Type 0
Forgotten tp (found conn, client) = Unit
Forgotten tp (waiting, client) = Unit
Forgotten tp (again (passed_on e), client) = Unit
Forgotten tp (again no_connections_available, client) = Unit
Forgotten tp (again _, client) = get_endpoint tp client.cluster ≡ none

on_connection-Forgotten :
    (tp : TopicPartition) (client : Client) (answer : Option (Option Answer) × ConnectionPool)
    → Forgotten tp (on_connection tp client answer)
on_connection-Forgotten tp client (none, cp) = forgotten tp (record client { conns = cp })
on_connection-Forgotten tp client (some none, cp) = tt
on_connection-Forgotten tp client (some (some (connected conn)), cp) = tt
on_connection-Forgotten tp client (some (some dial_failed), cp) =
    forgotten tp (record client { conns = cp })
on_connection-Forgotten tp client (some (some Answer.no_connections_available), cp) = tt

connect_to-Forgotten :
    (tp : TopicPartition) (wakes : List Wake) (addr : List ℕ) (client : Client)
    → Forgotten tp (connect_to tp wakes addr client)
connect_to-Forgotten tp wakes [] client = forgotten tp client
connect_to-Forgotten tp wakes (a ∷ addr) client =
    on_connection-Forgotten tp client (get_connection_by_addr (a ∷ addr) wakes client.conns)

on_leader-Forgotten :
    (tp : TopicPartition) (wakes : List Wake) (leader : Result ℕ × Client)
    → Forgotten tp (on_leader tp wakes leader)
on_leader-Forgotten tp wakes (failed e, client) = tt
on_leader-Forgotten tp wakes (ok node, client) =
    connect_to-Forgotten tp wakes (get_node_address node client.cluster) client

-- A try of leaderConnection that fails after it knew the leader's node, because the node's address is
-- not known, the pool has no backend for it or dialling failed, leaves the endpoint forgotten; one that
-- fails because the pool had no connection to spare need not.
pub leader_try-Forgotten :
    (allow_creation : Bool) (tp : TopicPartition) (t : LeaderTry) (client : Client)
    → Forgotten tp (leader_try allow_creation tp t client)
unfolding leader_try
leader_try-Forgotten allow_creation tp t client =
    on_leader-Forgotten tp t.wakes (find_leader allow_creation tp t client)

-- The client after a refresh.
abbrev pub refreshed_client : MetadataResp → Client → Client
refreshed_client meta client =
    let (cm, addrs) = cache meta client.cluster in
    record { cluster = cm; conns = reinitialized addrs client.conns }

-- A forgotten endpoint is looked up in fresh metadata.
find_leader-refreshed :
    (allow_creation : Bool) (tp : TopicPartition) (t : LeaderTry) (meta : MetadataResp)
    (client : Client) (node : ℕ)
    → t.refreshed ≡ ok meta
    → get_endpoint tp client.cluster ≡ none
    → get_endpoint tp (refreshed_client meta client).cluster ≡ some node
    → find_leader allow_creation tp t client ≡ (ok node, refreshed_client meta client)
unfolding find_leader get_leader_endpoint
find_leader-refreshed allow_creation tp t meta client node fresh gone there =
    rw (fresh, gone, there) refl

-- The facts about the second try: the fresh metadata names another leader, whose address has a backend
-- that gives a connection.
pub record NewLeader (tp : TopicPartition) (t : LeaderTry) (client : Client) (conn : ℕ)
    (after : Client) : Type 0 where
  pub meta : MetadataResp
  pub node : ℕ
  pub head : ℕ
  pub tail : List ℕ
  pub pool : ConnectionPool
  pub fresh : t.refreshed ≡ ok meta
  pub leader : get_endpoint tp (refreshed_client meta client).cluster ≡ some node
  pub address : get_node_address node (refreshed_client meta client).cluster ≡ head ∷ tail
  pub gives :
      get_connection_by_addr (head ∷ tail) t.wakes (refreshed_client meta client).conns
      ≡ (some (some (connected conn)), pool)
  pub result : after ≡ record (refreshed_client meta client) { conns = pool }

found_leader :
    (allow_creation : Bool) (tp : TopicPartition) (t : LeaderTry) (client : Client) (conn : ℕ)
    (after : Client)
    → get_endpoint tp client.cluster ≡ none
    → NewLeader tp t client conn after
    → leader_try allow_creation tp t client ≡ (found conn, after)
unfolding leader_try
found_leader allow_creation tp t client conn after gone n =
    let c = refreshed_client n.meta client in
    ap (on_leader tp t.wakes)
      (find_leader-refreshed allow_creation tp t n.meta client n.node n.fresh gone n.leader)
    ∙ ap (λ (addr : List ℕ). connect_to tp t.wakes addr c) n.address
    ∙ ap (on_connection tp c) n.gives
    ∙ ap (λ (x : Client). (found conn, x)) (sym n.result)

-- Where the leader that the metadata names cannot be dialled, leaderConnection with a limit of two or
-- more tries fetches the metadata anew in the second, and connects to the leader that it names then.
pub leader_connection-fails_over :
    (left : ℕ) (allow_creation : Bool) (tp : TopicPartition) (tries : ℕ → LeaderTry)
    (client lost after : Client) (conn : ℕ)
    → suc (suc left) < 2 ^ 63
    → leader_try allow_creation tp (tries 0) client ≡ (again dial_error, lost)
    → NewLeader tp (tries 1) lost conn after
    → leader_connection (suc (suc left)) allow_creation tp tries client ≡ (found conn, after)
unfolding leader_connection leader_loop
leader_connection-fails_over left allow_creation tp tries client lost after conn small first n =
    let gone : get_endpoint tp lost.cluster ≡ none =
      subst (λ (x : Tried × Client). Forgotten tp x) first
        (leader_try-Forgotten allow_creation tp (tries 0) client) in
    let positive : is_negative64 (suc (suc left)) ≡ false = ground arith in
    let second = found_leader allow_creation tp (tries 1) lost conn after gone n in
    let loop : ℕ → ℕ → Failure → Client → Tried × Client =
      λ n k f. leader_loop allow_creation tp tries n k (some f) in
    rw positive (ap (next_try (loop (suc left) 1)) first ∙ ap (next_try (loop left 2)) second)
