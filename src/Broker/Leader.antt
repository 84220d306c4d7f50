-- ===== src/Broker/Leader.antt =====
-- leaderConnection of broker.go, on the metadata and the connection pool of a client. For each try it is
-- given what RefreshMetadata fetched, what the request for a new topic returned, and what woke the wait
-- for a connection. One caller at a time: nothing else changes the client between its steps.
use kafka.Base.{ℕ, zero, suc, List, [], ◌∷◌, Option, none, some, Bool, if◌then◌else◌}
use kafka.Wire.BigEndian.{is_negative64}
use kafka.Wire.Decoder.{Result, ok, failed}
use kafka.Messages.MetadataResp.{MetadataResp}
use kafka.Pool.Backend.{Answer, connected, dial_failed, Wake}
use kafka.Pool.Addresses.{ConnectionPool, initialize_addrs, get_connection_by_addr}
use kafka.Cluster.Metadata.{
  TopicPartition, Cluster, cache, get_endpoint, forget_endpoint, get_node_address,
}
use kafka.Broker.Endpoint.{get_leader_endpoint}
use kafka.Connection.Outcome.{
  Failure, passed_on, no_connections_available, dial_error, no_backend, unknown_broker_id,
  programmer_error,
}

-- The fields of Broker.
pub record Client : Type 0 where
  pub cluster : Cluster
  pub conns : ConnectionPool

pub record LeaderTry : Type 0 where
  pub refreshed : Result MetadataResp
  pub created : Result MetadataResp
  pub wakes : List Wake

-- How a try ends: with a connection, with an error to try again after, or not yet.
pub data Tried : Type 0 where
  found : ℕ → Tried
  again : Failure → Tried
  waiting : Tried

-- With refreshed metadata, cache hands the brokers' addresses to the connection pools.
abbrev pub reinitialized : Option (List (List ℕ)) → ConnectionPool → ConnectionPool
reinitialized none cp = cp
reinitialized (some addrs) cp = initialize_addrs addrs cp

abbrev pub pool_after : Option ℕ → Result MetadataResp → Client → ConnectionPool
pool_after (some node) refreshed client = client.conns
pool_after none (failed e) client = client.conns
pool_after none (ok meta) client = reinitialized (cache meta client.cluster).1 client.conns

unfoldable pub find_leader : Bool → TopicPartition → LeaderTry → Client → Result ℕ × Client
unfolding get_endpoint get_leader_endpoint cache initialize_addrs
find_leader allow_creation tp t client =
    let (node, cm) = get_leader_endpoint allow_creation tp t.refreshed t.created client.cluster in
    (
      node,
      record {
        cluster = cm;
        conns = pool_after (get_endpoint tp client.cluster) t.refreshed client;
      },
    )

abbrev pub forgetful : TopicPartition → Client → Client
forgetful tp client = record client { cluster = forget_endpoint tp client.cluster }

-- Any error but NoConnectionsAvailable makes the endpoint forgotten.
abbrev pub on_connection :
    TopicPartition → Client → Option (Option Answer) × ConnectionPool → Tried × Client
on_connection tp client (none, cp) = (again no_backend, forgetful tp (record client { conns = cp }))
on_connection tp client (some none, cp) = (waiting, record client { conns = cp })
on_connection tp client (some (some (connected conn)), cp) =
    (found conn, record client { conns = cp })
on_connection tp client (some (some dial_failed), cp) =
    (again dial_error, forgetful tp (record client { conns = cp }))
on_connection tp client (some (some Answer.no_connections_available), cp) =
    (again no_connections_available, record client { conns = cp })

abbrev pub connect_to : TopicPartition → List Wake → List ℕ → Client → Tried × Client
connect_to tp wakes [] client = (again unknown_broker_id, forgetful tp client)
connect_to tp wakes (a ∷ addr) client =
    on_connection tp client (get_connection_by_addr (a ∷ addr) wakes client.conns)

abbrev pub on_leader : TopicPartition → List Wake → Result ℕ × Client → Tried × Client
on_leader tp wakes (failed e, client) = (again (passed_on e), client)
on_leader tp wakes (ok node, client) =
    connect_to tp wakes (get_node_address node client.cluster) client

-- One round of the loop.
unfoldable pub leader_try : Bool → TopicPartition → LeaderTry → Client → Tried × Client
unfolding find_leader forget_endpoint get_node_address get_connection_by_addr
leader_try allow_creation tp t client =
    on_leader tp t.wakes (find_leader allow_creation tp t client)

-- The error of the last try; there is none where no try was made.
abbrev or_programmer_error : Option Failure → Tried
or_programmer_error none = again programmer_error
or_programmer_error (some f) = again f

abbrev pub next_try : (Failure → Client → Tried × Client) → Tried × Client → Tried × Client
next_try rest (again f, client) = rest f client
next_try rest (found conn, client) = (found conn, client)
next_try rest (waiting, client) = (waiting, client)

-- The loop, with the tries left and the number of the next.
unfoldable pub leader_loop :
    Bool → TopicPartition → (ℕ → LeaderTry) → ℕ → ℕ → Option Failure → Client → Tried × Client
unfolding leader_try
leader_loop allow_creation tp tries zero k err client = (or_programmer_error err, client)
leader_loop allow_creation tp tries (suc left) k err client =
    next_try (λ f after. leader_loop allow_creation tp tries left (suc k) (some f) after)
      (leader_try allow_creation tp (tries k) client)

-- A limit that is not positive allows no try.
abbrev pub tries_of : ℕ → ℕ
tries_of limit = if is_negative64 limit then 0 else limit

-- `again f` is the error f here.
unfoldable pub leader_connection :
    ℕ → Bool → TopicPartition → (ℕ → LeaderTry) → Client → Tried × Client
unfolding leader_loop
leader_connection limit allow_creation tp tries client =
    leader_loop allow_creation tp tries (tries_of limit) 0 none client
