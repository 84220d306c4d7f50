-- ===== src/Server/Store.antt =====
-- The Server of kafkatest/server.go: its messages and committed offsets, and the calls that change them
-- from outside. The listener is an address, or none.
use kafka.Base.{
  ℕ, zero, suc, ◌%◌, ◌^◌, List, [], ◌∷◌, ◌++◌, Option, none, some, length, map, if◌then◌else◌, Bool,
  true, false,
}
use kafka.Base.Maps.{ℕ_eq, string_eq, Map, lookup, delete, assign}
use kafka.Base.Program.{Exec, done, panic}
use kafka.Wire.BigEndian.{is_negative32}
use kafka.MessageSet.Message.{Message}
use kafka.Messages.MetadataResp.{MetadataRespBroker}

-- topicOffset
pub record TopicOffset : Type 0 where
  pub offset : ℕ
  pub metadata : List ℕ

abbrev pub Partitions : Type 0
Partitions = Map ℕ (List Message)

abbrev pub Groups : Type 0
Groups = Map (List ℕ) TopicOffset

pub record Server : Type 0 where
  pub brokers : List MetadataRespBroker
  pub topics : Map (List ℕ) Partitions
  pub offsets : Map (List ℕ) (Map ℕ Groups)
  -- the address that is listened on: its host and its port
  pub listener : Option (List ℕ × ℕ)
  pub started : Bool
  pub stopped : Bool

unfoldable pub new_server : Server
new_server = record {
  brokers = [];
  topics = [];
  offsets = [];
  listener = none;
  started = false;
  stopped = false;
}

abbrev listening : Option (List ℕ × ℕ) → Exec (List ℕ × ℕ)
listening none = panic
listening (some addr) = done addr

-- Addr panics where the server does not run.
unfoldable pub addr : Server → Exec (List ℕ × ℕ)
addr s = if s.stopped then panic else (if s.started then listening s.listener else panic)

-- Reset
unfoldable pub reset : Server → Server
reset s = record s { topics = []; offsets = [] }

abbrev emptied : Option Partitions → List ℕ → Map (List ℕ) Partitions → Map (List ℕ) Partitions
emptied none topic topics = topics
emptied (some parts) topic topics = assign topic (map (λ e. (e.0, [])) parts) topics

-- ResetTopic
unfoldable pub reset_topic : List ℕ → Server → Server
unfolding assign delete
reset_topic topic s = record s {
  topics = emptied (lookup topic s.topics) topic s.topics;
  offsets = delete topic s.offsets;
}

-- Close; what closing the listener returns is left out.
unfoldable pub close : Server → Server
close s = record s { stopped = true; listener = none }

abbrev pub or_empty : {K V : Type 0} → Option (Map K V) → Map K V
or_empty none = []
or_empty (some m) = m

abbrev pub or_no_messages : Option (List Message) → List Message
or_no_messages none = []
or_no_messages (some msgs) = msgs

-- `p, ok := t[id]`, and an empty slice stored where it is missing.
unfoldable pub ensure : ℕ → Partitions → Partitions
unfolding assign
ensure id parts = assign id (or_no_messages (lookup id parts)) parts

-- `for i := int32(0); i <= partition; i++`, over the `n` partitions from `i` on.
unfoldable pub ensure_from : ℕ → ℕ → Partitions → Partitions
unfolding ensure
ensure_from i zero parts = parts
ensure_from i (suc n) parts = ensure_from (suc i) n (ensure i parts)

-- The messages as they are stored, from the given offset on.
unfoldable pub placed_from : List ℕ → ℕ → ℕ → List Message → List Message
placed_from topic partition offset [] = []
placed_from topic partition offset (msg ∷ msgs) =
    record msg { offset = offset % 2 ^ 64; partition = partition; topic = topic }
    ∷ placed_from topic partition (suc offset) msgs

abbrev added : List ℕ → ℕ → List Message → Partitions → Partitions
added topic partition [] parts = parts
added topic partition (msg ∷ msgs) parts =
    let stored = or_no_messages (lookup partition parts) in
    assign partition (stored ++ placed_from topic partition (length stored) (msg ∷ msgs)) parts

-- AddMessages. A negative partition adds no partition in the loop.
unfoldable pub add_messages : List ℕ → ℕ → List Message → Server → Server
unfolding ensure_from placed_from assign
add_messages topic partition msgs s =
    let parts = or_empty (lookup topic s.topics) in
    let count = if is_negative32 partition then 0 else suc partition in
    record s {
      topics = assign topic (added topic partition msgs (ensure_from 0 count parts)) s.topics;
    }
