-- ===== src/Broker/Producing.antt =====
-- The producer of broker.go. The outcomes of leaderConnection and of the connection's Produce are given.
use kafka.Base.{
  ℕ, suc, ◌+◌, ◌%◌, ◌^◌, List, [], ◌∷◌, ◌++◌, Option, none, some, Bool, true, false, ◌==◌,
  if◌then◌else◌,
}
use kafka.MessageSet.Message.{Message}
use kafka.Messages.ProduceReq.{ProduceReq}
use kafka.Messages.ProduceResp.{ProduceResp, ProduceRespTopic, ProduceRespPartition}
use kafka.Connection.Outcome.{
  Failure, no_connections_available, incomplete_response, Outcome, returned, refused, NetworkErrors,
  is_dead, is_hung_up,
}
use kafka.Broker.Attempts.{
  Action, took, closed, refreshed_in_background, give_back_all, after_actions, find_partition,
}
use kafka.Broker.Requests.{with_error}

unfoldable pub produce_request : List ℕ → ℕ → ℕ → ℕ → List ℕ → ℕ → List Message → ProduceReq
produce_request client_id compression required_acks timeout topic partition messages = record {
  correlation_id = 0;
  client_id = client_id;
  compression = compression;
  required_acks = required_acks;
  timeout = timeout;
  topics =
      (record { name = topic; partitions = (record { id = partition; messages = messages } ∷ []) }
        ∷ []);
}

abbrev pub find_produced : List ℕ → ℕ → ProduceResp → Option ProduceRespPartition
find_produced topic partition resp =
    find_partition {T = ProduceRespTopic} (λ t. t.name) (λ t. t.partitions)
      (λ (p : ProduceRespPartition). p.id) topic partition resp.topics

abbrev pub produced_offset : Option ProduceRespPartition → Outcome ℕ
produced_offset none = refused incomplete_response
produced_offset (some p) = with_error p.offset p.err

module _ (net : NetworkErrors) (required_acks : ℕ) (topic : List ℕ) (partition : ℕ) where
  -- Without acknowledgements the response is nil, and is not looked at.
  abbrev pub on_response : ℕ → Outcome ProduceResp → Outcome ℕ × List Action
  on_response conn (refused f) = (refused f, if is_dead net f then closed conn ∷ [] else [])
  on_response conn (returned resp) = (
    if required_acks == 0 then returned 0 else produced_offset (find_produced topic partition resp),
    [],
  )

  abbrev pub given_back : ℕ → Outcome ℕ × List Action → Outcome ℕ × List Action
  given_back conn (a, actions) =
      after_actions (took conn ∷ []) (after_actions actions (give_back_all a (conn ∷ [])))

  -- produce
  unfoldable pub produce_once : Outcome ℕ → Outcome ProduceResp → Outcome ℕ × List Action
  unfolding find_partition
  produce_once (refused f) response = (refused f, [])
  produce_once (returned conn) response = given_back conn (on_response conn response)

-- `for i, msg := range messages { msg.Offset = int64(i) + offset }`, from the i-th on.
unfoldable pub assign_offsets : ℕ → ℕ → List Message → List Message
assign_offsets i offset [] = []
assign_offsets i offset (msg ∷ msgs) =
    record msg { offset = (i + offset) % 2 ^ 64 } ∷ assign_offsets (suc i) offset msgs

-- A broken connection and a pool without connections are not helped by a refresh.
abbrev pub needs_refresh : NetworkErrors → Failure → Bool
needs_refresh net no_connections_available = false
needs_refresh net f = if is_hung_up net f then false else true

-- What a call of Produce returns, with the messages and what it did.
pub record Produced : Type 0 where
  pub offset : Outcome ℕ
  pub messages : List Message
  pub actions : List Action

abbrev pub conclude : NetworkErrors → List Message → Outcome ℕ × List Action → Produced
conclude net messages (returned offset, actions) = record {
  offset = returned offset;
  messages = assign_offsets 0 offset messages;
  actions = actions;
}
conclude net messages (refused f, actions) = record {
  offset = refused f;
  messages = messages;
  actions = actions ++ (if needs_refresh net f then refreshed_in_background ∷ [] else []);
}

-- Produce
unfoldable pub produce :
    NetworkErrors → ℕ → List ℕ → ℕ → List Message → Outcome ℕ → Outcome ProduceResp → Produced
unfolding produce_once assign_offsets
produce net required_acks topic partition messages connection response =
    conclude net messages (produce_once net required_acks topic partition connection response)
