-- ===== src/Examples/Storing.antt =====
-- A mock server that stores messages and committed offsets.
use kafka.Base.{ℕ, ◌+◌, ◌≡◌, refl, List, [], ◌∷◌, none, arith, length, if◌then◌else◌}
use kafka.Base.Program.{done}
use kafka.MessageSet.Message.{Message}
use kafka.Messages.ProduceReq.{ProduceReq}
use kafka.Messages.FetchReq.{FetchReq}
use kafka.Server.Store.{
  Server, TopicOffset, new_server, add_messages, ensure_from, ensure, placed_from,
}
use kafka.Server.Handlers.{handle_produce_request, handle_fetch_request}
use kafka.Server.Offsets.{get_topic_offset, set_topic_offset}
use kafka.Server.Stored.{
  numbered, stored_messages, one_produced, one_fetched, same_entry, fetch-produce,
  get_topic_offset-set,
}
use kafka.Base.Maps.{assign, delete, lookup}
use kafka.Examples.{sample_message}

abbrev topic : List ℕ
topic = 97 ∷ []

-- One message is stored in the partition 1.
abbrev server : Server
server = add_messages topic 1 (sample_message ∷ []) new_server

abbrev to_store : List Message
to_store = sample_message ∷ sample_message ∷ []

abbrev produce_two : ProduceReq
produce_two = record {
  correlation_id = 7;
  client_id = 98 ∷ [];
  compression = 0;
  required_acks = 1;
  timeout = 1500000000;
  topics = one_produced topic 1 to_store;
}

abbrev fetch_new : FetchReq
fetch_new = record {
  correlation_id = 8;
  client_id = 98 ∷ [];
  max_wait_time = 1500000000;
  min_bytes = 1;
  topics = one_fetched topic 1 1 1024;
}

one_stored : length (stored_messages topic 1 server) ≡ 1
unfolding new_server add_messages ensure_from ensure placed_from assign delete lookup
one_stored = refl

fetch-produce_example :
    handle_fetch_request fetch_new (handle_produce_request produce_two server).1
    ≡ done (record {
      correlation_id = 8;
      topics =
          (record {
            name = topic;
            partitions =
                (record {
                  id = 1;
                  err = none;
                  tip_offset = length (stored_messages topic 1 server) + 2;
                  messages = numbered topic (length (stored_messages topic 1 server)) to_store;
                }
                  ∷ []);
          }
            ∷ []);
    })
unfolding new_server add_messages ensure_from ensure placed_from assign delete lookup
fetch-produce_example =
    fetch-produce produce_two fetch_new topic 1 1024 to_store server refl refl (omega arith)

abbrev committed : TopicOffset
committed = record { offset = 5; metadata = 120 ∷ [] }

get_topic_offset-set_example :
    get_topic_offset (99 ∷ []) topic 1 (set_topic_offset (99 ∷ []) topic 0 committed server) ≡ (
      if same_entry (99 ∷ []) topic 1 (99 ∷ []) topic 0
      then committed
      else get_topic_offset (99 ∷ []) topic 1 server)
get_topic_offset-set_example =
    get_topic_offset-set (99 ∷ []) topic (99 ∷ []) topic 1 0 committed server
