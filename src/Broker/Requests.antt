-- ===== src/Broker/Requests.antt =====
-- offset, OffsetEarliest, OffsetLatest, consumer and consumer.fetch of broker.go.
use kafka.Base.{ℕ, ◌-◌, ◌^◌, List, [], ◌∷◌, Option, none, some, ◌==◌, if◌then◌else◌}
use kafka.Wire.BigEndian.{is_negative64}
use kafka.Wire.Errors.{Error}
use kafka.MessageSet.Message.{Message}
use kafka.Messages.Frame.{minus_one32}
use kafka.Messages.OffsetReq.{OffsetReq}
use kafka.Messages.OffsetResp.{OffsetResp, OffsetRespTopic, OffsetRespPartition}
use kafka.Messages.FetchReq.{FetchReq}
use kafka.Messages.FetchResp.{FetchResp, FetchRespTopic, FetchRespPartition}
use kafka.Connection.Outcome.{
  Failure, passed_on, incomplete_response, invalid_start_offset, Outcome, returned, refused,
  NetworkErrors, is_dead,
}
use kafka.Broker.Consumer.{Consumer}
use kafka.Broker.Leader.{tries_of}
use kafka.Broker.Attempts.{
  Action, closed, refreshed, Try, Next, answer, go_on, leader_taking, response_of, retry,
  find_partition, is_failover,
}

-- A value beside an error: the callers look at the error first.
abbrev pub with_error : {A : Type 0} → A → Option Error → Outcome A
with_error a none = returned a
with_error a (some e) = refused (passed_on e)

abbrev pub failure_of : Option Error → Option Failure
failure_of none = none
failure_of (some e) = some (passed_on e)

unfoldable pub offset_request : List ℕ → List ℕ → ℕ → ℕ → OffsetReq
offset_request client_id topic partition time_ms = record {
  correlation_id = 0;
  client_id = client_id;
  replica_id = minus_one32;
  topics =
      (record {
        name = topic;
        partitions = (record { id = partition; time_ms = time_ms; max_offsets = 2 } ∷ []);
      }
        ∷ []);
}

abbrev pub find_offset : List ℕ → ℕ → OffsetResp → Option OffsetRespPartition
find_offset topic partition resp =
    find_partition {T = OffsetRespTopic} (λ t. t.name) (λ t. t.partitions)
      (λ (p : OffsetRespPartition). p.id) topic partition resp.topics

-- No offsets are the case of a partition without messages.
abbrev first_or_zero : List ℕ → ℕ
first_or_zero [] = 0
first_or_zero (offset ∷ _) = offset

abbrev pub or_incomplete : {A : Type 0} → Option Failure → Outcome A
or_incomplete none = refused incomplete_response
or_incomplete (some f) = refused f

-- A response without the partition leaves resErr as it was.
abbrev pub offset_found : Option Failure → Option OffsetRespPartition → Next ℕ × List Action
offset_found err none = (go_on err, [])
offset_found err (some p) =
    if is_failover p.err
    then (go_on (failure_of p.err), refreshed ∷ [])
    else (answer (with_error (first_or_zero p.offsets) p.err), [])

module _ (net : NetworkErrors) where
  abbrev pub offset_body :
      List ℕ → ℕ → Option Failure → ℕ → Outcome OffsetResp → Next ℕ × List Action
  offset_body topic partition err conn (refused f) =
      if is_dead net f then (go_on (some f), closed conn ∷ []) else (answer (refused f), [])
  offset_body topic partition err conn (returned resp) =
      offset_found err (find_offset topic partition resp)

  -- offset, for a limit on tries that is an int.
  unfoldable pub offset : ℕ → List ℕ → ℕ → (ℕ → Try OffsetResp) → Outcome ℕ × List Action
  unfolding retry find_partition
  offset limit topic partition tries =
      retry (λ f. answer (refused f)) (offset_body topic partition) or_incomplete
        (leader_taking tries) (response_of tries) (tries_of limit) 0 none []

-- StartOffsetNewest is -2 and StartOffsetOldest -1, the other way round than the times of a request.
abbrev pub start_offset_newest : ℕ
start_offset_newest = 2 ^ 64 - 2

abbrev pub start_offset_oldest : ℕ
start_offset_oldest = 2 ^ 64 - 1

-- OffsetLatest and OffsetEarliest
unfoldable pub offset_latest_request : List ℕ → List ℕ → ℕ → OffsetReq
unfolding offset_request
offset_latest_request client_id topic partition =
    offset_request client_id topic partition (2 ^ 64 - 1)

unfoldable pub offset_earliest_request : List ℕ → List ℕ → ℕ → OffsetReq
unfolding offset_request
offset_earliest_request client_id topic partition =
    offset_request client_id topic partition (2 ^ 64 - 2)

abbrev consumer_at : ℕ → Outcome ℕ → Outcome Consumer
consumer_at retry_limit (refused f) = refused f
consumer_at retry_limit (returned offset) =
    returned (record { retry_limit = retry_limit; offset = offset; msgbuf = [] })

-- consumer, with the outcomes of OffsetLatest and OffsetEarliest.
unfoldable pub consumer : ℕ → ℕ → Outcome ℕ → Outcome ℕ → Outcome Consumer
consumer retry_limit start_offset latest earliest =
    if is_negative64 start_offset
    then if start_offset == start_offset_newest
      then consumer_at retry_limit latest
      else if start_offset == start_offset_oldest
      then consumer_at retry_limit earliest
      else refused (invalid_start_offset start_offset)
    else consumer_at retry_limit (returned start_offset)

-- fetch: the request.
unfoldable pub fetch_request : List ℕ → ℕ → ℕ → ℕ → List ℕ → ℕ → ℕ → FetchReq
fetch_request client_id request_timeout min_size max_size topic partition offset = record {
  correlation_id = 0;
  client_id = client_id;
  max_wait_time = request_timeout;
  min_bytes = min_size;
  topics =
      (record {
        name = topic;
        partitions = (record { id = partition; fetch_offset = offset; max_bytes = max_size } ∷ []);
      }
        ∷ []);
}

abbrev pub find_fetched : List ℕ → ℕ → FetchResp → Option FetchRespPartition
find_fetched topic partition resp =
    find_partition {T = FetchRespTopic} (λ t. t.name) (λ t. t.partitions)
      (λ (p : FetchRespPartition). p.id) topic partition resp.topics

-- resErr was set to the nil error of Fetch, and stays so when the metadata is refreshed.
abbrev pub fetched_found : Option FetchRespPartition → Next (List Message) × List Action
fetched_found none = (answer (refused incomplete_response), [])
fetched_found (some p) =
    if is_failover p.err
    then (go_on none, refreshed ∷ [])
    else (answer (with_error p.messages p.err), [])

-- After any error of Fetch the connection is closed.
abbrev pub fetch_body :
    List ℕ → ℕ → Option Failure → ℕ → Outcome FetchResp → Next (List Message) × List Action
fetch_body topic partition err conn (refused f) = (go_on (some f), closed conn ∷ [])
fetch_body topic partition err conn (returned resp) =
    fetched_found (find_fetched topic partition resp)

-- `return nil, resErr`
abbrev pub no_messages : Option Failure → Outcome (List Message)
no_messages none = returned []
no_messages (some f) = refused f

unfoldable pub fetch : ℕ → List ℕ → ℕ → (ℕ → Try FetchResp) → Outcome (List Message) × List Action
unfolding retry find_partition
fetch limit topic partition tries =
    retry (λ f. go_on (some f)) (fetch_body topic partition) no_messages (leader_taking tries)
      (response_of tries) (tries_of limit) 0 none []
