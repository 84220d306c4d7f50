-- ===== src/Server/Service.antt =====
-- What the mock server of kafkatest/server.go does for its clients, without bytes: the requests and
-- responses as values, and the answer to each.
use kafka.Base.{ℕ, ◌+◌, ◌^◌, ◌<◌, List, [], ◌∷◌, ◌++◌, Option, none, some, length, map}
use kafka.Base.Program.{Exec, done, panic, out_of_fuel, then_exec, after}
use kafka.MessageSet.Message.{Codecs}
use kafka.Messages.Frame.{
  frame, produce_req_kind, fetch_req_kind, offset_req_kind, metadata_req_kind,
  offset_commit_req_kind, offset_fetch_req_kind, group_coordinator_req_kind,
}
use kafka.Messages.ProduceReq.{ProduceReq}
use kafka.Messages.ProduceReq.Layout as ProduceReqLayout
use kafka.Messages.ProduceResp.{ProduceResp}
use kafka.Messages.ProduceResp.Layout as ProduceRespLayout
use kafka.Messages.FetchReq.{FetchReq}
use kafka.Messages.FetchReq.Layout as FetchReqLayout
use kafka.Messages.FetchResp.{FetchResp}
use kafka.Messages.FetchResp.Layout as FetchRespLayout
use kafka.Messages.OffsetReq.{OffsetReq}
use kafka.Messages.OffsetReq.Layout as OffsetReqLayout
use kafka.Messages.OffsetResp.{OffsetResp}
use kafka.Messages.OffsetResp.Layout as OffsetRespLayout
use kafka.Messages.MetadataReq.{MetadataReq}
use kafka.Messages.MetadataReq.Layout as MetadataReqLayout
use kafka.Messages.MetadataResp.{MetadataResp}
use kafka.Messages.MetadataResp.Layout as MetadataRespLayout
use kafka.Messages.OffsetCommitReq.{OffsetCommitReq}
use kafka.Messages.OffsetCommitReq.Layout as OffsetCommitReqLayout
use kafka.Messages.OffsetCommitResp.{OffsetCommitResp}
use kafka.Messages.OffsetCommitResp.Layout as OffsetCommitRespLayout
use kafka.Messages.OffsetFetchReq.{OffsetFetchReq}
use kafka.Messages.OffsetFetchReq.Layout as OffsetFetchReqLayout
use kafka.Messages.OffsetFetchResp.{OffsetFetchResp}
use kafka.Messages.OffsetFetchResp.Layout as OffsetFetchRespLayout
use kafka.Messages.GroupCoordinatorReq.{GroupCoordinatorReq}
use kafka.Messages.GroupCoordinatorReq.Layout as GroupCoordinatorReqLayout
use kafka.Messages.GroupCoordinatorResp.{GroupCoordinatorResp}
use kafka.Messages.GroupCoordinatorResp.Layout as GroupCoordinatorRespLayout
use kafka.Server.Store.{Server}
use kafka.Server.Handlers.{handle_produce_request, handle_fetch_request, handle_metadata_request}
use kafka.Server.Offsets.{
  handle_offset_request, handle_offset_commit_request, handle_offset_fetch_request,
  handle_group_coordinator_request,
}

pub data Request : Type 0 where
  produces : ProduceReq → Request
  fetches : FetchReq → Request
  asks_offset : OffsetReq → Request
  asks_metadata : MetadataReq → Request
  commits : OffsetCommitReq → Request
  fetches_offset : OffsetFetchReq → Request
  asks_coordinator : GroupCoordinatorReq → Request

pub data Reply : Type 0 where
  produced : ProduceResp → Reply
  fetched : FetchResp → Reply
  offsets : OffsetResp → Reply
  metadata : MetadataResp → Reply
  committed : OffsetCommitResp → Reply
  offset_fetched : OffsetFetchResp → Reply
  coordinator : GroupCoordinatorResp → Reply

abbrev pub kind_of : Request → ℕ
kind_of (produces req) = produce_req_kind
kind_of (fetches req) = fetch_req_kind
kind_of (asks_offset req) = offset_req_kind
kind_of (asks_metadata req) = metadata_req_kind
kind_of (commits req) = offset_commit_req_kind
kind_of (fetches_offset req) = offset_fetch_req_kind
kind_of (asks_coordinator req) = group_coordinator_req_kind

-- What the server reads of a request: messages with their checksums and without what the wire does not
-- carry, and commits with the time stamp that -1 stands for.
abbrev pub arriving : Request → Request
arriving (produces req) = produces (ProduceReqLayout.received_req req)
arriving (commits req) =
    commits (record req { topics = map OffsetCommitReqLayout.restamped_topic req.topics })
arriving req = req

abbrev pub ServeResult : Type 0
ServeResult = Exec (Option Reply × Server)

-- The answer to a request, and the server after it; none is a nil response.
abbrev pub serve : ℕ → Request → Server → ServeResult
serve node_id (produces req) s =
    done (some (produced (handle_produce_request req s).0), (handle_produce_request req s).1)
serve node_id (fetches req) s =
    then_exec (handle_fetch_request req s) λ resp. done (some (fetched resp), s)
serve node_id (asks_offset req) s =
    then_exec (handle_offset_request req s)
      λ o. elim o [ none ↦ done (none, s) | some resp ↦ done (some (offsets resp), s) ]
serve node_id (asks_metadata req) s =
    then_exec (handle_metadata_request node_id req s)
      λ (resp, after). done (some (metadata resp), after)
serve node_id (commits req) s = done (
  some (committed (handle_offset_commit_request req s).0),
  (handle_offset_commit_request req s).1,
)
serve node_id (fetches_offset req) s = done (
  some (offset_fetched (handle_offset_fetch_request req s).0),
  (handle_offset_fetch_request req s).1,
)
serve node_id (asks_coordinator req) s =
    then_exec (handle_group_coordinator_request req s) λ resp. done (some (coordinator resp), s)

module _ (c : Codecs) where
  -- The layouts behind the sizes.
  abbrev pub wire_request : Request → List ℕ
  wire_request (produces req) = ProduceReqLayout.wire c req
  wire_request (fetches req) = FetchReqLayout.wire req
  wire_request (asks_offset req) = OffsetReqLayout.wire req
  wire_request (asks_metadata req) = MetadataReqLayout.wire req
  wire_request (commits req) = OffsetCommitReqLayout.wire req
  wire_request (fetches_offset req) = OffsetFetchReqLayout.wire req
  wire_request (asks_coordinator req) = GroupCoordinatorReqLayout.wire req

  abbrev pub wire_reply : Reply → List ℕ
  wire_reply (produced resp) = ProduceRespLayout.wire resp
  wire_reply (fetched resp) = FetchRespLayout.wire c resp
  wire_reply (offsets resp) = OffsetRespLayout.wire resp
  wire_reply (metadata resp) = MetadataRespLayout.wire resp
  wire_reply (committed resp) = OffsetCommitRespLayout.wire resp
  wire_reply (offset_fetched resp) = OffsetFetchRespLayout.wire resp
  wire_reply (coordinator resp) = GroupCoordinatorRespLayout.wire resp

  -- The numbers and lengths of a request fit their fields.
  abbrev pub FieldsFit : Request → Type 0
  FieldsFit (produces req) = ProduceReqLayout.Fits c req
  FieldsFit (fetches req) = FetchReqLayout.Fits req
  FieldsFit (asks_offset req) = OffsetReqLayout.Fits req
  FieldsFit (asks_metadata req) = MetadataReqLayout.Fits req
  FieldsFit (commits req) = OffsetCommitReqLayout.Fits req
  FieldsFit (fetches_offset req) = OffsetFetchReqLayout.Fits req
  FieldsFit (asks_coordinator req) = GroupCoordinatorReqLayout.Fits req

  pub record FitsRequest (req : Request) : Type 0 where
    pub fields : FieldsFit req
    pub size : length (wire_request req) + 4 < 2 ^ 31

  abbrev pub FitsReply : Reply → Type 0
  FitsReply (produced resp) = ProduceRespLayout.Fits resp
  FitsReply (fetched resp) = FetchRespLayout.Fits c resp
  FitsReply (offsets resp) = OffsetRespLayout.Fits resp
  FitsReply (metadata resp) = MetadataRespLayout.Fits resp
  FitsReply (committed resp) = OffsetCommitRespLayout.Fits resp
  FitsReply (offset_fetched resp) = OffsetFetchRespLayout.Fits resp
  FitsReply (coordinator resp) = GroupCoordinatorRespLayout.Fits resp

  -- The reply, if there is one, fits.
  abbrev pub FitsAnswer : ServeResult → Type 0
  FitsAnswer (done (some reply, s)) = FitsReply reply
  FitsAnswer _ = Unit {0}

  -- The answer as bytes.
  abbrev pub sent : ServeResult → Exec (Option (List ℕ) × Server)
  sent (done (some reply, s)) = done (some (frame (wire_reply reply)), s)
  sent (done (none, s)) = done (none, s)
  sent panic = panic
  sent out_of_fuel = out_of_fuel

  -- A client's requests behind one another.
  abbrev pub stream : List Request → List ℕ
  stream [] = []
  stream (req ∷ reqs) = frame (wire_request req) ++ stream reqs

  -- The requests of a client are answered in their order, up to the first without a response.
  unfoldable pub serve_all : ℕ → List Request → Server → Exec (List ℕ × Server)
  serve_all node_id [] s = done ([], s)
  serve_all node_id (req ∷ reqs) s =
      then_exec (sent (serve node_id (arriving req) s)) λ (reply, next). elim reply [
        | none ↦ done ([], next)
        | some b ↦ then_exec (serve_all node_id reqs next) λ (rest, last). done (b ++ rest, last)
      ]

  -- Every request fits, and so does the reply to it.
  unfoldable pub FitsRun : ℕ → List Request → Server → Type 0
  FitsRun node_id [] s = Unit {0}
  FitsRun node_id (req ∷ reqs) s =
      FitsRequest req
      × FitsAnswer (serve node_id (arriving req) s)
      × FitsRun node_id reqs (after (serve node_id (arriving req) s) s)
