-- ===== src/Connection/Calls.antt =====
-- The requests of connection.go. `timed_out` tells whether sendRequest hits its time-out.
use kafka.Base.{ℕ, List, [], ◌∷◌, Option, none, some, Bool, ◌==◌, if◌then◌else◌}
use kafka.Base.Program.{Exec, done, panic, then_exec}
use kafka.Wire.Encoder.{Writer, Written}
use kafka.MessageSet.Message.{Codecs}
use kafka.Messages.Frame.{minus_one32}
use kafka.Messages.MetadataReq
use kafka.Messages.MetadataReq.{MetadataReq}
use kafka.Messages.MetadataResp
use kafka.Messages.MetadataResp.{MetadataResp}
use kafka.Messages.ProduceReq
use kafka.Messages.ProduceReq.{ProduceReq}
use kafka.Messages.ProduceResp
use kafka.Messages.ProduceResp.{ProduceResp}
use kafka.Messages.FetchReq
use kafka.Messages.FetchReq.{FetchReq, FetchReqTopic, FetchReqPartition}
use kafka.Messages.FetchResp
use kafka.Messages.FetchResp.{FetchResp, FetchRespTopic, FetchRespPartition}
use kafka.Messages.OffsetReq
use kafka.Messages.OffsetReq.{OffsetReq}
use kafka.Messages.OffsetResp
use kafka.Messages.OffsetResp.{OffsetResp}
use kafka.Messages.GroupCoordinatorReq
use kafka.Messages.GroupCoordinatorReq.{GroupCoordinatorReq}
use kafka.Messages.GroupCoordinatorResp
use kafka.Messages.GroupCoordinatorResp.{GroupCoordinatorResp}
use kafka.Messages.OffsetCommitReq
use kafka.Messages.OffsetCommitReq.{OffsetCommitReq}
use kafka.Messages.OffsetCommitResp
use kafka.Messages.OffsetCommitResp.{OffsetCommitResp}
use kafka.Messages.OffsetFetchReq
use kafka.Messages.OffsetFetchReq.{OffsetFetchReq}
use kafka.Messages.OffsetFetchResp
use kafka.Messages.OffsetFetchResp.{OffsetFetchResp}
use kafka.Broker.Consumer.{trim}
use kafka.Connection.Outcome.{Outcome, returned, refused, passed_on}
use kafka.Connection.Send.{Connection, Call, send_request, correlate, parse}

-- The loops of Fetch over the response. A topic or a partition is looked up in the request at the same
-- index, and an index that the request does not have panics.
abbrev pub trim_partition : FetchReqPartition → FetchRespPartition → FetchRespPartition
trim_partition req part = record part { messages = trim req.fetch_offset part.messages }

unfoldable pub trim_partitions :
    List FetchReqPartition → List FetchRespPartition → Exec (List FetchRespPartition)
unfolding trim
trim_partitions reqs [] = done []
trim_partitions [] (part ∷ parts) = panic
trim_partitions (req ∷ reqs) (part ∷ parts) =
    then_exec (trim_partitions reqs parts) λ rest. done (trim_partition req part ∷ rest)

abbrev pub trim_topic : FetchReqTopic → FetchRespTopic → Exec FetchRespTopic
trim_topic req topic =
    then_exec (trim_partitions req.partitions topic.partitions)
      λ parts. done (record topic { partitions = parts })

unfoldable pub trim_topics : List FetchReqTopic → List FetchRespTopic → Exec (List FetchRespTopic)
unfolding trim_partitions
trim_topics reqs [] = done []
trim_topics [] (topic ∷ topics) = panic
trim_topics (req ∷ reqs) (topic ∷ topics) =
    then_exec (trim_topic req topic)
      λ t. then_exec (trim_topics reqs topics) λ rest. done (t ∷ rest)

module _ {W : Type 0} ⦃wr : Writer W⦄ where
  unfoldable pub metadata : Bool → MetadataReq → Call W MetadataResp
  unfolding MetadataReq.send MetadataResp.read send_request correlate
  metadata timed_out req c =
      let (id, drawn) = correlate req.correlation_id c in
      let send = MetadataReq.send (record req { correlation_id = id }) in
      then_exec (send_request timed_out send id drawn) λ (b, after). parse MetadataResp.read b after

  -- A request without acknowledgements is written, and nothing is read: nil and the error of the write.
  abbrev written_blindly : Written W → Connection W → Outcome (Option ProduceResp) × Connection W
  written_blindly written c = elim written.err [
    | some e ↦ (refused (passed_on e), record c { socket = written.writer })
    | none ↦ (returned none, record c { socket = written.writer })
  ]

  abbrev as_some : Outcome ProduceResp × Connection W → Outcome (Option ProduceResp) × Connection W
  as_some (returned r, c) = (returned (some r), c)
  as_some (refused f, c) = (refused f, c)

  unfoldable pub produce : Codecs → Bool → ProduceReq → Call W (Option ProduceResp)
  unfolding ProduceReq.send ProduceResp.read send_request correlate
  produce codecs timed_out req c =
      let (id, drawn) = correlate req.correlation_id c in
      let send = ProduceReq.send codecs (record req { correlation_id = id }) in
      if req.required_acks == 0
      then (then_exec (send drawn.socket) λ written. done (written_blindly written drawn))
      else then_exec (send_request timed_out send id drawn)
          λ (b, after). then_exec (parse ProduceResp.read b after) λ answer. done (as_some answer)

  abbrev trim_response :
      FetchReq → Outcome FetchResp × Connection W → Exec (Outcome FetchResp × Connection W)
  trim_response req (refused f, c) = done (refused f, c)
  trim_response req (returned resp, c) =
      then_exec (trim_topics req.topics resp.topics)
        λ topics. done (returned (record resp { topics = topics }), c)

  -- `depth` bounds how deep compressed sets may lie inside one another.
  unfoldable pub fetch : Codecs → ℕ → Bool → FetchReq → Call W FetchResp
  unfolding FetchReq.send FetchResp.read send_request correlate trim_topics
  fetch codecs depth timed_out req c =
      let (id, drawn) = correlate req.correlation_id c in
      let send = FetchReq.send (record req { correlation_id = id }) in
      then_exec (send_request timed_out send id drawn) λ (b, after).
        then_exec (parse (FetchResp.read codecs depth) b after) λ answer. trim_response req answer

  -- The replica id is set to -1 whatever it was.
  unfoldable pub offset : Bool → OffsetReq → Call W OffsetResp
  unfolding OffsetReq.send OffsetResp.read send_request correlate
  offset timed_out req c =
      let (id, drawn) = correlate req.correlation_id c in
      let send = OffsetReq.send (record req { correlation_id = id; replica_id = minus_one32 }) in
      then_exec (send_request timed_out send id drawn) λ (b, after). parse OffsetResp.read b after

  unfoldable pub group_coordinator : Bool → GroupCoordinatorReq → Call W GroupCoordinatorResp
  unfolding GroupCoordinatorReq.send GroupCoordinatorResp.read send_request correlate
  group_coordinator timed_out req c =
      let (id, drawn) = correlate req.correlation_id c in
      let send = GroupCoordinatorReq.send (record req { correlation_id = id }) in
      then_exec (send_request timed_out send id drawn)
        λ (b, after). parse GroupCoordinatorResp.read b after

  unfoldable pub offset_commit : Bool → OffsetCommitReq → Call W OffsetCommitResp
  unfolding OffsetCommitReq.send OffsetCommitResp.read send_request correlate
  offset_commit timed_out req c =
      let (id, drawn) = correlate req.correlation_id c in
      let send = OffsetCommitReq.send (record req { correlation_id = id }) in
      then_exec (send_request timed_out send id drawn)
        λ (b, after). parse OffsetCommitResp.read b after

  unfoldable pub offset_fetch : Bool → OffsetFetchReq → Call W OffsetFetchResp
  unfolding OffsetFetchReq.send OffsetFetchResp.read send_request correlate
  offset_fetch timed_out req c =
      let (id, drawn) = correlate req.correlation_id c in
      let send = OffsetFetchReq.send (record req { correlation_id = id }) in
      then_exec (send_request timed_out send id drawn)
        λ (b, after). parse OffsetFetchResp.read b after
