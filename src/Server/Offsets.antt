-- ===== src/Server/Offsets.antt =====
-- handleOffsetRequest, handleOffsetCommitRequest, handleOffsetFetchRequest and
-- handleGroupCoordinatorRequest of kafkatest/server.go.
use kafka.Base.{
  ℕ, ◌^◌, ◌-◌, List, [], ◌∷◌, Option, none, some, length, take, ltb, ◌==◌, if◌then◌else◌,
}
use kafka.Base.Maps.{ℕ_eq, string_eq, lookup, assign}
use kafka.Base.Program.{Exec, done, panic, then_exec}
use kafka.Messages.OffsetReq.{OffsetReq, OffsetReqTopic, OffsetReqPartition}
use kafka.Messages.OffsetResp.{OffsetResp, OffsetRespTopic, OffsetRespPartition}
use kafka.Messages.OffsetCommitReq.{OffsetCommitReq, OffsetCommitReqTopic, OffsetCommitReqPartition}
use kafka.Messages.OffsetCommitResp.{
  OffsetCommitResp, OffsetCommitRespTopic, OffsetCommitRespPartition,
}
use kafka.Messages.OffsetFetchReq.{OffsetFetchReq, OffsetFetchReqTopic}
use kafka.Messages.OffsetFetchResp.{OffsetFetchResp, OffsetFetchRespTopic, OffsetFetchRespPartition}
use kafka.Messages.GroupCoordinatorReq.{GroupCoordinatorReq}
use kafka.Messages.GroupCoordinatorResp.{GroupCoordinatorResp}
use kafka.Server.Store.{Server, TopicOffset, Groups, addr, or_empty, or_no_messages}
use kafka.Server.Handlers.{stored_in}

-- `Offsets[0:part.MaxOffsets]` of two offsets: more than two, or a negative number, panics.
abbrev pub cut_offsets : ℕ → ℕ → List ℕ → Exec OffsetRespPartition
cut_offsets id max_offsets offsets =
    if ltb 2 max_offsets
    then panic
    else done (record { id = id; err = none; offsets = take max_offsets offsets })

-- The outer none is a nil response, for a time that is not supported.
abbrev pub offset_of : OffsetReqPartition → List ℕ → Server → Option (Exec OffsetRespPartition)
offset_of part topic s =
    if part.time_ms == 2 ^ 64 - 1
    then some (
        cut_offsets part.id part.max_offsets
          (length (or_no_messages (stored_in part.id (lookup topic s.topics))) ∷ 0 ∷ []))
    else (if part.time_ms == 2 ^ 64 - 2
        then some (cut_offsets part.id part.max_offsets (0 ∷ 0 ∷ []))
        else none)

abbrev pub Answer : Type 0 → Type 0
Answer A = Exec (Option A)

abbrev pub or_nil : {A : Type 0} → Option (Exec A) → Answer A
or_nil none = done none
or_nil (some e) = then_exec e λ a. done (some a)

abbrev pub then_answer : {A B : Type 0} → Answer A → (A → Answer B) → Answer B
then_answer e f = then_exec e λ o. elim o [ none ↦ done none | some a ↦ f a ]

unfoldable pub offset_partitions :
    List ℕ → List OffsetReqPartition → Server → Answer (List OffsetRespPartition)
offset_partitions topic [] s = done (some [])
offset_partitions topic (part ∷ rest) s =
    then_answer (or_nil (offset_of part topic s))
      λ resp. then_answer (offset_partitions topic rest s) λ resps. done (some (resp ∷ resps))

unfoldable pub offset_topics : List OffsetReqTopic → Server → Answer (List OffsetRespTopic)
unfolding offset_partitions
offset_topics [] s = done (some [])
offset_topics (topic ∷ topics) s =
    then_answer (offset_partitions topic.name topic.partitions s) λ parts.
      then_answer (offset_topics topics s)
        λ rest. done (some (record { name = topic.name; partitions = parts } ∷ rest))

unfoldable pub handle_offset_request : OffsetReq → Server → Answer OffsetResp
unfolding offset_topics
handle_offset_request req s =
    then_answer (offset_topics req.topics s)
      λ topics. done (some (record { correlation_id = req.correlation_id; topics = topics }))

abbrev pub or_zero : Option TopicOffset → TopicOffset
or_zero none = record { offset = 0; metadata = [] }
or_zero (some o) = o

abbrev pub groups_of : List ℕ → ℕ → Server → Groups
groups_of topic part s = or_empty (lookup part (or_empty (lookup topic s.offsets)))

-- getTopicOffset: what the entry holds, which is made where it is missing.
unfoldable pub get_topic_offset : List ℕ → List ℕ → ℕ → Server → TopicOffset
unfolding lookup
get_topic_offset group topic part s = or_zero (lookup group (groups_of topic part s))

-- The entry behind the pointer that getTopicOffset returns is set.
unfoldable pub set_topic_offset : List ℕ → List ℕ → ℕ → TopicOffset → Server → Server
unfolding assign
set_topic_offset group topic part o s = record s {
  offsets =
      assign topic
        (assign part (assign group o (groups_of topic part s)) (or_empty (lookup topic s.offsets)))
        s.offsets;
}

unfoldable pub commit_partitions :
    List ℕ
    → List ℕ
    → List OffsetCommitReqPartition
    → Server
    → List OffsetCommitRespPartition × Server
unfolding set_topic_offset
commit_partitions group topic [] s = ([], s)
commit_partitions group topic (part ∷ rest) s =
    let o : TopicOffset = record { offset = part.offset; metadata = part.metadata } in
    let (resps, after) =
      commit_partitions group topic rest (set_topic_offset group topic part.id o s) in
    (record { id = part.id; err = none } ∷ resps, after)

unfoldable pub commit_topics :
    List ℕ → List OffsetCommitReqTopic → Server → List OffsetCommitRespTopic × Server
unfolding commit_partitions
commit_topics group [] s = ([], s)
commit_topics group (topic ∷ topics) s =
    let (resps, next) = commit_partitions group topic.name topic.partitions s in
    let (rest, after) = commit_topics group topics next in
    (record { name = topic.name; partitions = resps } ∷ rest, after)

unfoldable pub handle_offset_commit_request : OffsetCommitReq → Server → OffsetCommitResp × Server
unfolding commit_topics
handle_offset_commit_request req s =
    let (topics, after) = commit_topics req.consumer_group req.topics s in
    (record { correlation_id = req.correlation_id; topics = topics }, after)

unfoldable pub stored_partitions :
    List ℕ → List ℕ → List ℕ → Server → List OffsetFetchRespPartition × Server
unfolding get_topic_offset set_topic_offset
stored_partitions group topic [] s = ([], s)
stored_partitions group topic (part ∷ rest) s =
    let o = get_topic_offset group topic part s in
    let (resps, after) =
      stored_partitions group topic rest (set_topic_offset group topic part o s) in
    (record { id = part; offset = o.offset; metadata = o.metadata; err = none } ∷ resps, after)

unfoldable pub stored_topics :
    List ℕ → List OffsetFetchReqTopic → Server → List OffsetFetchRespTopic × Server
unfolding stored_partitions
stored_topics group [] s = ([], s)
stored_topics group (topic ∷ topics) s =
    let (resps, next) = stored_partitions group topic.name topic.partitions s in
    let (rest, after) = stored_topics group topics next in
    (record { name = topic.name; partitions = resps } ∷ rest, after)

unfoldable pub handle_offset_fetch_request : OffsetFetchReq → Server → OffsetFetchResp × Server
unfolding stored_topics
handle_offset_fetch_request req s =
    let (topics, after) = stored_topics req.consumer_group req.topics s in
    (record { correlation_id = req.correlation_id; topics = topics }, after)

-- The coordinator is the server itself, at its own address.
unfoldable pub handle_group_coordinator_request :
    GroupCoordinatorReq → Server → Exec GroupCoordinatorResp
unfolding addr
handle_group_coordinator_request req s = then_exec (addr s) λ (host, port). done (record {
  correlation_id = req.correlation_id;
  err = none;
  coordinator_id = 0;
  coordinator_host = host;
  coordinator_port = port;
})
