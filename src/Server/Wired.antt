-- ===== src/Server/Wired.antt =====
-- The mock server of kafkatest/server.go at the other end of a connection: handleClient on the bytes of
-- a client's requests.
use kafka.Base.{ℕ, suc, ◌≡◌, refl, subst, List, [], ◌++◌, none, some, append-nil}
use kafka.Base.Program.{Exec, done, panic, out_of_fuel, then_exec}
use kafka.Wire.Errors.{eof}
use kafka.Wire.Source.{Source}
use kafka.Wire.Decoder.{Result}
use kafka.MessageSet.Message.{Codecs}
use kafka.MessageSet.ReadLaws.{source_of}
use kafka.MessageSet.RoundTrip.{CodecLaws}
use kafka.Messages.Frame.{frame}
use kafka.Messages.ProduceReq
use kafka.Messages.ProduceReq.{ProduceReq}
use kafka.Messages.ProduceReq.Layout as ProduceReqLayout
use kafka.Messages.ProduceResp.Layout as ProduceRespLayout
use kafka.Messages.FetchReq
use kafka.Messages.FetchReq.{FetchReq}
use kafka.Messages.FetchReq.Layout as FetchReqLayout
use kafka.Messages.FetchResp.{FetchResp}
use kafka.Messages.FetchResp.Layout as FetchRespLayout
use kafka.Messages.OffsetReq
use kafka.Messages.OffsetReq.{OffsetReq}
use kafka.Messages.OffsetReq.Layout as OffsetReqLayout
use kafka.Messages.OffsetResp
use kafka.Messages.OffsetResp.{OffsetResp}
use kafka.Messages.OffsetResp.Layout as OffsetRespLayout
use kafka.Messages.MetadataReq
use kafka.Messages.MetadataReq.{MetadataReq}
use kafka.Messages.MetadataReq.Layout as MetadataReqLayout
use kafka.Messages.MetadataResp
use kafka.Messages.MetadataResp.{MetadataResp}
use kafka.Messages.MetadataResp.Layout as MetadataRespLayout
use kafka.Messages.OffsetCommitReq
use kafka.Messages.OffsetCommitReq.{OffsetCommitReq}
use kafka.Messages.OffsetCommitReq.Layout as OffsetCommitReqLayout
use kafka.Messages.OffsetCommitResp.Layout as OffsetCommitRespLayout
use kafka.Messages.OffsetFetchReq
use kafka.Messages.OffsetFetchReq.{OffsetFetchReq}
use kafka.Messages.OffsetFetchReq.Layout as OffsetFetchReqLayout
use kafka.Messages.OffsetFetchResp.Layout as OffsetFetchRespLayout
use kafka.Messages.GroupCoordinatorReq
use kafka.Messages.GroupCoordinatorReq.{GroupCoordinatorReq}
use kafka.Messages.GroupCoordinatorReq.Layout as GroupCoordinatorReqLayout
use kafka.Messages.GroupCoordinatorResp
use kafka.Messages.GroupCoordinatorResp.{GroupCoordinatorResp}
use kafka.Messages.GroupCoordinatorResp.Layout as GroupCoordinatorRespLayout
use kafka.Messages.FetchResp
use kafka.Server.Store.{Server}
use kafka.Server.Handlers.{handle_fetch_request}
use kafka.Server.Serving.{
  written, source, handle_produce, handle_fetch, handle_offset, handle_metadata,
  handle_offset_commit, handle_offset_fetch, handle_group_coordinator,
}
use kafka.Server.Offsets.{Answer, handle_offset_request, handle_group_coordinator_request}
use kafka.Server.Handlers.{handle_metadata_request}
use kafka.Server.Service

-- What stands alone in a buffer is read as in front of nothing.
alone :
    {R : Type 0} (read : Source → Exec (Result R)) (b : List ℕ) (x : Exec (Result R))
    → read (source_of (b ++ []) eof) ≡ x
    → read (source b) ≡ x
alone read b x h = subst (λ (bs : List ℕ). read (source_of bs eof) ≡ x) (append-nil b) h

module _ (c : Codecs) (depth node_id : ℕ) (laws : CodecLaws c) where
  pub produce_answered :
      (req : ProduceReq) (s : Server)
      → Service.FieldsFit c (Service.produces req)
      → Service.FitsAnswer c (Service.serve node_id (Service.arriving (Service.produces req)) s)
      → handle_produce c (suc (suc depth)) node_id (frame (ProduceReqLayout.wire c req)) s
        ≡ Service.sent c (Service.serve node_id (Service.arriving (Service.produces req)) s)
  unfolding handle_produce
  produce_answered req s fits fit =
      rw
        (alone (ProduceReq.read c (suc (suc depth))) (frame (ProduceReqLayout.wire c req)) _
          (ProduceReqLayout.read-bytes_produce_req c depth req [] eof laws fits).1)
        (rw (ProduceRespLayout.read-bytes_produce_resp _ [] eof fit).0 refl)

  fetch_reply :
      (s : Server) (answer : Exec FetchResp)
      → Service.FitsAnswer c (then_exec answer λ resp. done (some (Service.fetched resp), s))
      → (then_exec answer λ resp. written s (FetchResp.bytes c resp))
        ≡ Service.sent c (then_exec answer λ resp. done (some (Service.fetched resp), s))
  fetch_reply s (done resp) fit =
      rw (FetchRespLayout.read-bytes_fetch_resp c depth resp [] eof laws fit).0 refl
  fetch_reply s panic fit = refl
  fetch_reply s out_of_fuel fit = refl

  pub fetch_answered :
      (req : FetchReq) (s : Server)
      → FetchReqLayout.Fits req
      → Service.FitsAnswer c (Service.serve node_id (Service.fetches req) s)
      → handle_fetch c (suc (suc depth)) node_id (frame (FetchReqLayout.wire req)) s
        ≡ Service.sent c (Service.serve node_id (Service.fetches req) s)
  unfolding handle_fetch
  fetch_answered req s fits fit =
      rw
        (alone FetchReq.read (frame (FetchReqLayout.wire req)) _
          (FetchReqLayout.read-bytes_fetch_req req [] eof fits).1)
        (fetch_reply s (handle_fetch_request req s) fit)

  metadata_reply :
      (answer : Exec (MetadataResp × Server))
      → Service.FitsAnswer c
          (then_exec answer λ (resp, next). done (some (Service.metadata resp), next))
      → (then_exec answer λ (resp, next). written next (MetadataResp.bytes resp))
        ≡ Service.sent c
            (then_exec answer λ (resp, next). done (some (Service.metadata resp), next))
  metadata_reply (done (resp, next)) fit =
      rw (MetadataRespLayout.read-bytes_metadata_resp resp [] eof fit).0 refl
  metadata_reply panic fit = refl
  metadata_reply out_of_fuel fit = refl

  pub metadata_answered :
      (req : MetadataReq) (s : Server)
      → MetadataReqLayout.Fits req
      → Service.FitsAnswer c (Service.serve node_id (Service.asks_metadata req) s)
      → handle_metadata c (suc (suc depth)) node_id (frame (MetadataReqLayout.wire req)) s
        ≡ Service.sent c (Service.serve node_id (Service.asks_metadata req) s)
  unfolding handle_metadata
  metadata_answered req s fits fit =
      rw
        (alone MetadataReq.read (frame (MetadataReqLayout.wire req)) _
          (MetadataReqLayout.read-bytes_metadata_req req [] eof fits).1)
        (metadata_reply (handle_metadata_request node_id req s) fit)

  offset_reply :
      (s : Server) (answer : Answer OffsetResp)
      → Service.FitsAnswer c (
          then_exec answer λ o. elim o [
            | none ↦ done (none, s)
            | some resp ↦ done (some (Service.offsets resp), s)
          ])
      → (then_exec answer
          λ o. elim o [ none ↦ done (none, s) | some resp ↦ written s (OffsetResp.bytes resp) ])
        ≡ Service.sent c (
            then_exec answer λ o. elim o [
              | none ↦ done (none, s)
              | some resp ↦ done (some (Service.offsets resp), s)
            ])
  offset_reply s (done (some resp)) fit =
      rw (OffsetRespLayout.read-bytes_offset_resp resp [] eof fit).0 refl
  offset_reply s (done none) fit = refl
  offset_reply s panic fit = refl
  offset_reply s out_of_fuel fit = refl

  pub offset_answered :
      (req : OffsetReq) (s : Server)
      → OffsetReqLayout.Fits req
      → Service.FitsAnswer c (Service.serve node_id (Service.asks_offset req) s)
      → handle_offset c (suc (suc depth)) node_id (frame (OffsetReqLayout.wire req)) s
        ≡ Service.sent c (Service.serve node_id (Service.asks_offset req) s)
  unfolding handle_offset
  offset_answered req s fits fit =
      rw
        (alone OffsetReq.read (frame (OffsetReqLayout.wire req)) _
          (OffsetReqLayout.read-bytes_offset_req req [] eof fits).1)
        (offset_reply s (handle_offset_request req s) fit)

  pub offset_commit_answered :
      (req : OffsetCommitReq) (s : Server)
      → OffsetCommitReqLayout.Fits req
      → Service.FitsAnswer c (Service.serve node_id (Service.arriving (Service.commits req)) s)
      → handle_offset_commit c (suc (suc depth)) node_id (frame (OffsetCommitReqLayout.wire req)) s
        ≡ Service.sent c (Service.serve node_id (Service.arriving (Service.commits req)) s)
  unfolding handle_offset_commit
  offset_commit_answered req s fits fit =
      rw
        (alone OffsetCommitReq.read (frame (OffsetCommitReqLayout.wire req)) _
          (OffsetCommitReqLayout.read-bytes_offset_commit_req req [] eof fits).1)
        (rw (OffsetCommitRespLayout.read-bytes_offset_commit_resp _ [] eof fit).0 refl)

  pub offset_fetch_answered :
      (req : OffsetFetchReq) (s : Server)
      → OffsetFetchReqLayout.Fits req
      → Service.FitsAnswer c (Service.serve node_id (Service.fetches_offset req) s)
      → handle_offset_fetch c (suc (suc depth)) node_id (frame (OffsetFetchReqLayout.wire req)) s
        ≡ Service.sent c (Service.serve node_id (Service.fetches_offset req) s)
  unfolding handle_offset_fetch
  offset_fetch_answered req s fits fit =
      rw
        (alone OffsetFetchReq.read (frame (OffsetFetchReqLayout.wire req)) _
          (OffsetFetchReqLayout.read-bytes_offset_fetch_req req [] eof fits).1)
        (rw (OffsetFetchRespLayout.read-bytes_offset_fetch_resp _ [] eof fit).0 refl)

  coordinator_reply :
      (s : Server) (answer : Exec GroupCoordinatorResp)
      → Service.FitsAnswer c (then_exec answer λ resp. done (some (Service.coordinator resp), s))
      → (then_exec answer λ resp. written s (GroupCoordinatorResp.bytes resp))
        ≡ Service.sent c (then_exec answer λ resp. done (some (Service.coordinator resp), s))
  coordinator_reply s (done resp) fit =
      rw (GroupCoordinatorRespLayout.read-bytes_group_coordinator_resp resp [] eof fit).0 refl
  coordinator_reply s panic fit = refl
  coordinator_reply s out_of_fuel fit = refl

  pub coordinator_answered :
      (req : GroupCoordinatorReq) (s : Server)
      → GroupCoordinatorReqLayout.Fits req
      → Service.FitsAnswer c (Service.serve node_id (Service.asks_coordinator req) s)
      → handle_group_coordinator c
          (suc (suc depth))
          node_id
          (frame (GroupCoordinatorReqLayout.wire req))
          s
        ≡ Service.sent c (Service.serve node_id (Service.asks_coordinator req) s)
  unfolding handle_group_coordinator
  coordinator_answered req s fits fit =
      rw
        (alone GroupCoordinatorReq.read (frame (GroupCoordinatorReqLayout.wire req)) _
          (GroupCoordinatorReqLayout.read-bytes_group_coordinator_req req [] eof fits).1)
        (coordinator_reply s (handle_group_coordinator_request req s) fit)
