-- ===== src/Messages/RoundTrips.antt =====
-- The round trips of the requests and of the responses of proto/messages.go that carry no message sets.
use kafka.Base.{ℕ, ◌≡◌, List, ◌++◌, map}
use kafka.Base.Program.{Exec, done}
use kafka.Wire.Errors.{Error}
use kafka.Wire.Source.{Source}
use kafka.Wire.Decoder.{Result, ok}
use kafka.Messages.Frame.{frame}
use kafka.Messages.MetadataReq
use kafka.Messages.MetadataReq.{MetadataReq}
use kafka.Messages.MetadataReq.Layout as MetadataReqLayout
use kafka.Messages.FetchReq
use kafka.Messages.FetchReq.{FetchReq}
use kafka.Messages.FetchReq.Layout as FetchReqLayout
use kafka.Messages.OffsetReq
use kafka.Messages.OffsetReq.{OffsetReq}
use kafka.Messages.OffsetReq.Layout as OffsetReqLayout
use kafka.Messages.OffsetCommitReq
use kafka.Messages.OffsetCommitReq.{OffsetCommitReq}
use kafka.Messages.OffsetCommitReq.Layout as OffsetCommitReqLayout
use kafka.Messages.OffsetFetchReq
use kafka.Messages.OffsetFetchReq.{OffsetFetchReq}
use kafka.Messages.OffsetFetchReq.Layout as OffsetFetchReqLayout
use kafka.Messages.GroupCoordinatorReq
use kafka.Messages.GroupCoordinatorReq.{GroupCoordinatorReq}
use kafka.Messages.GroupCoordinatorReq.Layout as GroupCoordinatorReqLayout
use kafka.Messages.MetadataResp
use kafka.Messages.MetadataResp.{MetadataResp}
use kafka.Messages.MetadataResp.Layout as MetadataRespLayout
use kafka.Messages.ProduceResp
use kafka.Messages.ProduceResp.{ProduceResp}
use kafka.Messages.ProduceResp.Layout as ProduceRespLayout
use kafka.Messages.OffsetResp
use kafka.Messages.OffsetResp.{OffsetResp}
use kafka.Messages.OffsetResp.Layout as OffsetRespLayout
use kafka.Messages.OffsetFetchResp
use kafka.Messages.OffsetFetchResp.{OffsetFetchResp}
use kafka.Messages.OffsetFetchResp.Layout as OffsetFetchRespLayout
use kafka.Messages.OffsetCommitResp
use kafka.Messages.OffsetCommitResp.{OffsetCommitResp}
use kafka.Messages.OffsetCommitResp.Layout as OffsetCommitRespLayout
use kafka.Messages.GroupCoordinatorResp
use kafka.Messages.GroupCoordinatorResp.{GroupCoordinatorResp}
use kafka.Messages.GroupCoordinatorResp.Layout as GroupCoordinatorRespLayout

-- Bytes writes the layout behind its size, and the Read function gives the message `back` from any reader
-- that begins with those bytes.
abbrev pub Carried :
    {R : Type 0}
    → Exec (Result (List ℕ))
    → (Source → Exec (Result R))
    → List ℕ
    → R
    → List ℕ
    → Error
    → Type 0
Carried bytes read body back rest ending =
    (bytes ≡ done (ok (frame body)))
    × (read (record { bytes = frame body ++ rest; ending = ending }) ≡ done (ok back))

-- The requests for metadata, fetching, offsets, committing and fetching offsets, and the group
-- coordinator, whose numbers and lengths fit their fields: Bytes writes each by its layout behind its
-- size, and its Read function gives the same request back from any reader that begins with those bytes,
-- but for the time stamps of a commit, which are not written and come back as the time that -1 stands for.
pub read-bytes_requests :
    (metadata_req : MetadataReq) (fetch_req : FetchReq) (offset_req : OffsetReq)
    (offset_commit_req : OffsetCommitReq) (offset_fetch_req : OffsetFetchReq)
    (group_coordinator_req : GroupCoordinatorReq) (rest : List ℕ) (ending : Error)
    → MetadataReqLayout.Fits metadata_req
    → FetchReqLayout.Fits fetch_req
    → OffsetReqLayout.Fits offset_req
    → OffsetCommitReqLayout.Fits offset_commit_req
    → OffsetFetchReqLayout.Fits offset_fetch_req
    → GroupCoordinatorReqLayout.Fits group_coordinator_req
    → Carried
        (MetadataReq.bytes metadata_req)
        MetadataReq.read
        (MetadataReqLayout.wire metadata_req)
        metadata_req
        rest
        ending
      × Carried
          (FetchReq.bytes fetch_req)
          FetchReq.read
          (FetchReqLayout.wire fetch_req)
          fetch_req
          rest
          ending
      × Carried
          (OffsetReq.bytes offset_req)
          OffsetReq.read
          (OffsetReqLayout.wire offset_req)
          offset_req
          rest
          ending
      × Carried
          (OffsetCommitReq.bytes offset_commit_req)
          OffsetCommitReq.read
          (OffsetCommitReqLayout.wire offset_commit_req)
          (record offset_commit_req {
            topics = map OffsetCommitReqLayout.restamped_topic offset_commit_req.topics;
          })
          rest
          ending
      × Carried
          (OffsetFetchReq.bytes offset_fetch_req)
          OffsetFetchReq.read
          (OffsetFetchReqLayout.wire offset_fetch_req)
          offset_fetch_req
          rest
          ending
      × Carried
          (GroupCoordinatorReq.bytes group_coordinator_req)
          GroupCoordinatorReq.read
          (GroupCoordinatorReqLayout.wire group_coordinator_req)
          group_coordinator_req
          rest
          ending
read-bytes_requests metadata_req fetch_req offset_req offset_commit_req offset_fetch_req
      group_coordinator_req rest ending fits_metadata fits_fetch fits_offset fits_offset_commit
      fits_offset_fetch fits_group_coordinator =
    (
      MetadataReqLayout.read-bytes_metadata_req metadata_req rest ending fits_metadata,
      FetchReqLayout.read-bytes_fetch_req fetch_req rest ending fits_fetch,
      OffsetReqLayout.read-bytes_offset_req offset_req rest ending fits_offset,
      OffsetCommitReqLayout.read-bytes_offset_commit_req offset_commit_req rest ending
          fits_offset_commit,
      OffsetFetchReqLayout.read-bytes_offset_fetch_req offset_fetch_req rest ending
          fits_offset_fetch,
      GroupCoordinatorReqLayout.read-bytes_group_coordinator_req group_coordinator_req rest ending
          fits_group_coordinator,
    )

-- The responses to metadata, producing, offsets, fetching and committing offsets, and the group
-- coordinator, whose numbers, lengths and errors fit their fields: Bytes writes each by its layout behind
-- its size, and its Read function gives the same response back from any reader that begins with those
-- bytes.
pub read-bytes_responses :
    (metadata_resp : MetadataResp) (produce_resp : ProduceResp) (offset_resp : OffsetResp)
    (offset_fetch_resp : OffsetFetchResp) (offset_commit_resp : OffsetCommitResp)
    (group_coordinator_resp : GroupCoordinatorResp) (rest : List ℕ) (ending : Error)
    → MetadataRespLayout.Fits metadata_resp
    → ProduceRespLayout.Fits produce_resp
    → OffsetRespLayout.Fits offset_resp
    → OffsetFetchRespLayout.Fits offset_fetch_resp
    → OffsetCommitRespLayout.Fits offset_commit_resp
    → GroupCoordinatorRespLayout.Fits group_coordinator_resp
    → Carried
        (MetadataResp.bytes metadata_resp)
        MetadataResp.read
        (MetadataRespLayout.wire metadata_resp)
        metadata_resp
        rest
        ending
      × Carried
          (ProduceResp.bytes produce_resp)
          ProduceResp.read
          (ProduceRespLayout.wire produce_resp)
          produce_resp
          rest
          ending
      × Carried
          (OffsetResp.bytes offset_resp)
          OffsetResp.read
          (OffsetRespLayout.wire offset_resp)
          offset_resp
          rest
          ending
      × Carried
          (OffsetFetchResp.bytes offset_fetch_resp)
          OffsetFetchResp.read
          (OffsetFetchRespLayout.wire offset_fetch_resp)
          offset_fetch_resp
          rest
          ending
      × Carried
          (OffsetCommitResp.bytes offset_commit_resp)
          OffsetCommitResp.read
          (OffsetCommitRespLayout.wire offset_commit_resp)
          offset_commit_resp
          rest
          ending
      × Carried
          (GroupCoordinatorResp.bytes group_coordinator_resp)
          GroupCoordinatorResp.read
          (GroupCoordinatorRespLayout.wire group_coordinator_resp)
          group_coordinator_resp
          rest
          ending
read-bytes_responses metadata_resp produce_resp offset_resp offset_fetch_resp offset_commit_resp
      group_coordinator_resp rest ending fits_metadata fits_produce fits_offset fits_offset_fetch
      fits_offset_commit fits_group_coordinator =
    (
      MetadataRespLayout.read-bytes_metadata_resp metadata_resp rest ending fits_metadata,
      ProduceRespLayout.read-bytes_produce_resp produce_resp rest ending fits_produce,
      OffsetRespLayout.read-bytes_offset_resp offset_resp rest ending fits_offset,
      OffsetFetchRespLayout.read-bytes_offset_fetch_resp offset_fetch_resp rest ending
          fits_offset_fetch,
      OffsetCommitRespLayout.read-bytes_offset_commit_resp offset_commit_resp rest ending
          fits_offset_commit,
      GroupCoordinatorRespLayout.read-bytes_group_coordinator_resp group_coordinator_resp rest
          ending fits_group_coordinator,
    )
