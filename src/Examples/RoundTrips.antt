-- ===== src/Examples/RoundTrips.antt =====
-- The messages of the other examples, all at once.
use kafka.Base.{[], ◌∷◌, map}
use kafka.Wire.Errors.{eof}
use kafka.Messages.RoundTrips.{Carried, read-bytes_requests, read-bytes_responses}
use kafka.Messages.MetadataReq
use kafka.Messages.MetadataReq.Layout as MetadataReqLayout
use kafka.Examples.MetadataReq as MetadataReqExample
use kafka.Messages.FetchReq
use kafka.Messages.FetchReq.Layout as FetchReqLayout
use kafka.Examples.FetchReq as FetchReqExample
use kafka.Messages.OffsetReq
use kafka.Messages.OffsetReq.Layout as OffsetReqLayout
use kafka.Examples.OffsetReq as OffsetReqExample
use kafka.Messages.OffsetCommitReq
use kafka.Messages.OffsetCommitReq.Layout as OffsetCommitReqLayout
use kafka.Examples.OffsetCommitReq as OffsetCommitReqExample
use kafka.Messages.OffsetFetchReq
use kafka.Messages.OffsetFetchReq.Layout as OffsetFetchReqLayout
use kafka.Examples.OffsetFetchReq as OffsetFetchReqExample
use kafka.Messages.GroupCoordinatorReq
use kafka.Messages.GroupCoordinatorReq.Layout as GroupCoordinatorReqLayout
use kafka.Examples.GroupCoordinatorReq as GroupCoordinatorReqExample
use kafka.Messages.MetadataResp
use kafka.Messages.MetadataResp.Layout as MetadataRespLayout
use kafka.Examples.MetadataResp as MetadataRespExample
use kafka.Messages.ProduceResp
use kafka.Messages.ProduceResp.Layout as ProduceRespLayout
use kafka.Examples.ProduceResp as ProduceRespExample
use kafka.Messages.OffsetResp
use kafka.Messages.OffsetResp.Layout as OffsetRespLayout
use kafka.Examples.OffsetResp as OffsetRespExample
use kafka.Messages.OffsetFetchResp
use kafka.Messages.OffsetFetchResp.Layout as OffsetFetchRespLayout
use kafka.Examples.OffsetFetchResp as OffsetFetchRespExample
use kafka.Messages.OffsetCommitResp
use kafka.Messages.OffsetCommitResp.Layout as OffsetCommitRespLayout
use kafka.Examples.OffsetCommitResp as OffsetCommitRespExample
use kafka.Messages.GroupCoordinatorResp
use kafka.Messages.GroupCoordinatorResp.Layout as GroupCoordinatorRespLayout
use kafka.Examples.GroupCoordinatorResp as GroupCoordinatorRespExample

read-bytes_requests_example :
    Carried
      (MetadataReq.bytes MetadataReqExample.sample)
      MetadataReq.read
      (MetadataReqLayout.wire MetadataReqExample.sample)
      MetadataReqExample.sample
      (7 ∷ [])
      eof
    × Carried
        (FetchReq.bytes FetchReqExample.sample)
        FetchReq.read
        (FetchReqLayout.wire FetchReqExample.sample)
        FetchReqExample.sample
        (7 ∷ [])
        eof
    × Carried
        (OffsetReq.bytes OffsetReqExample.sample)
        OffsetReq.read
        (OffsetReqLayout.wire OffsetReqExample.sample)
        OffsetReqExample.sample
        (7 ∷ [])
        eof
    × Carried
        (OffsetCommitReq.bytes OffsetCommitReqExample.sample)
        OffsetCommitReq.read
        (OffsetCommitReqLayout.wire OffsetCommitReqExample.sample)
        (record OffsetCommitReqExample.sample {
          topics = map OffsetCommitReqLayout.restamped_topic OffsetCommitReqExample.sample.topics;
        })
        (7 ∷ [])
        eof
    × Carried
        (OffsetFetchReq.bytes OffsetFetchReqExample.sample)
        OffsetFetchReq.read
        (OffsetFetchReqLayout.wire OffsetFetchReqExample.sample)
        OffsetFetchReqExample.sample
        (7 ∷ [])
        eof
    × Carried
        (GroupCoordinatorReq.bytes GroupCoordinatorReqExample.sample)
        GroupCoordinatorReq.read
        (GroupCoordinatorReqLayout.wire GroupCoordinatorReqExample.sample)
        GroupCoordinatorReqExample.sample
        (7 ∷ [])
        eof
read-bytes_requests_example =
    read-bytes_requests MetadataReqExample.sample FetchReqExample.sample OffsetReqExample.sample
      OffsetCommitReqExample.sample OffsetFetchReqExample.sample GroupCoordinatorReqExample.sample
      (7 ∷ []) eof MetadataReqExample.sample-Fits FetchReqExample.sample-Fits
      OffsetReqExample.sample-Fits OffsetCommitReqExample.sample-Fits
      OffsetFetchReqExample.sample-Fits GroupCoordinatorReqExample.sample-Fits

read-bytes_responses_example :
    Carried
      (MetadataResp.bytes MetadataRespExample.sample)
      MetadataResp.read
      (MetadataRespLayout.wire MetadataRespExample.sample)
      MetadataRespExample.sample
      (7 ∷ [])
      eof
    × Carried
        (ProduceResp.bytes ProduceRespExample.sample)
        ProduceResp.read
        (ProduceRespLayout.wire ProduceRespExample.sample)
        ProduceRespExample.sample
        (7 ∷ [])
        eof
    × Carried
        (OffsetResp.bytes OffsetRespExample.sample)
        OffsetResp.read
        (OffsetRespLayout.wire OffsetRespExample.sample)
        OffsetRespExample.sample
        (7 ∷ [])
        eof
    × Carried
        (OffsetFetchResp.bytes OffsetFetchRespExample.sample)
        OffsetFetchResp.read
        (OffsetFetchRespLayout.wire OffsetFetchRespExample.sample)
        OffsetFetchRespExample.sample
        (7 ∷ [])
        eof
    × Carried
        (OffsetCommitResp.bytes OffsetCommitRespExample.sample)
        OffsetCommitResp.read
        (OffsetCommitRespLayout.wire OffsetCommitRespExample.sample)
        OffsetCommitRespExample.sample
        (7 ∷ [])
        eof
    × Carried
        (GroupCoordinatorResp.bytes GroupCoordinatorRespExample.sample)
        GroupCoordinatorResp.read
        (GroupCoordinatorRespLayout.wire GroupCoordinatorRespExample.sample)
        GroupCoordinatorRespExample.sample
        (7 ∷ [])
        eof
read-bytes_responses_example =
    read-bytes_responses MetadataRespExample.sample ProduceRespExample.sample
      OffsetRespExample.sample OffsetFetchRespExample.sample OffsetCommitRespExample.sample
      GroupCoordinatorRespExample.sample (7 ∷ []) eof MetadataRespExample.sample-Fits
      ProduceRespExample.sample-Fits OffsetRespExample.sample-Fits
      OffsetFetchRespExample.sample-Fits OffsetCommitRespExample.sample-Fits
      GroupCoordinatorRespExample.sample-Fits
